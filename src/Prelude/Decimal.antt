-- ===== src/Prelude/Decimal.antt =====
-- The decimal digits of a number: `format!` of a `usize`.
use Prim.Native.Nat.{ℕ, zero, suc, ◌/◌, ◌%◌}
use Prim.Native.String.{String, ◌++◌}
use tflo.Prelude.Tests.{ltb, ◌==◌, if◌then◌else◌}

abbrev digit : ℕ → String
digit n =
    if n == 0
    then "0"
    else if n == 1
    then "1"
    else if n == 2
    then "2"
    else if n == 3
    then "3"
    else if n == 4
    then "4"
    else if n == 5
    then "5"
    else if n == 6
    then "6"
    else if n == 7
    then "7"
    else if n == 8
    then "8"
    else "9"

-- The fuel is more than the number of digits.
digits : ℕ → ℕ → String
digits zero n = ""
digits (suc fuel) n =
    let front = digits fuel (n / 10) in if ltb n 10 then digit n else front ++ digit (n % 10)

unfoldable pub decimal : ℕ → String
unfolding digits
decimal n = digits (suc n) n

-- `format!("{prefix}{n}")`
unfoldable pub numbered : String → ℕ → String
numbered prefix n = prefix ++ decimal n

-- `format!("{prefix}{n}{suffix}")`
unfoldable pub enclosed : String → ℕ → String → String
enclosed prefix n suffix = prefix ++ decimal n ++ suffix
