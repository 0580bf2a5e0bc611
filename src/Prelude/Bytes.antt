-- ===== src/Prelude/Bytes.antt =====
-- Text as the list of its UTF-8 bytes, and the decimal digits of a number.
use Prim.Native.Char.{code}
use Prim.Native.Nat.{ℕ, zero, suc, ◌+◌, ◌/◌, ◌%◌}
use Prim.Native.String.{String}
use mathlib.Core.Path.{◌≡◌, refl, sym}
use mathlib.Core.List.{List, cons≢nil, [], ◌∷◌, ◌++◌}
use native.Mathlib.Decide.{ℕ_discrete}
use tflo.Prelude.Tests.{ltb, if◌then◌else◌}

abbrev pub Bytes : Type 0
Bytes = List ℕ

module _ {a b : ℕ} {s t : Bytes} where
  pub cons-eq : a ≡ b → s ≡ t → a ∷ s ≡ b ∷ t
  cons-eq e e' = cc

  pub head-eq : a ∷ s ≡ b ∷ t → a ≡ b
  head-eq p = cc

  pub tail-eq : a ∷ s ≡ b ∷ t → s ≡ t
  tail-eq p = cc

  abbrev same_cons : Dec (a ≡ b) → Dec (s ≡ t) → Dec (a ∷ s ≡ b ∷ t)
  same_cons (yes e) (yes e') = yes (cons-eq e e')
  same_cons (yes e) (no n) = no (λ p. n (tail-eq p))
  same_cons (no n) d = no (λ p. n (head-eq p))

abbrev pub same_bytes : (a b : Bytes) → Dec (a ≡ b)
same_bytes [] [] = yes refl
same_bytes [] (b ∷ t) = no (λ p. cons≢nil (sym p))
same_bytes (a ∷ s) [] = no (λ p. cons≢nil p)
same_bytes (a ∷ s) (b ∷ t) = same_cons (ℕ_discrete a b) (same_bytes s t)

-- The bytes of a text in ASCII.
abbrev pub codes : String → Bytes
codes String.[] = []
codes (String.◌∷◌ c s) = code c ∷ codes s

-- The decimal digits of a number; the fuel is more than their number.
abbrev pub digits_from : ℕ → ℕ → Bytes
digits_from zero n = []
digits_from (suc fuel) n =
    let front = digits_from fuel (n / 10) in
    if ltb n 10 then (b'0' + n) ∷ [] else front ++ ((b'0' + n % 10) ∷ [])

-- `to_string` of a `u64`.
unfoldable pub digits : ℕ → Bytes
digits n = digits_from (suc n) n
