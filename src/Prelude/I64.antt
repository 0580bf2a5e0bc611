-- ===== src/Prelude/I64.antt =====
-- `i64` and `u64` values, held as integers and numbers, with Rust's saturating operations.
use Prim.Native.Nat.{ℕ, ◌+◌, ◌-◌, ◌^◌, min}
use native.Mathlib.Omega.{arith}
use tflo.Prelude.Tests.{if◌then◌else◌}
use tflo.Prelude.Int.{ℤ, pos, negsuc, ◌+ℤ◌, ◌-ℤ◌, ◌*ℤ◌, ◌≤ℤ◌, ltb_ℤ, -ℤ_parts}

abbrev pub i64_max : ℤ
i64_max = pos (2 ^ 63 - 1)

abbrev pub i64_min : ℤ
i64_min = negsuc (2 ^ 63 - 1)

abbrev pub saturate : ℤ → ℤ
saturate a = if ltb_ℤ i64_max a then i64_max else if ltb_ℤ a i64_min then i64_min else a

-- `i64::saturating_add`
unfoldable pub sat_add : ℤ → ℤ → ℤ
sat_add a b = saturate (a +ℤ b)

-- `i64::saturating_sub`
unfoldable pub sat_sub : ℤ → ℤ → ℤ
sat_sub a b = saturate (a -ℤ b)

-- `i64::saturating_mul`
unfoldable pub sat_mul : ℤ → ℤ → ℤ
sat_mul a b = saturate (a *ℤ b)

abbrev pub u64_max : ℕ
u64_max = 2 ^ 64 - 1

-- `u64::saturating_add` and, on a 64-bit target, `usize::saturating_add`
abbrev pub sat_add_u64 : ℕ → ℕ → ℕ
sat_add_u64 a b = min (a + b) u64_max

abbrev pub IsI64 : ℤ → Type 0
IsI64 a = (i64_min ≤ℤ a) × (a ≤ℤ i64_max)

pub saturate_mono : (a b : ℤ) → a ≤ℤ b → saturate a ≤ℤ saturate b
saturate_mono a b h = ground arith

pub sat_sub_mono : (a b c : ℤ) → a ≤ℤ b → sat_sub a c ≤ℤ sat_sub b c
unfolding sat_sub
sat_sub_mono a b c h = saturate_mono (a -ℤ c) (b -ℤ c) (omega (arith, -ℤ_parts a c, -ℤ_parts b c))

-- Subtracting a non-negative number from an `i64` stays below it.
pub sat_sub-le : (a b : ℤ) → i64_min ≤ℤ a → pos 0 ≤ℤ b → sat_sub a b ≤ℤ a
unfolding sat_sub
sat_sub-le a b h k = ground (arith, -ℤ_parts a b)
