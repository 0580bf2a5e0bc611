-- ===== src/Ops/LagBuffer.antt =====
-- tflo-ops/src/primitives/lag_buffer.rs: `LagBuffer`. The values are only stored and copied, so they are of
-- any type; `VecDeque` is the list from front to back.
pub mod Lagged
use tflo.Prelude.{
  ℕ, ◌-◌, ◌%◌, ◌^◌, ltb, Option, none, some, List, [], ◌∷◌, ◌++◌, length, if◌then◌else◌,
}
use tflo.Prelude.Int.{ℤ, pos, negsuc, leb_ℤ}
use tflo.Prelude.I64.{sat_sub}

pub record LagBuffer {ℓ} (V : Type ℓ) : Type ℓ where
  pub lag_ms : ℤ
  pub buffer : List (ℤ × V)
  pub max_buffer_size : ℕ

-- `as i64`
abbrev pub as_i64 : ℕ → ℤ
as_i64 n = let m = n % 2 ^ 64 in if ltb m (2 ^ 63) then pos m else negsuc (2 ^ 64 - 1 - m)

module _ {ℓ} {V : Type ℓ} where
  -- The lag is a `Duration`, as its milliseconds.
  abbrev pub with_max_size : ℕ → ℕ → LagBuffer V
  with_max_size lag max_size = record {
    lag_ms = as_i64 lag;
    buffer = [];
    max_buffer_size = max_size;
  }

  abbrev pub new : ℕ → LagBuffer V
  new lag = with_max_size lag 10000

  -- The loop that keeps the buffer within its size.
  abbrev pub bounded : ℕ → List (ℤ × V) → List (ℤ × V)
  bounded max_size [] = []
  bounded max_size (e ∷ es) =
      let rest = bounded max_size es in if ltb max_size (length (e ∷ es)) then rest else e ∷ es

  -- The loop that drops the front while the entry after it is old enough.
  abbrev pub cleaned : ℤ → List (ℤ × V) → List (ℤ × V)
  cleaned target_ts [] = []
  cleaned target_ts (e ∷ []) = e ∷ []
  cleaned target_ts (e ∷ n ∷ es) =
      let rest = cleaned target_ts (n ∷ es) in if leb_ℤ n.0 target_ts then rest else e ∷ n ∷ es

  abbrev pub front_at : ℤ → List (ℤ × V) → Option V
  front_at target_ts [] = none
  front_at target_ts (e ∷ es) = if leb_ℤ e.0 target_ts then some e.1 else none

  unfoldable pub push : LagBuffer V → ℤ → V → Option V × LagBuffer V
  push b ts value =
      let target_ts = sat_sub ts b.lag_ms in
      let kept = cleaned target_ts (bounded b.max_buffer_size (b.buffer ++ ((ts, value) ∷ []))) in
      (front_at target_ts kept, record b { buffer = kept })

  -- The loop of `get_at`, with its result so far.
  abbrev pub scanned : ℤ → Option V → List (ℤ × V) → Option V
  scanned target_ts result [] = result
  scanned target_ts result (e ∷ es) =
      let rest = scanned target_ts (some e.1) es in if leb_ℤ e.0 target_ts then rest else result

  unfoldable pub get_at : LagBuffer V → ℤ → Option V
  get_at b ts = scanned (sat_sub ts b.lag_ms) none b.buffer

  abbrev pub clear : LagBuffer V → LagBuffer V
  clear b = record b { buffer = [] }
