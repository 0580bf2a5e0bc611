-- ===== src/Core/Clock.antt =====
-- tflo-core/src/clock.rs: the clock that a host sets by hand. The sum that `fetch_add` stores wraps
-- around at 64 bits; the one that `advance` returns saturates.
use tflo.Prelude.{◌-◌, ◌^◌, ◌≡◌, ◌↔◌, ◌≤◌, ◌<◌, arith, if◌then◌else◌}
use tflo.Prelude.Int.{ℤ, pos, ◌+ℤ◌, ◌-ℤ◌, ltb_ℤ, pos_part, neg_part}
use tflo.Prelude.I64.{i64_max, i64_min, sat_add, saturate, IsI64}

-- The wrap of a sum of two `i64` values: the sum is off by at most one turn of 2^64.
unfoldable pub wrap : ℤ → ℤ
unfolding ◌+ℤ◌ ◌-ℤ◌
wrap z =
    if ltb_ℤ i64_max z
    then z -ℤ pos 18446744073709551616
    else if ltb_ℤ z i64_min
    then z +ℤ pos 18446744073709551616
    else z

pub record ManualClock : Type 0 where
  pub now : ℤ

abbrev pub new : ℤ → ManualClock
new start_ms = record { now = start_ms }

abbrev pub set : ManualClock → ℤ → ManualClock
set c ms = record { now = ms }

abbrev pub now_ms : ManualClock → ℤ
now_ms c = c.now

-- The time returned, and the clock after the call.
unfoldable pub advance : ManualClock → ℤ → ℤ × ManualClock
unfolding ◌+ℤ◌ wrap
advance c delta_ms = (sat_add c.now delta_ms, record { now = wrap (c.now +ℤ delta_ms) })

saturate-wrap :
    (z : ℤ) → neg_part z ≤ 2 ^ 64 → pos_part z < 2 ^ 64 - 1 → (saturate z ≡ wrap z) ↔ IsI64 z
unfolding wrap ◌+ℤ◌ ◌-ℤ◌
saturate-wrap z low high = (λ e. ground arith, λ h. ground arith)

parts_low : (a b : ℤ) → IsI64 a → IsI64 b → neg_part (a +ℤ b) ≤ 2 ^ 64
unfolding ◌+ℤ◌
parts_low a b h k = ground arith

parts_high : (a b : ℤ) → IsI64 a → IsI64 b → pos_part (a +ℤ b) < 2 ^ 64 - 1
unfolding ◌+ℤ◌
parts_high a b h k = ground arith

-- `advance` returns the time that the clock then shows exactly when the sum is an `i64` value: past
-- either end it returns the end, but the clock has wrapped around.
pub advance_returns_now :
    (c : ManualClock) (delta_ms : ℤ)
    → IsI64 c.now
    → IsI64 delta_ms
    → let (returned, c') = advance c delta_ms in (returned ≡ now_ms c') ↔ IsI64 (c.now +ℤ delta_ms)
unfolding advance sat_add
advance_returns_now c delta_ms h k =
    saturate-wrap (c.now +ℤ delta_ms) (parts_low c.now delta_ms h k) (parts_high c.now delta_ms h k)
