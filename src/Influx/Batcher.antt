-- ===== src/Influx/Batcher.antt =====
-- tflo-sink-influx/src/lib.rs: `Batcher`. The mutex is released before a write is awaited, so a call is
-- what it does under the lock, and then, if it took the buffer, the write and what follows it. Times are
-- nanoseconds of a monotonic clock, and `elapsed` stops at 0.
pub mod Calls
pub mod Conserve
use tflo.Prelude.{
  ℕ, ◌+◌, ◌-◌, ◌*◌, ◌%◌, ◌^◌, String, Bool, true, false, ◌||◌, Option, none, some, List, [], ◌∷◌,
  ◌++◌, min, if◌then◌else◌, ltb, leb, length, is_some_and, Result, ok, err,
}
use tflo.Prelude.Decimal.{enclosed}
use tflo.Prelude.Bytes.{Bytes}
use tflo.Influx.Line.{newline}

abbrev pub max_buffer_bytes_limit : ℕ
max_buffer_bytes_limit = 16 * 1024 * 1024

pub record Batcher : Type 0 where
  pub flush_at_bytes : ℕ
  pub max_buffer_bytes : ℕ
  pub max_age : Option ℕ
  pub buffered : Bytes
  pub stamp : Option ℕ
  pub flushes_total : ℕ
  pub dropped_total : ℕ

-- What a call has done when it releases the lock: it returns, or it goes on to write the bytes it took.
pub data Locked : Type 0 where
  returned : Result (Unit {0}) String → Locked
  taken : Bytes → Locked

-- `AtomicU64::fetch_add`
abbrev pub fetch_add : ℕ → ℕ → ℕ
fetch_add total n = (total + n) % 2 ^ 64

abbrev pub with_max_age : ℕ → ℕ → Option ℕ → Batcher
with_max_age flush_at_bytes max_buffer_bytes max_age = record {
  flush_at_bytes = min flush_at_bytes max_buffer_bytes_limit;
  max_buffer_bytes = min max_buffer_bytes max_buffer_bytes_limit;
  max_age = max_age;
  buffered = [];
  stamp = none;
  flushes_total = 0;
  dropped_total = 0;
}

abbrev pub new : ℕ → ℕ → Batcher
new flush_at_bytes max_buffer_bytes = with_max_age flush_at_bytes max_buffer_bytes none

abbrev pub exceeded : ℕ → String
exceeded max = enclosed "Batcher: push would exceed max_buffer_bytes (" max " bytes)"

-- The buffer is taken out.
abbrev pub take : Batcher → Locked × Batcher
take b = (taken b.buffered, record b { buffered = []; stamp = none })

-- The stamp is set on the first push into an empty buffer.
abbrev pub stamped : Bytes → Option ℕ → ℕ → Option ℕ
stamped [] stamp now = some now
stamped (c ∷ buffered) stamp now = stamp

-- `stamp.elapsed() >= max` at a time, where there are both.
abbrev pub is_old : Option ℕ → Option ℕ → ℕ → Bool
is_old (some max) (some stamp) later = leb max (later - stamp)
is_old none stamp later = false
is_old (some max) none later = false

-- The part of `push` under the lock; the clock is read for the stamp and for the age.
unfoldable pub push_locked : Batcher → Bytes → ℕ → ℕ → Locked × Batcher
push_locked b line now later =
    let added = length line + 1 in
    if ltb b.max_buffer_bytes (length b.buffered + added)
    then (
      returned (err (exceeded b.max_buffer_bytes)),
      record b { dropped_total = fetch_add b.dropped_total added },
    )
    else let b' = record b {
      buffered = b.buffered ++ (line ++ (newline ∷ []));
      stamp = stamped b.buffered b.stamp now;
    } in
      if leb b.flush_at_bytes (length b'.buffered) || is_old b.max_age b'.stamp later
      then take b'
      else (returned (ok tt), b')

unfoldable pub flush_locked : Batcher → Locked × Batcher
flush_locked b = elim b.buffered [ [] ↦ (returned (ok tt), b) | c ∷ buffered ↦ take b ]

unfoldable pub tick_locked : Batcher → ℕ → Locked × Batcher
tick_locked b later = elim b.max_age [
  | none ↦ (returned (ok tt), b)
  | some max ↦ elim b.buffered [
    | [] ↦ (returned (ok tt), b)
    | c ∷ buffered ↦
        if is_some_and b.stamp (λ stamp. leb max (later - stamp))
        then take b
        else (returned (ok tt), b)
  ]
]

-- What follows the write.
abbrev pub written : Result (Unit {0}) String → Batcher → Result (Unit {0}) String × Batcher
written (ok u) b = (ok u, record b { flushes_total = fetch_add b.flushes_total 1 })
written (err e) b = (err e, b)

module _ {W : Type 0} (write : Bytes → W → Result (Unit {0}) String × W) where
  -- The rest of a call where no other comes between.
  abbrev pub settle : Locked × Batcher → W → Result (Unit {0}) String × (Batcher × W)
  settle (returned r, b) w = (r, (b, w))
  settle (taken body, b) w =
      let (answer, w') = write body w in let (r, b') = written answer b in (r, (b', w'))

  abbrev pub push : Batcher → Bytes → ℕ → ℕ → W → Result (Unit {0}) String × (Batcher × W)
  push b line now later w = settle (push_locked b line now later) w

  abbrev pub flush : Batcher → W → Result (Unit {0}) String × (Batcher × W)
  flush b w = settle (flush_locked b) w

  abbrev pub tick : Batcher → ℕ → W → Result (Unit {0}) String × (Batcher × W)
  tick b later w = settle (tick_locked b later) w

-- `Drop`, with the lock or without it.
abbrev pub drop : Bool → Batcher → Batcher
drop true b = elim b.buffered [
  | [] ↦ b
  | c ∷ buffered ↦ record b { dropped_total = fetch_add b.dropped_total (length b.buffered) }
]
drop false b = b
