-- ===== src/Core/Reorder.antt =====
-- tflo-core/src/reorder.rs: the event-time reorder buffer. A method that mutates `self` returns the
-- new buffer, beside the events that it releases.
pub mod Calls
pub mod Order
pub mod Conserve
pub mod Lateness
use Prim.Native.Nat.{compare, Ordering}
use tflo.Prelude.{
  ℕ, ◌*◌, Bool, true, false, Option, none, some, List, [], ◌∷◌, ◌++◌, map, if◌then◌else◌,
  is_some_and, head?,
}
use tflo.Prelude.Int.{ℤ, pos, ltb_ℤ, leb_ℤ, max_ℤ, min_ℤ}
use tflo.Prelude.I64.{sat_add, sat_sub, sat_add_u64}
use tflo.Prelude.Heap.{compare_ℤ, then_cmp, push_heap}

-- 24 hours.
abbrev pub max_lateness : ℤ
max_lateness = pos (24 * 60 * 60 * 1000)

module _ {ℓ} where
  pub record PendingEntry (E : Type ℓ) : Type ℓ where
    pub ts : ℤ
    pub seq : ℕ
    pub event : E

  -- `Ord::cmp`: by time stamp, ties by arrival.
  abbrev pub cmp : {E : Type ℓ} → PendingEntry E → PendingEntry E → Ordering
  cmp a b = then_cmp (compare_ℤ a.ts b.ts) (compare a.seq b.seq)

  -- `last_ts` is the released frontier; `pending` is the heap in the order of release.
  pub record ReorderBuffer (E : Type ℓ) : Type ℓ where
    pub pending : List (PendingEntry E)
    pub pending_seq : ℕ
    pub last_ts : Option ℤ
    pub max_ts_seen : Option ℤ
    pub max_lateness_ms : ℤ
    pub late : List (ℤ × E)

-- `max_ts_seen.map_or(ts, |m| m.max(ts))`
abbrev pub raise : Option ℤ → ℤ → ℤ
raise none ts = ts
raise (some m) ts = max_ℤ m ts

module _ {ℓ} {E : Type ℓ} where
  -- `new`, with the argument clamped to [0, 24 h].
  unfoldable pub new : ℤ → ReorderBuffer E
  new lateness = record {
    pending = [];
    pending_seq = 0;
    last_ts = none;
    max_ts_seen = none;
    max_lateness_ms = max_ℤ (pos 0) (min_ℤ lateness max_lateness);
    late = [];
  }

  -- The loop of `drain_until` over the heap: what is left, the frontier, and what is released.
  unfoldable pub drain_from :
      ℤ → List (PendingEntry E) → Option ℤ → List (PendingEntry E) × Option ℤ × List (ℤ × E)
  drain_from watermark [] last = ([], last, [])
  drain_from watermark (e ∷ es) last =
      let (left, last', released) = drain_from watermark es (some e.ts) in
      if leb_ℤ e.ts watermark then (left, last', (e.ts, e.event) ∷ released) else (e ∷ es, last, [])

  unfoldable pub drain_until : ReorderBuffer E → ℤ → ReorderBuffer E × List (ℤ × E)
  drain_until b watermark =
      let (left, last, released) = drain_from watermark b.pending b.last_ts in
      (record b { pending = left; last_ts = last }, released)

  -- The buffer with one more event in the heap.
  unfoldable pub enqueue : ReorderBuffer E → ℤ → E → ReorderBuffer E
  enqueue b ts event = record b {
    pending = push_heap cmp (record { ts = ts; seq = b.pending_seq; event = event }) b.pending;
    pending_seq = sat_add_u64 b.pending_seq 1;
    max_ts_seen = some (raise b.max_ts_seen ts);
  }

  unfoldable pub step : ReorderBuffer E → ℤ → E → ReorderBuffer E × List (ℤ × E)
  unfolding drain_until enqueue
  step b ts event =
      if is_some_and b.last_ts (λ last. ltb_ℤ ts last)
      then (record b { late = b.late ++ ((ts, event) ∷ []) }, [])
      else drain_until (enqueue b ts event) (sat_sub (raise b.max_ts_seen ts) b.max_lateness_ms)

  pub advance_watermark : ReorderBuffer E → ℤ → ReorderBuffer E × List (ℤ × E)
  unfolding drain_until
  advance_watermark b now =
      drain_until (record b { max_ts_seen = some (raise b.max_ts_seen now) })
        (sat_sub now b.max_lateness_ms)

  -- The loop of `flush`.
  pub flush_from : List (PendingEntry E) → Option ℤ → Option ℤ × List (ℤ × E)
  flush_from [] last = (last, [])
  flush_from (e ∷ es) last =
      let (last', out) = flush_from es (some e.ts) in (last', (e.ts, e.event) ∷ out)

  pub flush : ReorderBuffer E → ReorderBuffer E × List (ℤ × E)
  flush b =
      let (last, out) = flush_from b.pending b.last_ts in
      (record b { pending = []; last_ts = last }, out)

  -- `Option::map` of the earliest entry's time stamp.
  pub next_release_ts : ReorderBuffer E → Option ℤ
  next_release_ts b = elim (head? b.pending) [ none ↦ none | some e ↦ some e.ts ]

  pub next_release_clock : ReorderBuffer E → Option ℤ
  next_release_clock b = elim (head? b.pending) [
    | none ↦ none
    | some e ↦ some (sat_add e.ts b.max_lateness_ms)
  ]

  pub is_empty : ReorderBuffer E → Bool
  is_empty b = elim b.pending [ [] ↦ true | _ ∷ _ ↦ false ]

  pub take_late : ReorderBuffer E → ReorderBuffer E × List (ℤ × E)
  take_late b = (record b { late = [] }, b.late)
