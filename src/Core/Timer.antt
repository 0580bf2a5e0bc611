-- ===== src/Core/Timer.antt =====
-- tflo-core/src/timer.rs: the event-time timers of one key. The heap is held in the order in which it
-- pops; the order of the heap's vector (`into_vec`, `iter`), which the standard library leaves open, is
-- the parameter `vector_of`.
pub mod Fire
pub mod Restore
use Prim.Native.Nat.{compare, Ordering}
use tflo.Prelude.{
  ℕ, Bool, true, false, Option, none, some, List, [], ◌∷◌, if◌then◌else◌, ◌==◌, not, ◌&&◌, retain,
}
use tflo.Prelude.Int.{ℤ, leb_ℤ, ltb_ℤ, eqb_ℤ}
use tflo.Prelude.I64.{sat_add_u64}
use tflo.Prelude.Heap.{compare_ℤ, then_cmp, push_heap, push_all}

-- `node_id` is the number in `NodeId`.
pub record TimerEntry : Type 0 where
  pub fire_ts : ℤ
  pub node_id : ℕ
  pub seq : ℕ
  pub deleted : Bool

abbrev pub cmp : TimerEntry → TimerEntry → Ordering
cmp a b =
    then_cmp (then_cmp (compare_ℤ a.fire_ts b.fire_ts) (compare a.seq b.seq))
      (compare a.node_id b.node_id)

pub record TimerService : Type 0 where
  pub heap : List TimerEntry
  pub next_seq : ℕ

pub record TimerServiceSnapshot : Type 0 where
  pub entries : List TimerEntry
  pub next_seq : ℕ

abbrev pub default : TimerService
default = record { heap = []; next_seq = 0 }

abbrev pub register : TimerService → ℤ → ℕ → TimerService
register s fire_ts node_id = record {
  heap =
      push_heap cmp
        (record { fire_ts = fire_ts; node_id = node_id; seq = s.next_seq; deleted = false }) s.heap;
  next_seq = sat_add_u64 s.next_seq 1;
}

-- The test of the loop of `delete`.
abbrev pub hits : ℤ → ℕ → TimerEntry → Bool
hits fire_ts node_id e = not e.deleted && (eqb_ℤ e.fire_ts fire_ts && e.node_id == node_id)

-- The loop of `delete`: the first live entry of the node at that time gets the tombstone.
unfoldable pub tombstone : ℤ → ℕ → List TimerEntry → List TimerEntry
tombstone fire_ts node_id [] = []
tombstone fire_ts node_id (e ∷ es) =
    let rest = tombstone fire_ts node_id es in
    if hits fire_ts node_id e then record e { deleted = true } ∷ es else e ∷ rest

abbrev pub delete : (List TimerEntry → List TimerEntry) → TimerService → ℤ → ℕ → TimerService
delete vector_of s fire_ts node_id = record s {
  heap = push_all cmp [] (tombstone fire_ts node_id (vector_of s.heap));
}

-- The loop of `pop_due` over the heap.
unfoldable pub pop_from : List TimerEntry → ℤ → Option TimerEntry × List TimerEntry
pop_from [] watermark = (none, [])
pop_from (e ∷ es) watermark =
    let rest = pop_from es watermark in
    if ltb_ℤ watermark e.fire_ts
    then (none, e ∷ es)
    else if not e.deleted
    then (some e, es)
    else rest

abbrev pub pop_due : TimerService → ℤ → Option TimerEntry × TimerService
pop_due s watermark = let (e, left) = pop_from s.heap watermark in (e, record s { heap = left })

abbrev pub live : TimerEntry → Bool
live e = not e.deleted

-- The entries pop in order, and the live ones are then sorted.
abbrev pub drain_all : TimerService → List TimerEntry × TimerService
drain_all s = (push_all cmp [] (retain live s.heap), record s { heap = [] })

-- `all` over the entries.
abbrev pub is_empty : TimerService → Bool
is_empty s = elim (retain live s.heap) [ [] ↦ true | _ ∷ _ ↦ false ]

abbrev pub snapshot : (List TimerEntry → List TimerEntry) → TimerService → TimerServiceSnapshot
snapshot vector_of s = record {
  entries = push_all cmp [] (retain live (vector_of s.heap));
  next_seq = s.next_seq;
}

abbrev pub restore : TimerService → TimerServiceSnapshot → TimerService
restore s snap = record { heap = push_all cmp [] snap.entries; next_seq = snap.next_seq }
