-- ===== src/Core/Graph/Due.antt =====
-- tflo-core/src/compile/eval/mod.rs: which timers `fire_due_timers` takes, and in what order it emits.
use tflo.Prelude.{
  ℕ, zero, suc, ◌+◌, ◌<◌, ◌≡◌, sym, ◌∙◌, ap, Option, none, some, List, [], ◌∷◌, ◌++◌, length,
  retain, map, All, arith, Bool-cases, inl, inr,
}
use tflo.Prelude.Int.{ℤ, ◌≤ℤ◌, ◌<ℤ◌, ltb_ℤ}
use tflo.Core.Reorder.Order.{NotBehind, IsSortedFrom, IsSortedFrom-weaken}
use tflo.Core.Timer.{TimerService, TimerEntry, default, live, pop_from}
use tflo.Core.Timer.Fire.{
  From, IsFireOrdered, IsFireOrdered-weaken, Popped, pop_from-Popped, run, run-IsFireOrdered, Call,
}
use tflo.Core.Graph.Wakes.{Wakes, fire_all-Wakes}
use tflo.Core.Graph.{
  Node, Values, CompiledGraph, emit, due_turn, due_from, due_timers, wake_node, stored, fire_all,
  fire_due_timers,
}

-- Of the heap `before`, `due` are the live entries up to `w`, in order, and `left` the rest.
pub record Taken (w : ℤ) (before : List TimerEntry) (r : List TimerEntry × List TimerEntry)
    : Type 0 where
  pub all_live : retain live before ≡ r.0 ++ retain live r.1
  pub due : All (λ e. e.fire_ts ≤ℤ w) r.0
  pub later : All (λ e. w <ℤ e.fire_ts) r.1
  pub ordered : IsFireOrdered none r.0

Shorter : List TimerEntry → Option TimerEntry × List TimerEntry → Type 0
Shorter es (none, left) = Unit
Shorter es (some e, left) = length left < length es

Shorter-cons :
    (x : TimerEntry) (es : List TimerEntry) (r : Option TimerEntry × List TimerEntry)
    → Shorter es r
    → Shorter (x ∷ es) r
unfolding Shorter
Shorter-cons x es (none, left) h = tt
Shorter-cons x es (some e, left) h = omega arith

pop_from-Shorter : (es : List TimerEntry) (w : ℤ) → Shorter es (pop_from es w)
unfolding pop_from Shorter
pop_from-Shorter [] w = tt
pop_from-Shorter (e ∷ es) w = elim (Bool-cases (ltb_ℤ w e.fire_ts)) [
  | inl early ↦ rw early tt
  | inr now ↦ elim (Bool-cases (live e)) [
    | inl alive ↦ rw (now, alive) (omega arith)
    | inr gone ↦ rw (now, gone) (Shorter-cons e es (pop_from es w) (pop_from-Shorter es w))
  ]
]

FromAny : Option TimerEntry → Option TimerEntry × List TimerEntry → Type 0
FromAny lo (none, left) = Unit
FromAny lo (some e, left) = From lo e

pop_from-FromAny :
    (lo : Option TimerEntry) (es : List TimerEntry) (w : ℤ)
    → IsFireOrdered lo es
    → FromAny lo (pop_from es w)
unfolding pop_from FromAny
pop_from-FromAny lo [] w h = tt
pop_from-FromAny lo (e ∷ es) w h = elim (Bool-cases (ltb_ℤ w e.fire_ts)) [
  | inl early ↦ rw early tt
  | inr now ↦ elim (Bool-cases (live e)) [
    | inl alive ↦ rw (now, alive) h.0
    | inr gone ↦ rw (now, gone) (pop_from-FromAny lo es w (IsFireOrdered-weaken lo e es h.0 h.1))
  ]
]

-- In order, and from `lo` on.
due_from-Taken :
    (fuel : ℕ) (w : ℤ) (heap : List TimerEntry) (lo : Option TimerEntry)
    → length heap < fuel
    → IsFireOrdered lo heap
    → Taken w heap (due_from fuel w heap) × IsFireOrdered lo (due_from fuel w heap).0
unfolding due_from Shorter FromAny
due_from-Taken zero w heap lo enough h = absurd (omega arith)
due_from-Taken (suc fuel) w heap lo enough h =
    go (pop_from heap w) (pop_from-Popped lo heap w h) (pop_from-Shorter heap w)
      (pop_from-FromAny lo heap w h) (λ left e lt o. due_from-Taken fuel w left (some e) lt o)
  where
    go :
        (r : Option TimerEntry × List TimerEntry)
        → Popped w heap r
        → Shorter heap r
        → FromAny lo r
        → ((left : List TimerEntry) (e : TimerEntry)
            → length left < fuel
            → IsFireOrdered (some e) left
            → Taken w left (due_from fuel w left) × IsFireOrdered (some e) (due_from fuel w left).0)
        → Taken w heap (due_turn (λ left. due_from fuel w left) r)
          × IsFireOrdered lo (due_turn (λ left. due_from fuel w left) r).0
    go (none, left) p short from rec =
        (record { all_live = sym p.0; due = tt; later = p.1; ordered = tt }, tt)
    go (some e, left) p short from rec =
        let (t, o) = rec left e (omega arith) p.3 in
        (
          record {
            all_live = p.0 ∙ ap (λ es. e ∷ es) t.all_live;
            due = (p.2, t.due);
            later = t.later;
            ordered = (tt, o);
          },
          (from, o),
        )

-- The times of what is emitted go on from `lo`.
abbrev pub Emits {ℓ κ} : {O : Type ℓ} {S : Type κ} → Option ℤ → List (ℤ × O) × S → Type 0
Emits lo (emitted, s) = IsSortedFrom lo (map (λ p. p.0) emitted)

time_of : Option TimerEntry → Option ℤ
time_of none = none
time_of (some e) = some e.fire_ts

From-NotBehind :
    (lo : Option TimerEntry) (e : TimerEntry) → From lo e → NotBehind (time_of lo) e.fire_ts
unfolding time_of
From-NotBehind none e h = tt
From-NotBehind (some l) e h = ground arith

emit-Emits {ℓ} :
    {O : Type ℓ} (ts : ℤ) (o : Option O) (emitted : List (ℤ × O)) (lo : Option ℤ)
    → NotBehind lo ts
    → IsSortedFrom (some ts) (map (λ p. p.0) emitted)
    → IsSortedFrom lo (map (λ p. p.0) (emit ts o emitted))
emit-Emits ts none emitted lo n h = IsSortedFrom-weaken lo ts _ n h
emit-Emits ts (some value) emitted lo n h = (n, h)

module _ {ℓ} {Op X V Store O : Type ℓ} (vals : Values Op V Store O) where
  stored-Emits :
      (e : TimerEntry) (graph : CompiledGraph Op X Store) (service : TimerService)
      (o : Option (V × (List (Node Op X) × TimerService)))
      (rest : CompiledGraph Op X Store
        → TimerService
        → List (ℤ × O) × (CompiledGraph Op X Store × TimerService))
      (lo : Option ℤ)
      → NotBehind lo e.fire_ts
      → ((g : CompiledGraph Op X Store) (s : TimerService) → Emits (some e.fire_ts) (rest g s))
      → Emits lo (stored vals e graph service o rest)
  stored-Emits e graph service none rest lo n later =
      IsSortedFrom-weaken lo e.fire_ts _ n (later graph service)
  stored-Emits e graph service (some (output, (nodes, service'))) rest lo n later =
      let store = vals.store_value graph.store e.node_id output in
      let graph' = record graph { nodes = nodes; store = store } in
      emit-Emits e.fire_ts (vals.extract store graph.output_ids) (rest graph' service').0 lo n
        (later graph' service')

  fire_all-Emits :
      (due : List TimerEntry) (lo : Option TimerEntry) (graph : CompiledGraph Op X Store)
      (service : TimerService)
      → IsFireOrdered lo due
      → Emits (time_of lo) (fire_all vals due graph service)
  unfolding fire_all time_of
  fire_all-Emits [] lo graph service h = tt
  fire_all-Emits (e ∷ due) lo graph service h =
      stored-Emits e graph service (wake_node vals e service graph.nodes) _ (time_of lo)
        (From-NotBehind lo e h.0) (λ g s. fire_all-Emits due (some e) g s h.1)

  -- What `fire_due_timers` takes out of the timers, `due` and what is left, and what it then does.
  pub record FiresDue (service : TimerService) (w : ℤ) (graph : CompiledGraph Op X Store)
      (r : List (ℤ × O) × (CompiledGraph Op X Store × TimerService)) : Type ℓ where
    pub due : List TimerEntry
    pub left : List TimerEntry
    pub taken : Taken w service.heap (due, left)
    pub fired : Wakes vals due graph (record service { heap = left }) r
    pub ascending : Emits none r

  -- After any calls on new timers, `fire_due_timers` takes out of the heap exactly the timers that are
  -- not cancelled and due at the watermark; then, with those gone, it fires them one after the other in the
  -- order of firing, each waking the operator of the first node with its id with the timers as they are
  -- then, storing its answer and emitting what the outputs then are; and it emits in ascending time,
  -- whatever the operators answer and register.
  pub fire_due_timers_lem :
      (vector_of : List TimerEntry → List TimerEntry) (cs : List Call) (w : ℤ)
      (graph : CompiledGraph Op X Store)
      → let service = run vector_of default cs in
        FiresDue service w graph (fire_due_timers vals graph service w)
  unfolding due_timers fire_due_timers time_of
  fire_due_timers_lem vector_of cs w graph =
      let service = run vector_of default cs in
      let ordered = run-IsFireOrdered vector_of default cs tt in
      let t = due_from-Taken (length service.heap + 1) w service.heap none (omega arith) ordered in
      let (due, left) = due_timers w service.heap in
      record {
        due = due;
        left = left;
        taken = t.0;
        fired = fire_all-Wakes vals due graph (record service { heap = left });
        ascending = fire_all-Emits due none graph _ t.1;
      }
