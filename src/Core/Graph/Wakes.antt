-- ===== src/Core/Graph/Wakes.antt =====
-- tflo-core/src/compile/eval/mod.rs: what it is to fire timers one after the other, as a relation, and that the
-- loop of `fire_due_timers` does it.
use tflo.Prelude.{
  ℕ, ◌≡◌, ◌≢◌, ◌==◌, inl, inr, refl, ap, Option, none, some, List, [], ◌∷◌, ◌++◌, All, Bool-cases,
  arith,
}
use tflo.Prelude.Int.{ℤ}
use tflo.Core.Timer.{TimerService, TimerEntry}
use tflo.Core.Graph.{
  TimerCtx, NodeState, stateless, scan_state, scan2_state, plugin, Node, Values, CompiledGraph,
  emit, wake_state, put_back, in_place, wake_node, stored, fire_all,
}

module _ {ℓ} {Op X : Type ℓ} where
  -- The first node with the id, among these.
  pub record First (id : ℕ) (nodes before : List (Node Op X)) (n : Node Op X)
      (after : List (Node Op X)) : Type ℓ where
    pub split : nodes ≡ before ++ (n ∷ after)
    pub none_before : All (λ m. m.id ≢ id) before
    pub here : n.id ≡ id

  -- No operator is there to wake: no node has the id, or the first that has it is no plugin.
  pub data Asleep (id : ℕ) (nodes : List (Node Op X)) : Type ℓ where
    no_node : All (λ m. m.id ≢ id) nodes → Asleep id nodes
    no_plugin :
        {before after : List (Node Op X)} {n : Node Op X}
        → First id nodes before n after
        → ((op : Op) → n.state ≢ plugin op)
        → Asleep id nodes

module _ {ℓ} {Op V Store O : Type ℓ} where
  -- What an operator answers to the timer of an entry.
  abbrev pub answer : Values Op V Store O → Op → TimerEntry → TimerService → V × (Op × TimerCtx)
  answer vals op e service =
      vals.on_timer op e.fire_ts
        (record { service = service; current_node_id = e.node_id; current_ts = e.fire_ts })

module _ {ℓ} {Op X V Store O : Type ℓ} where
  -- The entries are fired in turn. Each wakes the operator of the first node with its id, with the timers
  -- as they are then; its answer is stored under the id, and what the store then has of the outputs is
  -- emitted with the entry's time.
  pub data Wakes (vals : Values Op V Store O)
      : List TimerEntry
        → CompiledGraph Op X Store
        → TimerService
        → List (ℤ × O) × (CompiledGraph Op X Store × TimerService)
        → Type ℓ where
    done :
        {graph : CompiledGraph Op X Store} {service : TimerService}
        → Wakes vals [] graph service ([], (graph, service))
    sleeps :
        {e : TimerEntry} {due : List TimerEntry} {graph : CompiledGraph Op X Store}
        {service : TimerService} {r : List (ℤ × O) × (CompiledGraph Op X Store × TimerService)}
        → Asleep e.node_id graph.nodes
        → Wakes vals due graph service r
        → Wakes vals (e ∷ due) graph service r
    wakes :
        {e : TimerEntry} {due : List TimerEntry} {graph : CompiledGraph Op X Store}
        {service : TimerService} {before after : List (Node Op X)} {n : Node Op X} (op : Op)
        {emitted : List (ℤ × O)} {end : CompiledGraph Op X Store × TimerService}
        → First e.node_id graph.nodes before n after
        → n.state ≡ plugin op
        → Wakes vals due
            (record graph {
              nodes =
                  before ++ (record n { state = plugin (answer vals op e service).1.0 } ∷ after);
              store = vals.store_value graph.store e.node_id (answer vals op e service).0;
            })
            (answer vals op e service).1.1.service
            (emitted, end)
        → Wakes vals (e ∷ due) graph service (
          emit e.fire_ts
              (vals.extract
                (vals.store_value graph.store e.node_id (answer vals op e service).0)
                graph.output_ids)
              emitted,
          end,
        )

  -- What waking the operator of an entry gives, over these nodes.
  data Outcome (vals : Values Op V Store O) (e : TimerEntry) (service : TimerService)
      (nodes : List (Node Op X)) : Option (V × (List (Node Op X) × TimerService)) → Type ℓ where
    asleep : Asleep e.node_id nodes → Outcome vals e service nodes none
    woken :
        {before after : List (Node Op X)} {n : Node Op X} (op : Op)
        → First e.node_id nodes before n after
        → n.state ≡ plugin op
        → Outcome vals e service nodes (
            some (
              (answer vals op e service).0,
              (
                before ++ (record n { state = plugin (answer vals op e service).1.0 } ∷ after),
                (answer vals op e service).1.1.service,
              ),
            ))

  module _ (vals : Values Op V Store O) where
    head-First :
        (n : Node Op X) (nodes : List (Node Op X)) (id : ℕ)
        → n.id ≡ id
        → First id (n ∷ nodes) [] n nodes
    head-First n nodes id e = record { split = refl; none_before = tt; here = e }

    tail-First :
        (n m : Node Op X) (nodes before after : List (Node Op X)) (id : ℕ)
        → n.id ≢ id
        → First id nodes before m after
        → First id (n ∷ nodes) (n ∷ before) m after
    tail-First n m nodes before after id ne f = record {
      split = ap (λ l. n ∷ l) f.split;
      none_before = (ne, f.none_before);
      here = f.here;
    }

    in_place-Outcome :
        (e : TimerEntry) (service : TimerService) (n : Node Op X) (nodes : List (Node Op X))
        (st : NodeState Op X)
        → n.id ≡ e.node_id
        → n.state ≡ st
        → Outcome vals e service
            (n ∷ nodes)
            (in_place vals nodes (wake_state vals e service n.id st))
    in_place-Outcome e service n nodes stateless i h =
        asleep (no_plugin (head-First n nodes e.node_id i) (λ op p. absurd (cc)))
    in_place-Outcome e service n nodes (scan_state x) i h =
        asleep (no_plugin (head-First n nodes e.node_id i) (λ op p. absurd (cc)))
    in_place-Outcome e service n nodes (scan2_state x) i h =
        asleep (no_plugin (head-First n nodes e.node_id i) (λ op p. absurd (cc)))
    in_place-Outcome e service n nodes (plugin op) i h =
        woken {before = []} {after = nodes} {n = n} op (head-First n nodes e.node_id i) h

    put_back-Outcome :
        (e : TimerEntry) (service : TimerService) (n : Node Op X) (nodes : List (Node Op X))
        (o : Option (V × (List (Node Op X) × TimerService)))
        → n.id ≢ e.node_id
        → Outcome vals e service nodes o
        → Outcome vals e service (n ∷ nodes) (put_back vals n o)
    put_back-Outcome e service n nodes _ ne (asleep (no_node a)) = asleep (no_node (ne, a))
    put_back-Outcome e service n nodes _ ne (asleep (no_plugin {before} {after} {n = m} f st)) =
        asleep (no_plugin (tail-First n m nodes before after e.node_id ne f) st)
    put_back-Outcome e service n nodes _ ne (woken {before} {after} {n = m} op f st) =
        woken {before = n ∷ before} {after = after} {n = m} op
          (tail-First n m nodes before after e.node_id ne f) st

    wake_node-Outcome :
        (e : TimerEntry) (service : TimerService) (nodes : List (Node Op X))
        → Outcome vals e service nodes (wake_node vals e service nodes)
    unfolding wake_node
    wake_node-Outcome e service [] = asleep (no_node tt)
    wake_node-Outcome e service (n ∷ nodes) = elim (Bool-cases (n.id == e.node_id)) [
      | inl y ↦ rw y (in_place-Outcome e service n nodes n.state (ground arith) refl)
      | inr z ↦ rw z (
          put_back-Outcome e service n nodes _ (λ p. absurd (ground arith))
            (wake_node-Outcome e service nodes))
    ]

    stored-Wakes :
        (e : TimerEntry) (due : List TimerEntry) (graph : CompiledGraph Op X Store)
        (service : TimerService) (o : Option (V × (List (Node Op X) × TimerService)))
        (rest : CompiledGraph Op X Store
          → TimerService
          → List (ℤ × O) × (CompiledGraph Op X Store × TimerService))
        → ((g : CompiledGraph Op X Store) (s : TimerService) → Wakes vals due g s (rest g s))
        → Outcome vals e service graph.nodes o
        → Wakes vals (e ∷ due) graph service (stored vals e graph service o rest)
    stored-Wakes e due graph service _ rest h (asleep a) = sleeps a (h graph service)
    stored-Wakes e due graph service _ rest h (woken op f st) = wakes op f st (h _ _)

    pub fire_all-Wakes :
        (due : List TimerEntry) (graph : CompiledGraph Op X Store) (service : TimerService)
        → Wakes vals due graph service (fire_all vals due graph service)
    unfolding fire_all
    fire_all-Wakes [] graph service = done
    fire_all-Wakes (e ∷ due) graph service =
        stored-Wakes e due graph service _ (λ g s. fire_all vals due g s)
          (λ g s. fire_all-Wakes due g s) (wake_node-Outcome e service graph.nodes)
