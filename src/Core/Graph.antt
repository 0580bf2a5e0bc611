-- ===== src/Core/Graph.antt =====
-- tflo-core/src/compile/eval/mod.rs, `fire_due_timers`: the timers that are due, and the plugin nodes
-- that they wake. The operator of a plugin node, the store of values and the outputs read from it are
-- the interface `Values`; the payloads of the other node states are of a type `X`.
pub mod Wakes
pub mod Due
mod Tests
use tflo.Prelude.{ℕ, zero, suc, ◌+◌, ◌==◌, Option, none, some, List, [], ◌∷◌, length, if◌then◌else◌}
use tflo.Prelude.Int.{ℤ}
use tflo.Core.Timer.{TimerService, TimerEntry, pop_from}

-- `TimerCtx`: what an operator sees of the timers.
pub record TimerCtx : Type 0 where
  pub service : TimerService
  pub current_node_id : ℕ
  pub current_ts : ℤ

pub data NodeState {ℓ} (Op X : Type ℓ) : Type ℓ where
  stateless : NodeState Op X
  scan_state scan2_state : X → NodeState Op X
  plugin : Op → NodeState Op X

-- A compiled node, less the operation that it has in a step.
pub record Node {ℓ} (Op X : Type ℓ) : Type ℓ where
  pub id : ℕ
  pub state : NodeState Op X

pub record Values {ℓ} (Op V Store O : Type ℓ) : Type ℓ where
  pub on_timer : Op → ℤ → TimerCtx → V × (Op × TimerCtx)
  pub store_value : Store → ℕ → V → Store
  pub extract : Store → List ℕ → Option O

-- The part of `CompiledGraph` that timers see.
pub record CompiledGraph {ℓ} (Op X Store : Type ℓ) : Type ℓ where
  pub nodes : List (Node Op X)
  pub output_ids : List ℕ
  pub store : Store

-- One turn of the loop over `pop_due`.
abbrev pub due_turn :
    (List TimerEntry → List TimerEntry × List TimerEntry)
    → Option TimerEntry × List TimerEntry
    → List TimerEntry × List TimerEntry
due_turn rest (none, left) = ([], left)
due_turn rest (some e, left) = let (due, left') = rest left in (e ∷ due, left')

-- The loop over `pop_due`: the due timers, and the heap that is left.
unfoldable pub due_from : ℕ → ℤ → List TimerEntry → List TimerEntry × List TimerEntry
due_from zero watermark heap = ([], heap)
due_from (suc fuel) watermark heap =
    due_turn (λ left. due_from fuel watermark left) (pop_from heap watermark)

-- Each turn takes an entry out of the heap, but the last.
unfoldable pub due_timers : ℤ → List TimerEntry → List TimerEntry × List TimerEntry
unfolding due_from
due_timers watermark heap = due_from (length heap + 1) watermark heap

abbrev pub emit {ℓ} : {O : Type ℓ} → ℤ → Option O → List (ℤ × O) → List (ℤ × O)
emit ts none emitted = emitted
emit ts (some value) emitted = (ts, value) ∷ emitted

module _ {ℓ} {Op X V Store O : Type ℓ} (vals : Values Op V Store O) where
  -- The match on the state of the node at the entry's id.
  abbrev pub wake_state :
      TimerEntry → TimerService → ℕ → NodeState Op X → Option (V × (Node Op X × TimerService))
  wake_state e service id stateless = none
  wake_state e service id (scan_state x) = none
  wake_state e service id (scan2_state x) = none
  wake_state e service id (plugin op) =
      let (output, (op', ctx)) =
        vals.on_timer op e.fire_ts
          (record { service = service; current_node_id = e.node_id; current_ts = e.fire_ts }) in
      some (output, (record { id = id; state = plugin op' }, ctx.service))

  abbrev pub put_back :
      Node Op X
      → Option (V × (List (Node Op X) × TimerService))
      → Option (V × (List (Node Op X) × TimerService))
  put_back n none = none
  put_back n (some (output, (nodes, service))) = some (output, (n ∷ nodes, service))

  abbrev pub in_place :
      List (Node Op X)
      → Option (V × (Node Op X × TimerService))
      → Option (V × (List (Node Op X) × TimerService))
  in_place rest none = none
  in_place rest (some (output, (n, service))) = some (output, (n ∷ rest, service))

  -- The first node with the entry's id, if it is a plugin.
  unfoldable pub wake_node :
      TimerEntry → TimerService → List (Node Op X) → Option (V × (List (Node Op X) × TimerService))
  wake_node e service [] = none
  wake_node e service (n ∷ nodes) =
      let rest = wake_node e service nodes in
      if n.id == e.node_id
      then in_place nodes (wake_state e service n.id n.state)
      else put_back n rest

  -- The rest of the loop over the due timers, from what the entry's node has put out.
  abbrev pub stored :
      TimerEntry
      → CompiledGraph Op X Store
      → TimerService
      → Option (V × (List (Node Op X) × TimerService))
      → (CompiledGraph Op X Store
          → TimerService
          → List (ℤ × O) × (CompiledGraph Op X Store × TimerService))
      → List (ℤ × O) × (CompiledGraph Op X Store × TimerService)
  stored e graph service none rest = rest graph service
  stored e graph service (some (output, (nodes, service'))) rest =
      let store = vals.store_value graph.store e.node_id output in
      let (emitted, s) = rest (record graph { nodes = nodes; store = store }) service' in
      (emit e.fire_ts (vals.extract store graph.output_ids) emitted, s)

  -- The loop over the due timers.
  unfoldable pub fire_all :
      List TimerEntry
      → CompiledGraph Op X Store
      → TimerService
      → List (ℤ × O) × (CompiledGraph Op X Store × TimerService)
  fire_all [] graph service = ([], (graph, service))
  fire_all (e ∷ due) graph service =
      stored e graph service (wake_node e service graph.nodes)
        (λ graph' service'. fire_all due graph' service')

  unfoldable pub fire_due_timers :
      CompiledGraph Op X Store
      → TimerService
      → ℤ
      → List (ℤ × O) × (CompiledGraph Op X Store × TimerService)
  unfolding due_timers fire_all
  fire_due_timers graph service watermark =
      let (due, left) = due_timers watermark service.heap in
      fire_all due graph (record service { heap = left })
