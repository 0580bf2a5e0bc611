-- ===== src/Core/Graph/Tests.antt =====
-- A run of the timers of a graph of two nodes, one of them a plugin that counts its timers and sets
-- the next one.
use tflo.Prelude.{ℕ, ◌+◌, some, List, [], ◌∷◌}
use tflo.Prelude.Int.{pos}
use tflo.Core.Timer.{TimerEntry, default, register}
use tflo.Core.Timer.Fire.{Call, set, cancel, run}
use tflo.Core.Graph.{stateless, plugin, Values, CompiledGraph, fire_due_timers}
use tflo.Core.Graph.Due.{FiresDue, fire_due_timers_lem}

abbrev counts : Values ℕ ℕ ℕ ℕ
counts = record {
  on_timer = λ n ts ctx.
      (n, (n + 1, record ctx { service = register ctx.service (pos 50) ctx.current_node_id }));
  store_value = λ store id v. v;
  extract = λ store ids. some store;
}

abbrev graph : CompiledGraph ℕ ℕ ℕ
graph = record {
  nodes = record { id = 1; state = stateless } ∷ record { id = 2; state = plugin 7 } ∷ [];
  output_ids = 2 ∷ [];
  store = 0;
}

abbrev same_order : List TimerEntry → List TimerEntry
same_order heap = heap

abbrev timer_calls : List Call
timer_calls =
    set (pos 30) 2 ∷ set (pos 10) 2 ∷ cancel (pos 10) 2 ∷ set (pos 20) 1 ∷ set (pos 25) 2 ∷ []

fire_due_timers_lem_example :
    let service = run same_order default timer_calls in
    FiresDue counts service (pos 30) graph (fire_due_timers counts graph service (pos 30))
fire_due_timers_lem_example = fire_due_timers_lem counts same_order timer_calls (pos 30) graph
