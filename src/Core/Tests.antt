-- ===== src/Core/Tests.antt =====
-- Runs of the reorder buffer, the timers, the clock, the router and the adapters on small inputs.
use mathlib.Core.List.{Perm}
use mathlib.Core.List.Perm
use tflo.Prelude.{◌<◌, ℕ, ◌≡◌, ◌↔◌, List, [], ◌∷◌, ◌++◌, none, some, arith, true, false, Bool, ◌==◌}
use tflo.Prelude.Int.{ℤ, pos, ◌-ℤ◌}
use tflo.Prelude.I64.{sat_sub, u64_max}
use tflo.Core.Shard.{LocalShard, assignment_epoch, simulate_rebalance, rebalance_advances}
use tflo.Core.Reorder.{ReorderBuffer, drain_until, step}
use tflo.Core.Reorder
use tflo.Core.Reorder.Calls
use tflo.Core.Reorder.Calls.{push, tick, end}
use tflo.Core.Reorder.Order.{IsSortedFrom, stamps, run_releases_in_order}
use tflo.Core.Reorder.Conserve.{held, run_conserves}
use tflo.Core.Reorder.Lateness.{run-OnTime}
use tflo.Core.Timer.{TimerEntry, TimerService, default, snapshot, restore, live}
use tflo.Core.Timer.Fire.{set, cancel, advance, Popped, IsFireOrdered}
use tflo.Core.Timer.Fire
use tflo.Core.Timer.Restore.{restore-snapshot}
use tflo.Core.Clock.{ManualClock}
use tflo.Core.Combinators.Dedupe.{dedupe_by_key}
use tflo.Core.Combinators.Dedupe.Remember as Dedupe
use tflo.Core.Combinators.Dedupe.Remember.{remembered, dedupe_by_key_lem}
use tflo.Core.Combinators.WindowJoin.Matches as WindowJoin
use tflo.Core.Combinators.Join.{keyed_window_join, In, Matches, keyed_window_join_lem}
use tflo.Prelude.{retain}

-- 3 comes before 1, and 9 closes the window of both.
abbrev out_of_order : List (Calls.Call ℕ)
out_of_order = push (pos 3) 30 ∷ push (pos 1) 10 ∷ push (pos 9) 90 ∷ []

run_releases_in_order_example :
    IsSortedFrom none (stamps (Calls.run (Reorder.new (pos 5)) out_of_order).1)
run_releases_in_order_example = run_releases_in_order (pos 5) out_of_order

run_conserves_example :
    let (b, out, late) = Calls.run (Reorder.new (pos 5)) out_of_order in
    Perm (out ++ (late ++ held b)) (Calls.pushed out_of_order)
run_conserves_example = run_conserves (pos 5) out_of_order

abbrev two_pending : ReorderBuffer ℕ
two_pending = record {
  pending =
      record { ts = pos 1; seq = 1; event = 10 } ∷ record { ts = pos 3; seq = 0; event = 30 } ∷ [];
  pending_seq = 2;
  last_ts = none;
  max_ts_seen = some (pos 3);
  max_lateness_ms = pos 5;
  late = [];
}

run-OnTime_example :
    let b = (Calls.run (Reorder.new (pos 5)) out_of_order).0 in (step b (pos 4) 40).0.late ≡ b.late
unfolding Reorder.new Reorder.step Reorder.drain_until Reorder.drain_from Reorder.enqueue sat_sub
    ◌-ℤ◌
run-OnTime_example = run-OnTime (pos 5) out_of_order (pos 4) 40 (tt, (tt, (tt, tt))) (omega arith)

abbrev same_order : List TimerEntry → List TimerEntry
same_order heap = heap

abbrev timer_calls : List Fire.Call
timer_calls = set (pos 30) 1 ∷ set (pos 10) 2 ∷ cancel (pos 10) 2 ∷ set (pos 20) 1 ∷ []

abbrev timers : TimerService
timers = record {
  heap =
      record { fire_ts = pos 10; node_id = 2; seq = 1; deleted = true }
      ∷ record { fire_ts = pos 30; node_id = 1; seq = 0; deleted = false }
      ∷ [];
  next_seq = 2;
}

restore-snapshot_example :
    let s' = restore default (snapshot same_order timers) in
    Perm s'.heap (retain live timers.heap)
    × IsFireOrdered none s'.heap
    × (s'.next_seq ≡ timers.next_seq)
restore-snapshot_example = restore-snapshot same_order (λ heap. Perm.refl heap) timers default

abbrev noon : ManualClock
noon = record { now = pos 1000 }

abbrev local_shard : LocalShard
local_shard = record { epoch = record { value = 3 } }

rebalance_advances_example :
    let (n, s') = simulate_rebalance local_shard in
    ((n ≡ assignment_epoch s') × (assignment_epoch local_shard < assignment_epoch s'))
    ↔ (assignment_epoch local_shard < u64_max)
rebalance_advances_example = rebalance_advances local_shard (omega arith)

abbrev instants : List ℤ
instants = pos 1000 ∷ pos 1100 ∷ pos 2100 ∷ []

abbrev itself : ℤ → ℤ
itself z = z

-- Orders and payments: an identifier and a time.
abbrev orders : List (ℕ × ℤ)
orders = (1, pos 0) ∷ (2, pos 1000) ∷ []

abbrev payments : List (ℕ × ℤ)
payments = (1, pos 2000) ∷ (2, pos 9000) ∷ []

abbrev key : ℕ × ℤ → ℕ
key p = p.0

abbrev time : ℕ × ℤ → ℤ
time p = p.1

abbrev same_number : ℕ → ℕ → Bool
same_number a b = a == b

keyed_window_join_lem_example :
    In
      ((1, pos 0), (1, pos 2000))
      (keyed_window_join key key time time same_number orders payments (pos 3000))
    ↔ (In (1, pos 0) orders
        × In (1, pos 2000) payments
        × Matches key key time time same_number (pos 3000) (1, pos 0) (1, pos 2000))
keyed_window_join_lem_example =
    keyed_window_join_lem key key time time same_number orders payments (pos 3000) (1, pos 0)
      (1, pos 2000)

-- The second comes within the window of the first.
abbrev quotes : List (ℕ × ℤ)
quotes = (1, pos 1000) ∷ (1, pos 1100) ∷ (1, pos 3000) ∷ []

dedupe_by_key_lem_example :
    Dedupe.collect key time same_number 4 (dedupe_by_key key time same_number quotes (pos 1000))
    ≡ remembered key time same_number (pos 1000) quotes (λ k. none)
dedupe_by_key_lem_example =
    dedupe_by_key_lem key time same_number 4 (pos 1000) quotes (omega arith) (omega arith)
      (omega arith)
      ((omega arith, omega arith), ((omega arith, omega arith), ((omega arith, omega arith), tt)))
      ((omega arith, (omega arith, tt)), ((omega arith, tt), (tt, tt)))
