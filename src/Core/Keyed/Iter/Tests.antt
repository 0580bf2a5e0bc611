-- ===== src/Core/Keyed/Iter/Tests.antt =====
-- Runs of `TFloKeyedIter` over a graph that sums the records of a key and emits a late timer's sum. The
-- key of a record is its remainder by 2, and the hash map is walked from its last key to its first.
use mathlib.Core.List.{reverse, reverse_perm}
use tflo.Prelude.{
  ℕ, ◌+◌, ◌%◌, ◌≡◌, ◌↔◌, refl, true, ◌==◌, Option, none, some, List, [], ◌∷◌, map, arith,
  if◌then◌else◌, ok, err,
}
use tflo.Prelude.Int.{ℤ, pos, ◌-ℤ◌}
use tflo.Prelude.I64.{sat_sub}
use tflo.Core.Timer.{TimerService, TimerEntry}
use tflo.Core.Timer
use tflo.Core.Keyed.{
  buffer, StepResult, ready, failed, invalid_input, Graph, PipelineItem, new, step, flush,
}
use tflo.Core.Keyed
use tflo.Core.Keyed.Iter.{Yield, make, collect, routed, at_end, next_from, next, compute}
use tflo.Core.Keyed.Iter.Interleaved.{of_key, alone, records_of}
use tflo.Core.Keyed.Iter.Yielded.{keys_are_isolated}

abbrev fired : Option TimerEntry × TimerService → ℕ → List (ℤ × ℕ) × (ℕ × TimerService)
fired (none, timers) sum = ([], (sum, timers))
fired (some e, timers) sum = ((e.fire_ts, sum) ∷ [], (sum, timers))

-- A record 13 fails, and a record 5 sets a timer.
abbrev sums : Graph ℕ ℕ ℕ ℕ
sums = record {
  fire_due_timers = λ sum timers ts. fired (Timer.pop_due timers ts) sum;
  step_with_context_and_timers = λ sum rec ts ctx timers. (
    if rec == 13
        then failed (invalid_input "thirteen")
        else ready (record { ctx = ctx; value = sum + rec }),
    (sum + rec, if rec == 5 then Timer.register timers (pos 100) 0 else timers),
  );
}

abbrev parity : ℕ → ℕ
parity n = n % 2

same_lem : (a b : ℕ) → ((a == b) ≡ true) ↔ (a ≡ b)
same_lem a b = (λ e. ground arith, λ e. ground arith)

abbrev records : List ℕ
records = 5 ∷ 2 ∷ 13 ∷ 4 ∷ []

abbrev item : ℕ → ℕ → ℕ → Yield ℕ ℕ
item ts key value = ok (record { ctx = record { ts = pos ts; key = key }; value = value })

-- All records wait until the end, and each key is then flushed, the last first.
flushed_run :
    collect sums
      (λ a b. a == b)
      reverse
      (λ n. pos n)
      parity
      (new 0 (buffer (pos 50)))
      9
      (make sums (λ a b. a == b) reverse (λ n. pos n) parity (new 0 (buffer (pos 50))) records)
    ≡ some (item 2 0 2 ∷ item 4 0 6 ∷ err (compute (invalid_input "thirteen")) ∷ [])
unfolding collect next next_from routed at_end step Keyed.step_by Keyed.drain_from Keyed.run_one
    flush Keyed.flush_from Keyed.flush_timers sat_sub ◌-ℤ◌ Timer.pop_from
flushed_run = refl

keys_are_isolated_example :
    (fuel : ℕ) × (tagged : List (ℕ × Yield ℕ ℕ)) × (collect sums
        (λ a b. a == b)
        reverse
        (λ n. pos n)
        parity
        (new 0 (buffer (pos 50)))
        fuel
        (make sums (λ a b. a == b) reverse (λ n. pos n) parity (new 0 (buffer (pos 50))) records)
      ≡ some (map (λ x. x.1) tagged))
    × ((k : ℕ)
        → of_key (λ a b. a == b) k tagged
          ≡ alone sums
              (λ n. pos n)
              k
              (new 0 (buffer (pos 50)))
              (records_of (λ a b. a == b) parity k records))
keys_are_isolated_example =
    keys_are_isolated sums (λ a b. a == b) same_lem reverse (λ ks. reverse_perm ks) (λ n. pos n)
      parity 0 (buffer (pos 50)) records
