-- ===== src/Core/Keyed/Tests.antt =====
-- Runs of the state of one key over a graph that sums the records, fails on 13, and reads its timers.
use tflo.Prelude.{ℕ, ◌+◌, ◌≡◌, refl, ◌==◌, Option, none, some, List, [], ◌∷◌, if◌then◌else◌}
use tflo.Prelude.Int.{ℤ, pos, ◌-ℤ◌}
use tflo.Prelude.I64.{sat_sub}
use tflo.Core.Reorder
use tflo.Core.Timer.{TimerService}
use tflo.Core.Timer
use tflo.Core.Keyed.{
  drop, buffer, StepResult, ready, warming_up, failed, invalid_input, Graph, KeyedGraphState, new,
  step, flush, advance_event_time_watermark,
}
use tflo.Core.Keyed
use tflo.Core.Keyed.Buffer.{buffer_of, counted, run_all, Runs, buffer_step_lem}
use tflo.Core.Keyed.Frontier.{
  Call, record_at, clock, finish, times_of, Forwards, last_ts_never_back,
}
use tflo.Core.Keyed.Frontier

abbrev fired : Option Timer.TimerEntry × TimerService → ℕ → List (ℤ × ℕ) × (ℕ × TimerService)
fired (none, timers) sum = ([], (sum, timers))
fired (some e, timers) sum = ((e.fire_ts, sum) ∷ [], (sum, timers))

abbrev summed : ℕ → ℕ → Keyed.Context ℕ → StepResult ℕ ℕ
summed sum rec ctx =
    if rec == 13
    then failed (invalid_input "thirteen")
    else if rec == 0
    then warming_up 1
    else ready (record { ctx = ctx; value = sum + rec })

abbrev sums : Graph ℕ ℕ ℕ ℕ
sums = record {
  fire_due_timers = λ sum timers ts. fired (Timer.pop_due timers ts) sum;
  step_with_context_and_timers = λ sum rec ts ctx timers.
      (summed sum rec ctx, (sum + rec, Timer.register timers (sat_sub ts (pos 1)) 0));
}

-- Records at 3 and 4 wait.
abbrev waiting : KeyedGraphState ℕ ℕ
waiting = record (new 0 (buffer (pos 5))) {
  pending =
      record { ts = pos 3; seq = 0; event = 30 } ∷ record { ts = pos 4; seq = 1; event = 13 } ∷ [];
  pending_seq = 2;
  max_ts_seen = some (pos 4);
}

buffer_step_lem_example :
    let (b, released) = Reorder.step (buffer_of (pos 5) waiting) (pos 9) 90 in
    Runs b (pos 5) (run_all sums 7 released (counted b waiting)) (step sums waiting 90 (pos 9) 7)
buffer_step_lem_example = buffer_step_lem sums waiting 90 (pos 9) (pos 5) 7 refl refl refl

abbrev calls : List (Call ℕ)
calls = record_at 5 (pos 10) ∷ clock (pos 20) ∷ record_at 6 (pos 15) ∷ finish ∷ []

last_ts_never_back_example : Forwards (times_of sums 7 (new 0 drop) calls)
last_ts_never_back_example = last_ts_never_back sums 7 0 drop calls (tt, (tt, (tt, (tt, tt))))

-- Under `Buffer` an advance of the watermark passes the record that waits at 10, and the flush then
-- moves the time of the key back from 20 to 10.
watermark_passes_waiting :
    times_of sums 7 (new 0 (buffer (pos 5))) (record_at 5 (pos 10) ∷ clock (pos 20) ∷ finish ∷ [])
    ≡ none ∷ none ∷ some (pos 20) ∷ some (pos 10) ∷ []
unfolding step Keyed.step_by flush Keyed.flush_from Keyed.flush_timers Keyed.run_one
    Keyed.drain_from advance_event_time_watermark Keyed.watermark_moved Frontier.call sat_sub ◌-ℤ◌
    Timer.pop_from
watermark_passes_waiting = refl
