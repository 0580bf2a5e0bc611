-- ===== src/Cep/Tests.antt =====
-- Runs of the engine, the builder and the iterator on one pattern: an event 1, then an event 2 within
-- ten milliseconds, twice or three times, and no event 3 in the twenty milliseconds after that.
use tflo.Prelude.{
  ℕ, String, ◌≡◌, ◌≢◌, ◌↔◌, ◌⊎◌, refl, ◌+◌, ◌≤◌, ◌<◌, ◌&&◌, min, List, [], ◌∷◌, none, some, All,
  arith, not, ◌==◌, length, retain, get_elem?,
}
use mathlib.Core.List.{Perm}
use tflo.Prelude.Int.{ℤ, pos}
use tflo.Prelude.I64.{u64_max}
use tflo.Cep.Match
use tflo.Cep.Match.{Captures, Match}
use tflo.Cep.Step
use tflo.Cep.Step.{
  Predicate, Contiguity, eventually, RepeatSpec, Step, PartialMatch, Disposition, keep, Compiled,
}
use tflo.Cep.Valid.{IsValid, IsWaiting}
use tflo.Cep.Language.{start}
use tflo.Cep.Runtime.{Runtime, new, max_partials, next_deadline}
use tflo.Cep.Advance
use tflo.Cep.Advance.{advance_one, advance_loop}
use tflo.Cep.Advance.Bound.{KeptOk, advance_one_total}
use tflo.Cep.Advance.Sound.{Tracked, fresh-HasRoom, Outcome, advance_one_sound}
use tflo.Cep.Sweep.Healthy.{Emitted}
use tflo.Cep.Engine.{tick}
use tflo.Cep.Engine.Calls.{Call, event_at, clock, end, run}
use tflo.Cep.Engine.Safe.{run_returns, run_emits_accepted}
use tflo.Cep.Engine.Deadlines.{is_expired, awaits_absence, emitted, tick_lem}
use tflo.Cep.Engine.Lives.{lives}
use tflo.Cep.Engine.Independent.{pushes, matches_are_lives}
use tflo.Cep.Engine.Wake.{tick_at_next_deadline, tick_after_next_deadline}
use tflo.Cep.Pattern
use tflo.Cep.Pattern.{
  ArcPredicate, Result, ok, err, PatternError, no_when_step, BuilderStep, Pattern, emit, finalized,
  into_runtime, not_then, within,
}
use tflo.Cep.Pattern.Checks.{EndsWell, Blames, emit_accepts, emit_rejects}
use tflo.Cep.Pattern.Build.{Method, build, built_runs}
use tflo.Cep.Pattern.Build
use tflo.Cep.Iter.{new as new_iter}
use tflo.Cep.Iter.Collect.{calls, collect, iter_yields_run}

abbrev is_event : ℕ → Predicate ℕ
is_event n = record { evaluate = λ e. e == n; evaluate_in_context = λ e caps. e == n }

abbrev steps : List (Step ℕ)
steps =
    Step.positive "one" (is_event 1) none
    ∷ Step.with_repeat (Step.positive "two" (is_event 2) (some (pos 10)))
        (record { min = 2; max = 3 })
    ∷ Step.negative "three" (is_event 3) (some (pos 20))
    ∷ []

abbrev pattern : Compiled ℕ ℕ
pattern = record { name = "p"; steps = steps; emit_fn = λ m. length m.events; timestamp_fn = none }

pattern-IsValid : IsValid pattern
pattern-IsValid = record {
  nonempty = omega arith;
  fits = omega arith;
  repeats = (tt, ((omega arith, omega arith, omega arith), (tt, tt)));
}

abbrev session : List (Call ℕ)
session = event_at 1 (pos 0) ∷ event_at 2 (pos 5) ∷ event_at 2 (pos 6) ∷ clock (pos 40) ∷ end ∷ []

run_returns_example :
    (r : Runtime ℕ ℕ × List ℕ) × (run (record (new pattern) { reorder = none }) session [] ≡ some r)
    × (length r.0.in_flight ≤ max_partials)
    × All (IsWaiting pattern) r.0.in_flight
run_returns_example = run_returns pattern pattern-IsValid none session

run_emits_accepted_example :
    (r : Runtime ℕ ℕ × List ℕ) × (run (record (new pattern) { reorder = none }) session [] ≡ some r)
    × All (Emitted pattern) r.1
run_emits_accepted_example = run_emits_accepted pattern pattern-IsValid none session

-- Two lives at once: the event 1 at 0 and the event 1 at 3.
abbrev stream : List (ℤ × ℕ)
stream = (pos 0, 1) ∷ (pos 3, 1) ∷ (pos 5, 2) ∷ (pos 6, 2) ∷ (pos 7, 9) ∷ (pos 60, 9) ∷ []

matches_are_lives_example :
    (r : Runtime ℕ ℕ × List ℕ) × ((run (new pattern) (pushes stream) [] ≡ some r)
      × ((r.0.in_flight ≡ (lives pattern stream).0) × Perm r.1 (lives pattern stream).1))
matches_are_lives_example = matches_are_lives pattern pattern-IsValid stream (omega arith)

abbrev three_events : List ℕ
three_events = 1 ∷ 2 ∷ 2 ∷ []

iter_yields_run_example :
    (r : Runtime ℕ ℕ × List ℕ) × (run (new pattern) (calls three_events) [] ≡ some r)
    × (collect (length r.1 + 1 + 5) (length three_events + 3 + 2) (new_iter three_events pattern)
        ≡ some r.1)
iter_yields_run_example = iter_yields_run pattern pattern-IsValid three_events 2 5

-- One event has matched, and no repeat is counted yet.
abbrev waiting : PartialMatch ℕ
waiting = record {
  captures = ("one", 1) ∷ [];
  next_step = 1;
  deadline_ts = some (pos 10);
  repeat_count = 0;
}

waiting-Tracked : Tracked pattern waiting
waiting-Tracked = record {
  waiting = (omega arith, omega arith);
  room = fresh-HasRoom pattern 1 pattern-IsValid;
  run = start (Step.positive "one" (is_event 1) none) 1 refl refl;
}

advance_one_total_example :
    (r : Disposition × PartialMatch ℕ) × (advance_one pattern waiting 2 (pos 5) ≡ some r)
    × KeptOk pattern waiting r
advance_one_total_example = advance_one_total pattern waiting 2 (pos 5) (omega arith) (omega arith)

-- The partial after an event 2.
abbrev counted : PartialMatch ℕ
counted = record waiting { captures = ("one", 1) ∷ ("two", 2) ∷ []; repeat_count = 1 }

advance_one_sound_example : Outcome pattern (keep, counted)
unfolding advance_one advance_loop Advance.advance_round Advance.repeat_round
advance_one_sound_example =
    advance_one_sound pattern waiting 2 (pos 5) (keep, counted) pattern-IsValid waiting-Tracked refl

-- One partial waits for a repeat, one for an absence.
abbrev absent_three : PartialMatch ℕ
absent_three = record {
  captures = ("one", 1) ∷ ("two", 2) ∷ ("two", 2) ∷ [];
  next_step = 2;
  deadline_ts = some (pos 30);
  repeat_count = 0;
}

abbrev busy : Runtime ℕ ℕ
busy = record {
  compiled = pattern;
  in_flight = waiting ∷ absent_three ∷ [];
  on_drop = none;
  dropped = 0;
  reorder = none;
}

abbrev busy-waits : All (IsWaiting pattern) busy.in_flight
busy-waits = ((omega arith, omega arith), ((omega arith, omega arith), tt))

tick_lem_example :
    (r : Runtime ℕ ℕ × List ℕ) × (tick busy (pos 40) ≡ some r)
    × (r.0.in_flight ≡ retain (λ pm. not (is_expired (pos 40) pm)) busy.in_flight)
    × (r.1
        ≡ emitted pattern
            (retain (λ pm. is_expired (pos 40) pm && awaits_absence pattern pm) busy.in_flight))
    × (r.0.dropped
        ≡ min
            (0
              + length (
                  retain
                    (λ pm. is_expired (pos 40) pm && not (awaits_absence pattern pm))
                    busy.in_flight))
            u64_max)
tick_lem_example = tick_lem busy (pos 40) refl (omega arith) busy-waits

tick_at_next_deadline_example : tick busy (pos 10) ≡ some (busy, [])
unfolding next_deadline
tick_at_next_deadline_example = tick_at_next_deadline busy (pos 10) (pos 10) refl refl (omega arith)

tick_after_next_deadline_example :
    (r : Runtime ℕ ℕ × List ℕ) × (tick busy (pos 11) ≡ some r)
    × (length r.0.in_flight < length busy.in_flight)
unfolding next_deadline
tick_after_next_deadline_example =
    tick_after_next_deadline busy (pos 10) (pos 11) refl (omega arith) busy-waits refl (omega arith)

-- The host's compiler of CEL strings: here it rejects them all.
abbrev no_cel : String → Result (ArcPredicate ℕ) String
no_cel expr = err "unsupported"

abbrev script : List (Method ℕ)
script =
    Build.when (λ e. e == 1)
    ∷ Build.then_ (λ e. e == 2)
    ∷ Build.within 10
    ∷ Build.times 2 3
    ∷ Build.not_then (λ e. e == 3)
    ∷ Build.within 20
    ∷ []

abbrev count : Match ℕ → ℕ
count m = length m.events

built_runs_example :
    (rt : Runtime ℕ ℕ) × (into_runtime
        (finalized (build no_cel (Pattern.new {M = ℕ} "p") script) count)
      ≡ some rt)
    × (r : Runtime ℕ ℕ × List ℕ) × (run (record rt { reorder = none }) session [] ≡ some r)
    × (length r.0.in_flight ≤ max_partials)
unfolding Pattern.when Pattern.then_ Pattern.then_named Pattern.within Pattern.times
    Pattern.not_then Pattern.not_then_named emit Pattern.check_steps
built_runs_example =
    built_runs no_cel ℕ "p" script count
      (tt, (tt, (tt, ((omega arith, omega arith), (tt, (tt, tt)))))) (omega arith) refl none session

abbrev empty_builder : Pattern ℕ ℕ
empty_builder = Pattern.new "p"

emit_accepts_example : (emit empty_builder count ≡ ok (finalized empty_builder count)) ↔ (
    (empty_builder.pending_error ≡ none)
    × (empty_builder.steps ≢ [])
    × EndsWell empty_builder.steps)
emit_accepts_example = emit_accepts empty_builder count

emit_rejects_example :
    (empty_builder.pending_error ≡ some no_when_step)
    ⊎ ((empty_builder.steps ≡ []) × (no_when_step ≡ no_when_step))
    ⊎ ((j : ℕ) × (s : BuilderStep ℕ) × (get_elem? empty_builder.steps j ≡ some s)
        × Blames (length empty_builder.steps) j no_when_step s)
unfolding emit
emit_rejects_example = emit_rejects empty_builder count no_when_step refl
