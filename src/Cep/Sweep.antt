-- ===== src/Cep/Sweep.antt =====
-- tflo-cep/src/engine.rs: one event against the runtime, `match_one` and the three sweeps that it makes.
pub mod Healthy
pub mod Keeps
use tflo.Prelude.{
  String, not, Option, none, some, List, [], ◌∷◌, ◌++◌, length, get_elem?, if◌then◌else◌,
  is_some_and, ◌>>=◌, ◌==◌,
}
use tflo.Prelude.Int.{ℤ, ltb_ℤ}
use tflo.Cep.Step.{deadline, late, PartialMatch, Disposition, keep, remove, complete, Compiled}
use tflo.Cep.Runtime.{Runtime, note_drop, emit, next_deadline_for, open_partial}
use tflo.Cep.Advance.{advance_one}

module _ {ℓ} {E M : Type ℓ} where
  -- One partial of the sweep; `in_flight` holds the partials already passed.
  unfoldable pub deadlines_one :
      Runtime E M → ℤ → PartialMatch E → List M → Option (Runtime E M × List M)
  deadlines_one rt ts pm out =
      if not (is_some_and pm.deadline_ts (λ d. ltb_ℤ d ts))
      then some (record rt { in_flight = rt.in_flight ++ (pm ∷ []) }, out)
      else elim (get_elem? rt.compiled.steps pm.next_step) [
        | none ↦ none
        | some step ↦ some (
            if step.is_negative
            then (rt, emit rt.compiled pm out)
            else (note_drop rt deadline, out))
      ]

  unfoldable pub deadlines_from :
      Runtime E M → ℤ → List (PartialMatch E) → List M → Option (Runtime E M × List M)
  deadlines_from rt ts [] out = some (rt, out)
  deadlines_from rt ts (pm ∷ pms) out = do
    (rt', out') ← deadlines_one rt ts pm out
    deadlines_from rt' ts pms out'

  unfoldable pub advance_deadlines : Runtime E M → ℤ → List M → Option (Runtime E M × List M)
  advance_deadlines rt ts out = deadlines_from (record rt { in_flight = [] }) ts rt.in_flight out

  -- What `advance_partials` does with the partial after `advance_one`.
  abbrev pub settle :
      Compiled E M
      → Disposition × PartialMatch E
      → List (PartialMatch E) × List M
      → List (PartialMatch E) × List M
  settle c (keep, pm) (pms, out) = (pm ∷ pms, out)
  settle c (remove, pm) (pms, out) = (pms, out)
  settle c (complete, pm) (pms, out) = (pms, emit c pm out)

  -- The loop runs from the last partial to the first.
  unfoldable pub partials_from :
      Compiled E M
      → E
      → ℤ
      → List (PartialMatch E)
      → List M
      → Option (List (PartialMatch E) × List M)
  partials_from c event ts [] out = some ([], out)
  partials_from c event ts (pm ∷ pms) out = do
    later ← partials_from c event ts pms out
    r ← advance_one c pm event ts
    some (settle c r later)

  unfoldable pub advance_partials : Runtime E M → E → ℤ → List M → Option (Runtime E M × List M)
  advance_partials rt event ts out = do
    (pms, out') ← partials_from rt.compiled event ts rt.in_flight out
    some (record rt { in_flight = pms }, out')

  abbrev pub opened : Compiled E M → String → E → ℤ → PartialMatch E
  opened c when_name event ts = record {
    captures = (when_name, event) ∷ [];
    next_step = 1;
    deadline_ts = next_deadline_for c 1 ts;
    repeat_count = 0;
  }

  unfoldable pub try_open_new : Runtime E M → E → ℤ → List M → Option (Runtime E M × List M)
  unfolding open_partial
  try_open_new rt event ts out = elim (get_elem? rt.compiled.steps 0) [
    | none ↦ none
    | some when_step ↦
        let new_pm = opened rt.compiled when_step.name event ts in
        some (
          if not (when_step.predicate.evaluate event)
          then (rt, out)
          else if length rt.compiled.steps == 1
          then (rt, emit rt.compiled new_pm out)
          else (open_partial rt new_pm, out))
  ]

  unfoldable pub match_one : Runtime E M → E → ℤ → List M → Option (Runtime E M × List M)
  match_one rt event ts out = do
    (rt₁, out₁) ← advance_deadlines rt ts out
    (rt₂, out₂) ← advance_partials rt₁ event ts out₁
    try_open_new rt₂ event ts out₂

  -- The loops over the events that the reorder buffer has released.
  unfoldable pub match_all : Runtime E M → List (ℤ × E) → List M → Option (Runtime E M × List M)
  match_all rt [] out = some (rt, out)
  match_all rt ((ts, event) ∷ released) out = do
    (rt', out') ← match_one rt event ts out
    match_all rt' released out'

  unfoldable pub note_late : Runtime E M → List (ℤ × E) → Runtime E M
  note_late rt [] = rt
  note_late rt (_ ∷ rest) = note_late (note_drop rt late) rest
