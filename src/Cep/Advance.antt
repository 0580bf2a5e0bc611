-- ===== src/Cep/Advance.antt =====
-- tflo-cep/src/engine.rs, `advance_one` and `advance_step`: one event against one partial match.
pub mod Bound
pub mod Sound
use tflo.Prelude.{
  ℕ, zero, suc, String, Bool, true, false, not, ◌&&◌, Option, none, some, List, [], ◌∷◌, ◌++◌,
  length, get_elem?, if◌then◌else◌, is_some_and, leb,
}
use tflo.Prelude.Int.{ℤ}
use tflo.Prelude.I64.{sat_add_u64}
use tflo.Cep.Step.{
  Contiguity, is_next, RepeatSpec, Step, PartialMatch, Disposition, keep, remove, complete,
  Compiled,
}
use tflo.Cep.Runtime.{next_deadline_for}

-- What one turn of the loop in `advance_one` does: it returns, or goes round with the partial.
pub data Round {ℓ} (E : Type ℓ) : Type ℓ where
  done : Disposition → PartialMatch E → Round E
  again : PartialMatch E → Round E

module _ {ℓ} {E : Type ℓ} where
  -- `return self.advance_step(…)`, and the match on its result before `continue`.
  abbrev pub finish : Disposition × PartialMatch E → Round E
  finish (d, pm) = done d pm

  abbrev pub resume : Disposition × PartialMatch E → Round E
  resume (keep, pm) = again pm
  resume (remove, pm) = done remove pm
  resume (complete, pm) = done complete pm

  -- A step without a match: a strict `next` dies, `eventually` waits.
  abbrev pub unmatched : Contiguity → PartialMatch E → Round E
  unmatched c pm = done (if is_next c then remove else keep) pm

  -- The end of a turn: the loop returns, or goes on.
  abbrev pub or_again :
      Round E
      → (PartialMatch E → Option (Disposition × PartialMatch E))
      → Option (Disposition × PartialMatch E)
  or_again (done d pm) rec = some (d, pm)
  or_again (again pm) rec = rec pm

  abbrev pub capture : PartialMatch E → String → E → PartialMatch E
  capture pm name event = record pm { captures = pm.captures ++ ((name, event) ∷ []) }

module _ {ℓ} {E M : Type ℓ} where
  unfoldable pub advance_step : Compiled E M → PartialMatch E → ℕ → ℤ → Disposition × PartialMatch E
  advance_step c pm from_step ts =
      let new_next = sat_add_u64 from_step 1 in
      let pm' = record pm {
        next_step = new_next;
        repeat_count = 0;
        deadline_ts = next_deadline_for c new_next ts;
      } in
      (if leb (length c.steps) new_next then complete else keep, pm')

  -- The arm `Some(spec)` of the match on `repeat`.
  unfoldable pub repeat_round :
      Compiled E M → PartialMatch E → E → ℤ → Step E → RepeatSpec → Bool → Round E
  repeat_round c pm event ts step spec matches =
      let pm' = record (capture pm step.name event) {
        repeat_count = sat_add_u64 pm.repeat_count 1;
      } in
      if matches
      then (if leb spec.max pm'.repeat_count
          then finish (advance_step c pm' pm.next_step ts)
          else done keep pm')
      else if leb spec.min pm.repeat_count
      then resume (advance_step c pm pm.next_step ts)
      else unmatched step.contiguity pm

  -- The arm `None`.
  unfoldable pub once_round : Compiled E M → PartialMatch E → E → ℤ → Step E → Bool → Round E
  once_round c pm event ts step matches =
      if matches
      then finish (advance_step c (capture pm step.name event) pm.next_step ts)
      else unmatched step.contiguity pm

  unfoldable pub advance_round : Compiled E M → PartialMatch E → E → ℤ → Step E → Round E
  advance_round c pm event ts step =
      let matches = step.predicate.evaluate_in_context event pm.captures in
      let forbidden_matches =
        is_some_and step.forbidden (λ f. f.evaluate_in_context event pm.captures) in
      if step.is_negative
      then done (if matches then remove else keep) pm
      else if not matches && forbidden_matches
      then done remove pm
      else elim step.repeat [
        | some spec ↦ repeat_round c pm event ts step spec matches
        | none ↦ once_round c pm event ts step matches
      ]

  unfoldable pub advance_loop :
      ℕ → Compiled E M → PartialMatch E → E → ℤ → Option (Disposition × PartialMatch E)
  advance_loop zero c pm event ts = none
  advance_loop (suc fuel) c pm event ts = elim (get_elem? c.steps pm.next_step) [
    | none ↦ none
    | some step ↦
        or_again (advance_round c pm event ts step) (λ pm'. advance_loop fuel c pm' event ts)
  ]

  -- The loop goes round at most once for each step that is left.
  unfoldable pub advance_one :
      Compiled E M → PartialMatch E → E → ℤ → Option (Disposition × PartialMatch E)
  unfolding advance_loop
  advance_one c pm event ts = advance_loop (length c.steps) c pm event ts
