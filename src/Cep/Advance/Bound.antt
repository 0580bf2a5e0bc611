-- ===== src/Cep/Advance/Bound.antt =====
-- The loop of `advance_one` ends, returns a partial that waits for a step of the pattern, and with
-- valid repeats goes round at most twice.
use tflo.Prelude.{
  ℕ, zero, suc, ◌+◌, ◌^◌, ◌≤◌, ◌<◌, ◌≡◌, refl, Option, some, length, get_elem?,
  get_elem?-some_of_lt, arith, All-get, sym, ◌∙◌,
}
use tflo.Prelude.Int.{ℤ}
use tflo.Cep.Step.{Step, PartialMatch, Disposition, keep, remove, complete, Compiled}
use tflo.Cep.Valid.{IsValid, RepeatOk}
use tflo.Cep.Advance.{
  Round, done, again, or_again, advance_step, repeat_round, once_round, advance_round, advance_loop,
  advance_one,
}

abbrev IsDone {ℓ} : {E : Type ℓ} → Round E → Type 0
IsDone (done d pm) = Unit
IsDone (again pm) = ⊥

done-congr {ℓ} :
    {E : Type ℓ} (round : Round E)
    (rec rec' : PartialMatch E → Option (Disposition × PartialMatch E))
    → IsDone round
    → or_again round rec ≡ or_again round rec'
done-congr (done d pm') rec rec' h = refl
done-congr (again pm') rec rec' h = absurd h

module _ {ℓ} {E M : Type ℓ} where
  -- A round that returns `Keep` leaves the partial at a step of the pattern; one that goes round has
  -- moved to the next step, with no repeats counted.
  abbrev RoundOk : Compiled E M → PartialMatch E → Round E → Type 0
  RoundOk c pm (done keep pm') = (pm.next_step ≤ pm'.next_step) × (pm'.next_step < length c.steps)
  RoundOk c pm (done remove pm') = Unit
  RoundOk c pm (done complete pm') = Unit
  RoundOk c pm (again pm') =
      (pm'.next_step ≡ suc pm.next_step) × (pm'.next_step < length c.steps) × (pm'.repeat_count ≡ 0)

  advance_round-RoundOk :
      (c : Compiled E M) (pm : PartialMatch E) (event : E) (ts : ℤ) (step : Step E)
      → length c.steps < 2 ^ 63
      → pm.next_step < length c.steps
      → RoundOk c pm (advance_round c pm event ts step)
  unfolding advance_round repeat_round once_round advance_step
  advance_round-RoundOk c pm event ts step fits lt = ground arith

  -- Where a partial that was kept waits.
  abbrev pub KeptOk : Compiled E M → PartialMatch E → Disposition × PartialMatch E → Type 0
  KeptOk c pm (keep, pm') = (pm.next_step ≤ pm'.next_step) × (pm'.next_step < length c.steps)
  KeptOk c pm (remove, pm') = Unit
  KeptOk c pm (complete, pm') = Unit

  KeptOk-later :
      (c : Compiled E M) (pm pm₁ : PartialMatch E) (r : Disposition × PartialMatch E)
      → pm.next_step ≤ pm₁.next_step
      → KeptOk c pm₁ r
      → KeptOk c pm r
  KeptOk-later c pm pm₁ (keep, pm') le h = omega arith
  KeptOk-later c pm pm₁ (remove, pm') le h = tt
  KeptOk-later c pm pm₁ (complete, pm') le h = tt

  KeptOk-done :
      (c : Compiled E M) (pm : PartialMatch E) (d : Disposition) (pm' : PartialMatch E)
      → RoundOk c pm (done d pm')
      → KeptOk c pm (d, pm')
  KeptOk-done c pm keep pm' h = h
  KeptOk-done c pm remove pm' h = h
  KeptOk-done c pm complete pm' h = h

  pub advance_loop-suc :
      (fuel : ℕ) (c : Compiled E M) (pm : PartialMatch E) (event : E) (ts : ℤ) {step : Step E}
      → get_elem? c.steps pm.next_step ≡ some step
      → advance_loop (suc fuel) c pm event ts
        ≡ or_again (advance_round c pm event ts step) (λ pm'. advance_loop fuel c pm' event ts)
  unfolding advance_loop
  advance_loop-suc fuel c pm event ts at = rw (at, advance_loop)

  Kept : Compiled E M → PartialMatch E → Option (Disposition × PartialMatch E) → Type ℓ
  Kept c pm o = (r : Disposition × PartialMatch E) × (o ≡ some r) × KeptOk c pm r

  or_again-Kept :
      (c : Compiled E M) (pm : PartialMatch E) (round : Round E)
      (rec : PartialMatch E → Option (Disposition × PartialMatch E))
      → RoundOk c pm round
      → ((pm' : PartialMatch E) → RoundOk c pm (again pm') → Kept c pm' (rec pm'))
      → Kept c pm (or_again round rec)
  unfolding Kept
  or_again-Kept c pm (done d pm') rec h keeps = ((d, pm'), refl, KeptOk-done c pm d pm' h)
  or_again-Kept c pm (again pm') rec h keeps =
      let (r, e, ok) = keeps pm' h in (r, e, KeptOk-later c pm pm' r (omega arith) ok)

  -- As many rounds as steps are left are enough.
  advance_loop-Kept :
      (fuel : ℕ) (c : Compiled E M) (pm : PartialMatch E) (event : E) (ts : ℤ)
      → length c.steps < 2 ^ 63
      → pm.next_step < length c.steps
      → length c.steps ≤ fuel + pm.next_step
      → Kept c pm (advance_loop fuel c pm event ts)
  advance_loop-Kept zero c pm event ts fits lt enough = absurd (omega arith)
  advance_loop-Kept (suc fuel) c pm event ts fits lt enough =
      let (step, at) = get_elem?-some_of_lt c.steps pm.next_step lt in
      rw (advance_loop-suc fuel c pm event ts at) (
        or_again-Kept c pm (advance_round c pm event ts step) _
          (advance_round-RoundOk c pm event ts step fits lt)
          λ pm' h. advance_loop-Kept fuel c pm' event ts fits (omega arith) (omega arith))

  -- `advance_one` returns for every partial that waits for a step, without an index out of range; a
  -- partial that it keeps waits for the same or a later step of the pattern.
  pub advance_one_total :
      (c : Compiled E M) (pm : PartialMatch E) (event : E) (ts : ℤ)
      → length c.steps < 2 ^ 63
      → pm.next_step < length c.steps
      → (r : Disposition × PartialMatch E) × (advance_one c pm event ts ≡ some r) × KeptOk c pm r
  unfolding advance_one Kept
  advance_one_total c pm event ts fits lt =
      advance_loop-Kept (length c.steps) c pm event ts fits lt (omega arith)

  -- A step with no repeats counted does not send the loop round: its repeat wants one at least.
  fresh-IsDone :
      (c : Compiled E M) (pm : PartialMatch E) (event : E) (ts : ℤ) (step : Step E)
      → RepeatOk step.repeat
      → pm.repeat_count ≡ 0
      → IsDone (advance_round c pm event ts step)
  unfolding advance_round repeat_round once_round advance_step
  fresh-IsDone c pm event ts step ok fresh = ground arith

  or_again-congr :
      (c : Compiled E M) (pm : PartialMatch E) (round : Round E)
      (rec rec' : PartialMatch E → Option (Disposition × PartialMatch E))
      → RoundOk c pm round
      → ((pm' : PartialMatch E) → RoundOk c pm (again pm') → rec pm' ≡ rec' pm')
      → or_again round rec ≡ or_again round rec'
  or_again-congr c pm (done d pm') rec rec' h same = refl
  or_again-congr c pm (again pm') rec rec' h same = same pm' h

  second_round :
      (fuel : ℕ) (c : Compiled E M) (pm : PartialMatch E) (event : E) (ts : ℤ)
      → IsValid c
      → pm.next_step < length c.steps
      → pm.repeat_count ≡ 0
      → advance_loop (suc fuel) c pm event ts ≡ advance_loop 1 c pm event ts
  second_round fuel c pm event ts v lt fresh =
      let (step, at) = get_elem?-some_of_lt c.steps pm.next_step lt in
      let ok = All-get (λ s. RepeatOk s.repeat) c.steps pm.next_step v.repeats at in
      advance_loop-suc fuel c pm event ts at
      ∙ done-congr (advance_round c pm event ts step) _ _ (fresh-IsDone c pm event ts step ok fresh)
      ∙ sym (advance_loop-suc 0 c pm event ts at)

  -- With valid repeats two rounds are enough: more fuel than two changes nothing.
  pub advance_loop_two_rounds :
      (fuel : ℕ) (c : Compiled E M) (pm : PartialMatch E) (event : E) (ts : ℤ)
      → IsValid c
      → pm.next_step < length c.steps
      → advance_loop (suc (suc fuel)) c pm event ts ≡ advance_loop 2 c pm event ts
  advance_loop_two_rounds fuel c pm event ts v lt =
      let (step, at) = get_elem?-some_of_lt c.steps pm.next_step lt in
      let ok = advance_round-RoundOk c pm event ts step v.fits lt in
      advance_loop-suc (suc fuel) c pm event ts at
      ∙ or_again-congr c pm (advance_round c pm event ts step) _ _ ok
          (λ pm' h. second_round fuel c pm' event ts v h.1 h.2)
      ∙ sym (advance_loop-suc 1 c pm event ts at)
