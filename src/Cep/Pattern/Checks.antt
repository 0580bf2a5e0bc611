-- ===== src/Cep/Pattern/Checks.antt =====
-- tflo-cep/src/pattern.rs, `emit`: which builders it accepts, and what its errors say.
use tflo.Prelude.{
  ℕ, suc, ◌+◌, ◌-◌, ◌≡◌, ◌≢◌, ◌↔◌, ◌⊎◌, inl, inr, refl, subst, true, false, none, some, List, [],
  ◌∷◌, length, get_elem?, arith, ◌==◌, Bool-cases, Option-cases,
}
use tflo.Cep.Match.{Match}
use tflo.Cep.Pattern.{
  PatternError, no_when_step, not_then_missing_within, not_then_not_terminal, ok, err, BuilderStep,
  name_of, is_negative, within_of, Pattern, check_steps, finalized, emit,
}

-- Only the last step may be negative, and then it has a time bound.
abbrev pub EndsWell {ℓ} : {E : Type ℓ} → List (BuilderStep E) → Type 0
EndsWell [] = Unit
EndsWell (s ∷ []) = is_negative s ≡ true → within_of s ≢ none
EndsWell (s ∷ t ∷ r) = (is_negative s ≡ false) × EndsWell (t ∷ r)

module _ {ℓ} {E : Type ℓ} where
  check_steps-none :
      (total i : ℕ) (l : List (BuilderStep E))
      → i + length l ≡ total
      → check_steps total i l ≡ none
      → EndsWell l
  unfolding check_steps
  check_steps-none total i [] here e = tt
  check_steps-none total i (s ∷ []) here e = λ neg open'. ground arith
  check_steps-none total i (s ∷ t ∷ r) here e =
      ground (arith, check_steps-none total (suc i) (t ∷ r))

  none-check_steps :
      (total i : ℕ) (l : List (BuilderStep E))
      → i + length l ≡ total
      → EndsWell l
      → check_steps total i l ≡ none
  unfolding check_steps
  none-check_steps total i [] here h = refl
  none-check_steps total i (s ∷ []) here h = elim (Bool-cases (is_negative s)) [
    | inr pos ↦ rw pos
    | inl neg ↦ elim (Option-cases (within_of s)) [
      | inl open' ↦ absurd (h neg open')
      | inr (ms, bound) ↦ ground arith
    ]
  ]
  none-check_steps total i (s ∷ t ∷ r) here h =
      rw h.0 (none-check_steps total (suc i) (t ∷ r) (omega arith) h.1)

  -- What an error of the loop says of the step at position `j` of the list.
  abbrev pub Blames : ℕ → ℕ → PatternError → BuilderStep E → Type 0
  Blames total at e s =
      (is_negative s ≡ true)
      × (((within_of s ≡ none) × (e ≡ not_then_missing_within (name_of s)))
          ⊎ ((within_of s ≢ none) × (suc at ≢ total) × (e ≡ not_then_not_terminal (name_of s))))

  Found : ℕ → ℕ → List (BuilderStep E) → PatternError → Type ℓ
  Found total i l e =
      (j : ℕ) × (s : BuilderStep E) × (get_elem? l j ≡ some s) × Blames total (i + j) e s

  Found-later :
      (total i : ℕ) (s : BuilderStep E) (r : List (BuilderStep E)) (e : PatternError)
      → Found total (suc i) r e
      → Found total i (s ∷ r) e
  unfolding Found
  Found-later total i s r e (j, t, at, blames) =
      let same : suc i + j ≡ i + suc j = omega arith in
      (suc j, t, at, subst (λ k. Blames total k e t) same blames)

  check_steps-some :
      (total i : ℕ) (l : List (BuilderStep E)) (e : PatternError)
      → i + length l ≡ total
      → check_steps total i l ≡ some e
      → Found total i l e
  unfolding check_steps Found
  check_steps-some total i [] e here h = cc
  check_steps-some total i (s ∷ r) e here h =
      let later = λ (h' : check_steps total (suc i) r ≡ some e).
        Found-later total i s r e (check_steps-some total (suc i) r e (omega arith) h') in
      elim (Bool-cases (is_negative s)) [
        | inr pos ↦ later (ground arith)
        | inl neg ↦ elim (Option-cases (within_of s)) [
          | inl open' ↦ (0, s, refl, (neg, ground arith))
          | inr (ms, bound) ↦ elim (Bool-cases (i == total - 1)) [
            | inl last ↦ later (ground arith)
            | inr early ↦ (0, s, refl, (neg, ground arith))
          ]
        ]
      ]

module _ {ℓ} {E M N : Type ℓ} where
  -- `emit` succeeds exactly on a builder with no pending error, at least one step, and no negative
  -- step but a last one that has a time bound.
  pub emit_accepts :
      (p : Pattern E M) (f : Match E → N)
      → (emit p f ≡ ok (finalized p f))
        ↔ ((p.pending_error ≡ none) × (p.steps ≢ []) × EndsWell p.steps)
  unfolding emit
  emit_accepts p f = (there, back)
    where
      there :
          emit p f ≡ ok (finalized p f)
          → (p.pending_error ≡ none) × (p.steps ≢ []) × EndsWell p.steps
      there e =
          let calm : p.pending_error ≡ none = ground arith in
          let some_step : p.steps ≢ [] = λ nil. ground arith in
          let fine : check_steps (length p.steps) 0 p.steps ≡ none = ground arith in
          (calm, some_step, check_steps-none (length p.steps) 0 p.steps (omega arith) fine)

      back :
          (p.pending_error ≡ none) × (p.steps ≢ []) × EndsWell p.steps
          → emit p f ≡ ok (finalized p f)
      back (calm, some_step, ends) =
          let fine = none-check_steps (length p.steps) 0 p.steps (omega arith) ends in
          ground (arith, fine)

  -- Each error of `emit` is the pending one, or says that there is no step at all, or names a negative
  -- step of the builder that has no time bound, or has one and is not the last.
  pub emit_rejects :
      (p : Pattern E M) (f : Match E → N) (e : PatternError)
      → emit p f ≡ err e
      → (p.pending_error ≡ some e)
        ⊎ ((p.steps ≡ []) × (e ≡ no_when_step))
        ⊎ ((j : ℕ) × (s : BuilderStep E) × (get_elem? p.steps j ≡ some s)
            × Blames (length p.steps) j e s)
  unfolding emit Found
  emit_rejects p f e h = elim (Option-cases p.pending_error) [
    | inr (e', pending) ↦ inl (ground arith)
    | inl calm ↦ elim (Option-cases (check_steps (length p.steps) 0 p.steps)) [
      | inl fine ↦ inr (inl (ground arith))
      | inr (e', bad) ↦
          let (j, s, at, blames) =
            check_steps-some (length p.steps) 0 p.steps e' (omega arith) bad in
          let some_step : p.steps ≢ [] = λ nil. ground arith in
          let same : e' ≡ e = ground arith in
          let blames' = subst (λ x. Blames (length p.steps) (0 + j) x s) same blames in
          let here : 0 + j ≡ j = omega arith in
          inr (inr (j, s, at, subst (λ k. Blames (length p.steps) k e s) here blames'))
    ]
  ]
