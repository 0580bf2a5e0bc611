-- ===== src/Cep/Pattern/Steps.antt =====
-- tflo-cep/src/pattern.rs: the edits that the builder makes in its list of steps keep the repeats valid.
use tflo.Prelude.{
  ℕ, suc, ◌+◌, ◌≤◌, ◌≡◌, refl, sym, subst, Option, none, List, [], ◌∷◌, ◌++◌, map, length,
  length-append, arith, if◌then◌else◌, ltb, All, All-append,
}
use tflo.Prelude.Int.{ℤ}
use tflo.Prelude.I64.{u64_max}
use tflo.Cep.Step.{Contiguity, RepeatSpec}
use tflo.Cep.Valid.{RepeatOk}
use tflo.Cep.Pattern.{
  BuilderStep, positive, negative, change_last, put_first, set_within, set_contiguity, set_repeat,
  engine_step,
}

abbrev pub repeat_of {ℓ} : {E : Type ℓ} → BuilderStep E → Option RepeatSpec
repeat_of (positive n p w c r f) = r
repeat_of (negative n p w) = none

abbrev pub StepOk {ℓ} : {E : Type ℓ} → BuilderStep E → Type 0
StepOk s = RepeatOk (repeat_of s)

module _ {ℓ} {E : Type ℓ} where
  pub change_last-StepOk :
      (f : BuilderStep E → BuilderStep E) (l : List (BuilderStep E))
      → ((s : BuilderStep E) → StepOk s → StepOk (f s))
      → All StepOk l
      → All StepOk (change_last f l)
  change_last-StepOk f [] keeps h = tt
  change_last-StepOk f (s ∷ []) keeps h = (keeps s h.0, tt)
  change_last-StepOk f (s ∷ t ∷ r) keeps h = (h.0, change_last-StepOk f (t ∷ r) keeps h.1)

  pub length-change_last :
      (f : BuilderStep E → BuilderStep E) (l : List (BuilderStep E))
      → length (change_last f l) ≡ length l
  length-change_last f [] = refl
  length-change_last f (s ∷ []) = refl
  length-change_last f (s ∷ t ∷ r) = omega (arith, length-change_last f (t ∷ r))

  pub put_first-StepOk :
      (s : BuilderStep E) (l : List (BuilderStep E))
      → StepOk s
      → All StepOk l
      → All StepOk (put_first s l)
  put_first-StepOk s [] ok' h = (ok', tt)
  put_first-StepOk s (t ∷ r) ok' h = (ok', h.1)

  pub length-put_first :
      (s : BuilderStep E) (l : List (BuilderStep E)) → length (put_first s l) ≤ length l + 1
  length-put_first s [] = omega arith
  length-put_first s (t ∷ r) = omega arith

  pub engine_step-repeat : (s : BuilderStep E) → (engine_step s).repeat ≡ repeat_of s
  engine_step-repeat (positive n p w c r f) = ground arith
  engine_step-repeat (negative n p w) = refl

  pub engine_steps-RepeatOk :
      (l : List (BuilderStep E)) → All StepOk l → All (λ s. RepeatOk s.repeat) (map engine_step l)
  engine_steps-RepeatOk [] h = tt
  engine_steps-RepeatOk (s ∷ r) h =
      (subst RepeatOk (sym (engine_step-repeat s)) h.0, engine_steps-RepeatOk r h.1)

  pub appended :
      (n : ℕ) (l : List (BuilderStep E)) (s : BuilderStep E)
      → All StepOk l
      → length l ≤ n
      → StepOk s
      → All StepOk (l ++ (s ∷ [])) × (length (l ++ (s ∷ [])) ≤ suc n)
  appended n l s h short ok' =
      (All-append StepOk l _ h (ok', tt), omega (arith, length-append l (s ∷ [])))

  pub times-StepOk :
      (low high : ℕ) (s : BuilderStep E)
      → low ≤ u64_max
      → high ≤ u64_max
      → StepOk s
      → let low' = if ltb low 1 then 1 else low in
        StepOk (set_repeat (record { min = low'; max = if ltb high low' then low' else high }) s)
  times-StepOk low high (positive n p w c r f) h k ok' = ground arith
  times-StepOk low high (negative n p w) h k ok' = tt

  pub set_within-StepOk : (ms : ℤ) (s : BuilderStep E) → StepOk s → StepOk (set_within ms s)
  set_within-StepOk ms (positive n p w c r f) h = h
  set_within-StepOk ms (negative n p w) h = h

  pub set_contiguity-StepOk :
      (k : Contiguity) (s : BuilderStep E) → StepOk s → StepOk (set_contiguity k s)
  set_contiguity-StepOk k (positive n p w c r f) h = h
  set_contiguity-StepOk k (negative n p w) h = h
