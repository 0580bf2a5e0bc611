-- ===== src/Cep/Sweep/Keeps.antt =====
-- `match_one` and the loops over released events keep the runtime healthy.
use tflo.Prelude.{
  ℕ, suc, ◌+◌, ◌≤◌, ◌<◌, ◌≡◌, refl, sym, subst, some, List, [], ◌∷◌, ◌++◌, length, length-append,
  get_elem?, get_elem?-some_of_lt, arith, All, All-append, inl, inr, Bool-cases, ltb, ◌==◌,
}
use tflo.Prelude.Int.{ℤ}
use tflo.Cep.Step.{late, PartialMatch, Disposition, keep, remove, complete, Compiled}
use tflo.Cep.Valid.{IsValid}
use tflo.Cep.Language.{Captured, start, all_steps}
use tflo.Cep.Runtime.{Runtime, note_drop, open_partial, max_partials}
use tflo.Cep.Advance.{advance_one}
use tflo.Cep.Advance.Bound.{advance_one_total}
use tflo.Cep.Advance.Sound.{Tracked, Outcome, advance_one_sound, fresh-HasRoom}
use tflo.Cep.Sweep.{
  advance_deadlines, settle, partials_from, advance_partials, opened, try_open_new, match_one,
  match_all, note_late,
}
use tflo.Cep.Sweep.Healthy.{
  Healthy, Emitted, Runs, Runs-some, Runs-bind, emit-Emitted, note_drop-Healthy,
  advance_deadlines-Runs,
}

module _ {ℓ} {E M : Type ℓ} (c : Compiled E M) (v : IsValid c) where
  -- What `settle` makes of a sound outcome.
  Settled : ℕ → List (PartialMatch E) × List M → Type ℓ
  Settled n r = All (Tracked c) r.0 × (length r.0 ≤ n) × All (Emitted c) r.1

  settle-Settled :
      (c' : Compiled E M) (n : ℕ) (r : Disposition × PartialMatch E)
      (later : List (PartialMatch E) × List M)
      → c' ≡ c
      → Outcome c r
      → Settled n later
      → Settled (suc n) (settle c' r later)
  unfolding Settled
  settle-Settled c' n (keep, pm) later same h (t, len, good) = ((h, t), omega arith, good)
  settle-Settled c' n (remove, pm) later same h (t, len, good) = (t, omega arith, good)
  settle-Settled c' n (complete, pm) later same h (t, len, good) =
      (t, omega arith, emit-Emitted c c' pm later.1 same h good)

  partials_from-Settled :
      (c' : Compiled E M) (event : E) (ts : ℤ) (pms : List (PartialMatch E)) (out : List M)
      → c' ≡ c
      → All (Tracked c) pms
      → All (Emitted c) out
      → (r : List (PartialMatch E) × List M) × (partials_from c' event ts pms out ≡ some r)
        × Settled (length pms) r
  unfolding partials_from Settled
  partials_from-Settled c' event ts [] out same t good = (([], out), refl, (tt, omega arith, good))
  partials_from-Settled c' event ts (pm ∷ pms) out same t good =
      let (later, e, settled) = partials_from-Settled c' event ts pms out same t.1 good in
      let (r, one, _) = advance_one_total c pm event ts v.fits t.0.waiting.1 in
      let one' = subst (λ k. advance_one k pm event ts ≡ some r) (sym same) one in
      (
        settle c' r later,
        rw (e, one') refl,
        settle-Settled c' (length pms) r later same (advance_one_sound c pm event ts r v t.0 one)
            settled,
      )

  advance_partials-Runs :
      (rt : Runtime E M) (event : E) (ts : ℤ) (out : List M)
      → Healthy c 0 rt
      → All (Emitted c) out
      → Runs c 0 (advance_partials rt event ts out)
  unfolding advance_partials Settled
  advance_partials-Runs rt event ts out h good =
      let (r, e, (t, len, good')) =
        partials_from-Settled rt.compiled event ts rt.in_flight out h.compiled_eq h.tracked good in
      rw e (
        Runs-some c 0 _ r.1
          (record { compiled_eq = h.compiled_eq; tracked = t; bounded = omega (arith, h.bounded) })
          good')

  open_partial-Healthy :
      (rt : Runtime E M) (pm : PartialMatch E)
      → Healthy c 0 rt
      → Tracked c pm
      → Healthy c 0 (open_partial rt pm)
  unfolding open_partial
  open_partial-Healthy rt pm h t = go rt.in_flight h.tracked h.bounded
    where
      go :
          (old : List (PartialMatch E))
          → All (Tracked c) old
          → length old + 0 ≤ max_partials
          → Healthy c 0 (open_partial (record rt { in_flight = old }) pm)
      go [] all fits = record {
        compiled_eq = h.compiled_eq;
        tracked = (t, tt);
        bounded = omega arith;
      }
      go (p ∷ rest) all fits =
          elim (Bool-cases (ltb max_partials (suc (length (rest ++ (pm ∷ [])))))) [
            | inl full ↦ rw full (record {
              compiled_eq = h.compiled_eq;
              tracked = All-append (Tracked c) rest _ all.1 (t, tt);
              bounded = omega (arith, length-append rest (pm ∷ []));
            })
            | inr room ↦ rw room (record {
              compiled_eq = h.compiled_eq;
              tracked = (all.0, All-append (Tracked c) rest _ all.1 (t, tt));
              bounded = ground arith;
            })
          ]

  try_open_new-Runs :
      (rt : Runtime E M) (event : E) (ts : ℤ) (out : List M)
      → Healthy c 0 rt
      → All (Emitted c) out
      → Runs c 0 (try_open_new rt event ts out)
  unfolding try_open_new
  try_open_new-Runs rt event ts out h good =
      let (step, at) = get_elem?-some_of_lt c.steps 0 v.nonempty in
      let back : (k : Compiled E M) → c ≡ k → get_elem? k.steps 0 ≡ some step =
        λ k same. subst (λ (k' : Compiled E M). get_elem? k'.steps 0 ≡ some step) same at in
      let pm = opened rt.compiled step.name event ts in
      rw (back rt.compiled (sym h.compiled_eq), try_open_new)
        (elim (Bool-cases (step.predicate.evaluate event)) [
          | inr miss ↦ rw miss (Runs-some c 0 rt out h good)
          | inl hit ↦
              let run : Captured c 1 0 ((step.name, event) ∷ []) = start step event at hit in
              rw hit (elim (Bool-cases (length rt.compiled.steps == 1)) [
                | inl single ↦
                    let whole : length c.steps ≤ 1 =
                      subst (λ (k : Compiled E M). length k.steps ≤ 1) h.compiled_eq
                        (ground arith) in
                    rw single (
                      Runs-some c 0 rt _ h (
                        emit-Emitted c rt.compiled pm out h.compiled_eq (all_steps run whole) good))
                | inr several ↦
                    let longer : 1 < length c.steps =
                      subst (λ (k : Compiled E M). 1 < length k.steps) h.compiled_eq
                        (ground (arith, back rt.compiled (sym h.compiled_eq))) in
                    rw several (
                      Runs-some c 0 _ out
                        (open_partial-Healthy rt pm h (record {
                          waiting = (omega arith, longer);
                          run = run;
                          room = fresh-HasRoom c 1 v;
                        }))
                        good)
              ])
        ])

  pub match_one-Runs :
      (rt : Runtime E M) (event : E) (ts : ℤ) (out : List M)
      → Healthy c 0 rt
      → All (Emitted c) out
      → Runs c 0 (match_one rt event ts out)
  unfolding match_one
  match_one-Runs rt event ts out h good =
      Runs-bind c 0 0 (advance_deadlines rt ts out) _ (advance_deadlines-Runs c rt ts out h good)
        λ rt₁ out₁ h₁ good₁.
          Runs-bind c 0 0 (advance_partials rt₁ event ts out₁) _
            (advance_partials-Runs rt₁ event ts out₁ h₁ good₁)
            λ rt₂ out₂ h₂ good₂. try_open_new-Runs rt₂ event ts out₂ h₂ good₂

  pub match_all-Runs :
      (rt : Runtime E M) (released : List (ℤ × E)) (out : List M)
      → Healthy c 0 rt
      → All (Emitted c) out
      → Runs c 0 (match_all rt released out)
  unfolding match_all
  match_all-Runs rt [] out h good = Runs-some c 0 rt out h good
  match_all-Runs rt ((ts, event) ∷ released) out h good =
      Runs-bind c 0 0 (match_one rt event ts out) _ (match_one-Runs rt event ts out h good)
        λ rt' out' h' good'. match_all-Runs rt' released out' h' good'

  pub note_late-Healthy :
      (rt : Runtime E M) (lates : List (ℤ × E)) → Healthy c 0 rt → Healthy c 0 (note_late rt lates)
  unfolding note_late
  note_late-Healthy rt [] h = h
  note_late-Healthy rt (_ ∷ rest) h =
      note_late-Healthy (note_drop rt late) rest (note_drop-Healthy c 0 rt late h)
