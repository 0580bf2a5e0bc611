-- ===== src/Cep/Sweep/Healthy.antt =====
-- The invariant of the runtime between two calls, and that the sweeps of `match_one` keep it.
use tflo.Prelude.{
  ℕ, suc, ◌+◌, ◌≤◌, ◌≡◌, refl, sym, ap, subst, not, Option, some, List, [], ◌∷◌, ◌++◌, length,
  length-append, get_elem?, get_elem?-some_of_lt, arith, All, All-append, inl, inr, Bool-cases,
  is_some_and, ◌>>=◌,
}
use tflo.Prelude.Int.{ℤ, ltb_ℤ}
use tflo.Cep.Match
use tflo.Cep.Match.{Captures}
use tflo.Cep.Step.{DropReason, deadline, Step, PartialMatch, Compiled}
use tflo.Cep.Language.{Accepted, absent}
use tflo.Cep.Runtime.{Runtime, note_drop, emit, max_partials}
use tflo.Cep.Advance.Sound.{Tracked}
use tflo.Cep.Sweep.{deadlines_one, deadlines_from, advance_deadlines}

module _ {ℓ} {E M : Type ℓ} where
  -- The runtime runs the pattern `c`, every partial is tracked, and with `n` more partials there are
  -- no more than 1024.
  pub record Healthy (c : Compiled E M) (n : ℕ) (rt : Runtime E M) : Type ℓ where
    pub compiled_eq : rt.compiled ≡ c
    pub tracked : All (Tracked c) rt.in_flight
    pub bounded : length rt.in_flight + n ≤ max_partials

  -- An emitted value is the callback's, at captures that the pattern accepts.
  abbrev pub Emitted : Compiled E M → M → Type ℓ
  Emitted c m = (caps : Captures E) × Accepted c caps × (m ≡ c.emit_fn (Match.new c.name caps))

  -- The call returns (it does not panic), in health, and all that it emitted is accepted.
  unfoldable pub Runs : Compiled E M → ℕ → Option (Runtime E M × List M) → Type ℓ
  Runs c n o = (r : Runtime E M × List M) × (o ≡ some r) × Healthy c n r.0 × All (Emitted c) r.1

  pub Runs-some :
      (c : Compiled E M) (n : ℕ) (rt : Runtime E M) (out : List M)
      → Healthy c n rt
      → All (Emitted c) out
      → Runs c n (some (rt, out))
  unfolding Runs
  Runs-some c n rt out h good = ((rt, out), refl, h, good)

  pub Runs-bind :
      (c : Compiled E M) (n k : ℕ) (o : Option (Runtime E M × List M))
      (f : Runtime E M × List M → Option (Runtime E M × List M))
      → Runs c n o
      → ((rt : Runtime E M) (out : List M)
          → Healthy c n rt
          → All (Emitted c) out
          → Runs c k (f (rt, out)))
      → Runs c k (o >>= f)
  unfolding Runs
  Runs-bind c n k o f (r, e, h, good) next = rw e (next r.0 r.1 h good)

  pub emit-Emitted :
      (c : Compiled E M) (c' : Compiled E M) (pm : PartialMatch E) (out : List M)
      → c' ≡ c
      → Accepted c pm.captures
      → All (Emitted c) out
      → All (Emitted c) (emit c' pm out)
  emit-Emitted c c' pm out same accepted good = All-append (Emitted c) out _ good (
    (
      pm.captures,
      accepted,
      ap (λ (k : Compiled E M). k.emit_fn (Match.new k.name pm.captures)) same,
    ),
    tt,
  )

  -- The step that a tracked partial waits for is there.
  pub step_at :
      (c : Compiled E M) (rt : Runtime E M) (pm : PartialMatch E)
      → rt.compiled ≡ c
      → Tracked c pm
      → (step : Step E) × (get_elem? c.steps pm.next_step ≡ some step)
        × (get_elem? rt.compiled.steps pm.next_step ≡ some step)
  step_at c rt pm same t =
      let (step, at) = get_elem?-some_of_lt c.steps pm.next_step t.waiting.1 in
      (
        step,
        at,
        subst (λ (k : Compiled E M). get_elem? k.steps pm.next_step ≡ some step) (sym same) at,
      )

  -- A partial that the sweep passes stays in flight.
  pub pass-Healthy :
      (c : Compiled E M) (n : ℕ) (rt : Runtime E M) (pm : PartialMatch E)
      → Healthy c (suc n) rt
      → Tracked c pm
      → Healthy c n (record rt { in_flight = rt.in_flight ++ (pm ∷ []) })
  pass-Healthy c n rt pm h t = record {
    compiled_eq = h.compiled_eq;
    tracked = All-append (Tracked c) rt.in_flight _ h.tracked (t, tt);
    bounded = omega (arith, h.bounded, length-append rt.in_flight (pm ∷ []));
  }

  fewer-Healthy :
      (c : Compiled E M) (n : ℕ) (rt : Runtime E M) → Healthy c (suc n) rt → Healthy c n rt
  fewer-Healthy c n rt h = record {
    compiled_eq = h.compiled_eq;
    tracked = h.tracked;
    bounded = omega (arith, h.bounded);
  }

  pub note_drop-Healthy :
      (c : Compiled E M) (n : ℕ) (rt : Runtime E M) (reason : DropReason)
      → Healthy c n rt
      → Healthy c n (note_drop rt reason)
  note_drop-Healthy c n rt reason h = record {
    compiled_eq = h.compiled_eq;
    tracked = h.tracked;
    bounded = h.bounded;
  }

  deadlines_one-Runs :
      (c : Compiled E M) (n : ℕ) (rt : Runtime E M) (ts : ℤ) (pm : PartialMatch E) (out : List M)
      → Healthy c (suc n) rt
      → Tracked c pm
      → All (Emitted c) out
      → Runs c n (deadlines_one rt ts pm out)
  unfolding deadlines_one
  deadlines_one-Runs c n rt ts pm out h t good =
      elim (Bool-cases (not (is_some_and pm.deadline_ts (λ d. ltb_ℤ d ts)))) [
        | inl alive ↦ rw alive (Runs-some c n _ out (pass-Healthy c n rt pm h t) good)
        | inr expired ↦
            let (step, at, at') = step_at c rt pm h.compiled_eq t in
            rw (expired, at')
              (elim (Bool-cases step.is_negative) [
                | inl neg ↦ rw neg (
                    Runs-some c n rt _ (fewer-Healthy c n rt h) (
                      emit-Emitted c rt.compiled pm out h.compiled_eq (absent step t.run at neg)
                        good))
                | inr pos ↦ rw pos (
                    Runs-some c n _ out (note_drop-Healthy c n rt deadline (fewer-Healthy c n rt h))
                      good)
              ])
      ]

  deadlines_from-Runs :
      (c : Compiled E M) (rt : Runtime E M) (ts : ℤ) (pms : List (PartialMatch E)) (out : List M)
      → Healthy c (length pms) rt
      → All (Tracked c) pms
      → All (Emitted c) out
      → Runs c 0 (deadlines_from rt ts pms out)
  unfolding deadlines_from
  deadlines_from-Runs c rt ts [] out h t good = Runs-some c 0 rt out h good
  deadlines_from-Runs c rt ts (pm ∷ pms) out h t good =
      Runs-bind c (length pms) 0 (deadlines_one rt ts pm out) _
        (deadlines_one-Runs c (length pms) rt ts pm out h t.0 good)
        (λ rt' out' h' good'. deadlines_from-Runs c rt' ts pms out' h' t.1 good')

  pub advance_deadlines-Runs :
      (c : Compiled E M) (rt : Runtime E M) (ts : ℤ) (out : List M)
      → Healthy c 0 rt
      → All (Emitted c) out
      → Runs c 0 (advance_deadlines rt ts out)
  unfolding advance_deadlines
  advance_deadlines-Runs c rt ts out h good =
      deadlines_from-Runs c (record rt { in_flight = [] }) ts rt.in_flight out
        (record { compiled_eq = h.compiled_eq; tracked = tt; bounded = omega (arith, h.bounded) })
        h.tracked good
