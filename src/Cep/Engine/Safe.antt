-- ===== src/Cep/Engine/Safe.antt =====
-- Every sequence of calls on a runtime returns, keeps the set of partial matches bounded, and emits
-- only matches that the pattern accepts.
use tflo.Prelude.{
  ℕ, suc, ◌≤◌, ◌≡◌, refl, subst, true, not, ◌&&◌, ◌||◌, Option, none, some, List, [], ◌∷◌, ◌++◌,
  length, get_elem?, arith, All, All-append, All-map, inl, inr, Bool-cases, Option-cases,
  is_some_and, leb,
}
use tflo.Prelude.Int.{ℤ}
use tflo.Prelude.I64.{sat_add_u64}
use tflo.Core.Reorder
use tflo.Core.Reorder.{ReorderBuffer}
use tflo.Cep.Step.{Step, PartialMatch, Compiled}
use tflo.Cep.Valid.{IsValid, IsWaiting}
use tflo.Cep.Language.{Accepted, leave, all_steps, absent}
use tflo.Cep.Runtime.{Runtime, new, max_partials}
use tflo.Cep.Sweep.Healthy.{
  Healthy, Emitted, Runs, Runs-some, Runs-bind, emit-Emitted, step_at, pass-Healthy,
  advance_deadlines-Runs,
}
use tflo.Cep.Sweep.Keeps.{match_one-Runs, match_all-Runs, note_late-Healthy}
use tflo.Cep.Advance.Sound.{Tracked}
use tflo.Cep.Engine.{push_through, push_at, push, flush_one, flush_from, drain_reorder, flush, tick}
use tflo.Cep.Engine.Calls.{Call, event, event_at, clock, end, clear, observe, call, run}

module _ {ℓ} {E M : Type ℓ} (c : Compiled E M) (v : IsValid c) where
  reorder-Healthy :
      (rt : Runtime E M) (buf : Option (ReorderBuffer E))
      → Healthy c 0 rt
      → Healthy c 0 (record rt { reorder = buf })
  reorder-Healthy rt buf h = record {
    compiled_eq = h.compiled_eq;
    tracked = h.tracked;
    bounded = h.bounded;
  }

  push_through-Runs :
      (buf : Option (ReorderBuffer E)) (rt : Runtime E M) (e : E) (ts : ℤ)
      → Healthy c 0 rt
      → Runs c 0 (push_through buf rt e ts)
  unfolding push_through
  push_through-Runs none rt e ts h = match_one-Runs c v rt e ts [] h tt
  push_through-Runs (some buf) rt e ts h =
      match_all-Runs c v _ _ [] (note_late-Healthy c v _ _ (reorder-Healthy rt _ h)) tt

  push_at-Runs : (rt : Runtime E M) (e : E) (ts : ℤ) → Healthy c 0 rt → Runs c 0 (push_at rt e ts)
  unfolding push_at
  push_at-Runs rt e ts h = push_through-Runs rt.reorder rt e ts h

  push-Runs : (rt : Runtime E M) (e : E) → Healthy c 0 rt → Runs c 0 (push rt e)
  unfolding push
  push-Runs rt e h = push_at-Runs rt e _ h

  drain_reorder-Runs :
      (take : ReorderBuffer E → ReorderBuffer E × List (ℤ × E)) (buf : Option (ReorderBuffer E))
      (rt : Runtime E M)
      → Healthy c 0 rt
      → Runs c 0 (drain_reorder take buf rt)
  unfolding drain_reorder
  drain_reorder-Runs take none rt h = Runs-some c 0 rt [] h tt
  drain_reorder-Runs take (some buf) rt h = match_all-Runs c v _ _ [] (reorder-Healthy rt _ h) tt

  tick-Runs : (rt : Runtime E M) (now : ℤ) → Healthy c 0 rt → Runs c 0 (tick rt now)
  unfolding tick
  tick-Runs rt now h =
      Runs-bind c 0 0 (drain_reorder (λ buf. Reorder.advance_watermark buf now) rt.reorder rt) _
        (drain_reorder-Runs _ rt.reorder rt h)
        λ rt' out h' good. advance_deadlines-Runs c rt' now out h' good

  fewer : (n : ℕ) (rt : Runtime E M) → Healthy c (suc n) rt → Healthy c n rt
  fewer n rt h = record {
    compiled_eq = h.compiled_eq;
    tracked = h.tracked;
    bounded = omega (arith, h.bounded);
  }

  -- What `flush_one` completes is accepted: what is left is a negative, or a last repeat with enough.
  flushed-Accepted :
      (rt : Runtime E M) (pm : PartialMatch E) (step : Step E)
      → rt.compiled ≡ c
      → Tracked c pm
      → get_elem? c.steps pm.next_step ≡ some step
      → step.is_negative
          || (not step.is_negative
              && (leb (length rt.compiled.steps) (sat_add_u64 pm.next_step 1)
                  && is_some_and step.repeat (λ spec. leb spec.min pm.repeat_count)))
        ≡ true
      → Accepted c pm.captures
  flushed-Accepted rt pm step same t at done = elim (Bool-cases step.is_negative) [
    | inl neg ↦ absent step t.run at neg
    | inr pos ↦ elim (Option-cases step.repeat) [
      | inl plain ↦ absurd (ground arith)
      | inr (spec, rep) ↦
          let whole : length rt.compiled.steps ≤ suc pm.next_step = ground arith in
          let whole' : length c.steps ≤ suc pm.next_step =
            subst (λ (k : Compiled E M). length k.steps ≤ suc pm.next_step) same whole in
          all_steps (leave step spec t.run at pos rep (ground arith)) whole'
    ]
  ]

  flush_one-Runs :
      (n : ℕ) (rt : Runtime E M) (pm : PartialMatch E) (out : List M)
      → Healthy c (suc n) rt
      → Tracked c pm
      → All (Emitted c) out
      → Runs c n (flush_one rt pm out)
  unfolding flush_one
  flush_one-Runs n rt pm out h t good =
      let (step, at, at') = step_at c rt pm h.compiled_eq t in
      rw (at', flush_one)
        (elim (Bool-cases (
          step.is_negative
          || (not step.is_negative
              && (leb (length rt.compiled.steps) (sat_add_u64 pm.next_step 1)
                  && is_some_and step.repeat (λ spec. leb spec.min pm.repeat_count))))) [
                    | inl done ↦ rw done (
                        Runs-some c n rt _ (fewer n rt h) (
                          emit-Emitted c rt.compiled pm out h.compiled_eq
                            (flushed-Accepted rt pm step h.compiled_eq t at done) good))
                    | inr stays ↦ rw stays (Runs-some c n _ out (pass-Healthy c n rt pm h t) good)
                  ])

  flush_from-Runs :
      (rt : Runtime E M) (pms : List (PartialMatch E)) (out : List M)
      → Healthy c (length pms) rt
      → All (Tracked c) pms
      → All (Emitted c) out
      → Runs c 0 (flush_from rt pms out)
  unfolding flush_from
  flush_from-Runs rt [] out h t good = Runs-some c 0 rt out h good
  flush_from-Runs rt (pm ∷ pms) out h t good =
      Runs-bind c (length pms) 0 (flush_one rt pm out) _
        (flush_one-Runs (length pms) rt pm out h t.0 good)
        λ rt' out' h' good'. flush_from-Runs rt' pms out' h' t.1 good'

  flush-Runs : (rt : Runtime E M) → Healthy c 0 rt → Runs c 0 (flush rt)
  unfolding flush
  flush-Runs rt h =
      Runs-bind c 0 0 (drain_reorder Reorder.flush rt.reorder rt) _
        (drain_reorder-Runs _ rt.reorder rt h)
        λ rt' out h' good.
          flush_from-Runs (record rt' { in_flight = [] }) rt'.in_flight out
            (record {
              compiled_eq = h'.compiled_eq;
              tracked = tt;
              bounded = omega (arith, h'.bounded);
            })
            h'.tracked good

  call-Runs : (rt : Runtime E M) (k : Call E) → Healthy c 0 rt → Runs c 0 (call rt k)
  call-Runs rt (event e) h = push-Runs rt e h
  call-Runs rt (event_at e ts) h = push_at-Runs rt e ts h
  call-Runs rt (clock now) h = tick-Runs rt now h
  call-Runs rt end h = flush-Runs rt h
  call-Runs rt clear h =
      Runs-some c 0 _ []
        (record { compiled_eq = h.compiled_eq; tracked = tt; bounded = omega arith }) tt
  call-Runs rt observe h =
      Runs-some c 0 _ []
        (record { compiled_eq = h.compiled_eq; tracked = h.tracked; bounded = h.bounded }) tt

  run-Runs :
      (rt : Runtime E M) (ks : List (Call E)) (out : List M)
      → Healthy c 0 rt
      → All (Emitted c) out
      → Runs c 0 (run rt ks out)
  unfolding run
  run-Runs rt [] out h good = Runs-some c 0 rt out h good
  run-Runs rt (k ∷ ks) out h good =
      Runs-bind c 0 0 (call rt k) _ (call-Runs rt k h) λ rt' more h' good'.
        run-Runs rt' ks (out ++ more) h' (All-append (Emitted c) out more good good')

  new-Healthy : (buf : Option (ReorderBuffer E)) → Healthy c 0 (record (new c) { reorder = buf })
  unfolding new
  new-Healthy buf = record { compiled_eq = refl; tracked = tt; bounded = omega arith }

  -- For a valid pattern, a new runtime, with or without a reorder buffer, returns from every sequence
  -- of calls without an index out of range. It then holds at most 1024 partial matches, each waiting
  -- for a step of the pattern.
  pub run_returns :
      (buf : Option (ReorderBuffer E)) (ks : List (Call E))
      → (r : Runtime E M × List M) × (run (record (new c) { reorder = buf }) ks [] ≡ some r)
        × (length r.0.in_flight ≤ max_partials)
        × All (IsWaiting c) r.0.in_flight
  unfolding Runs
  run_returns buf ks =
      let (r, e, h, good) = run-Runs _ ks [] (new-Healthy buf) tt in
      (
        r,
        e,
        omega (arith, h.bounded),
        All-map (Tracked c) (IsWaiting c) r.0.in_flight (λ pm t. t.waiting) h.tracked,
      )

  -- For a valid pattern, whatever calls are made on a new runtime, with or without a reorder buffer,
  -- each value that it emits is the emit callback's at captures that the pattern accepts.
  pub run_emits_accepted :
      (buf : Option (ReorderBuffer E)) (ks : List (Call E))
      → (r : Runtime E M × List M) × (run (record (new c) { reorder = buf }) ks [] ≡ some r)
        × All (Emitted c) r.1
  unfolding Runs
  run_emits_accepted buf ks =
      let (r, e, h, good) = run-Runs _ ks [] (new-Healthy buf) tt in (r, e, good)
