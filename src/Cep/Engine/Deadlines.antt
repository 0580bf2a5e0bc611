-- ===== src/Cep/Engine/Deadlines.antt =====
-- tflo-cep/src/engine.rs: the deadline sweep of a tick, what it emits, drops and keeps.
use tflo.Prelude.{
  ◌+◌, ◌≤◌, ◌<◌, ◌≡◌, refl, sym, ◌∙◌, ap, subst, Bool, true, false, not, ◌&&◌, Option, none, some,
  List, [], ◌∷◌, ◌++◌, map, length, get_elem?, get_elem?-some_of_lt, arith, if◌then◌else◌, All, inl,
  inr, Bool-cases, is_some_and, ◌>>=◌, retain, append-nil, append_assoc, min,
}
use tflo.Prelude.Int.{ℤ, ltb_ℤ}
use tflo.Prelude.I64.{u64_max}
use tflo.Core.Reorder
use tflo.Cep.Match
use tflo.Cep.Step.{deadline, PartialMatch, Compiled}
use tflo.Cep.Valid.{IsWaiting}
use tflo.Cep.Runtime.{Runtime, note_drop, emit}
use tflo.Cep.Sweep.{deadlines_one, deadlines_from, advance_deadlines}
use tflo.Cep.Engine.{drain_reorder, tick}

-- The partial's deadline lies before `ts`.
abbrev pub is_expired {ℓ} : {E : Type ℓ} → ℤ → PartialMatch E → Bool
is_expired ts pm = is_some_and pm.deadline_ts (λ d. ltb_ℤ d ts)

retain_alive {ℓ} :
    {E : Type ℓ} (ts : ℤ) (pms : List (PartialMatch E))
    → All (λ pm. is_expired ts pm ≡ false) (retain (λ pm. not (is_expired ts pm)) pms)
retain_alive ts [] = tt
retain_alive ts (pm ∷ pms) = elim (Bool-cases (is_expired ts pm)) [
  | inl old ↦ rw old (retain_alive ts pms)
  | inr young ↦ rw young (young, retain_alive ts pms)
]

module _ {ℓ} {E M : Type ℓ} where
  -- The partial waits for a negative step.
  abbrev pub awaits_absence : Compiled E M → PartialMatch E → Bool
  awaits_absence c pm = is_some_and (get_elem? c.steps pm.next_step) (λ step. step.is_negative)

  abbrev pub emitted : Compiled E M → List (PartialMatch E) → List M
  emitted c = map (λ pm. c.emit_fn (Match.new c.name pm.captures))

  abbrev pub fired : Compiled E M → ℤ → List (PartialMatch E) → List (PartialMatch E)
  fired c ts = retain (λ pm. is_expired ts pm && awaits_absence c pm)

  abbrev pub missed : Compiled E M → ℤ → List (PartialMatch E) → List (PartialMatch E)
  missed c ts = retain (λ pm. is_expired ts pm && not (awaits_absence c pm))

  -- What the sweep over `pms` makes of `rt` and `out`.
  pub record Swept (c : Compiled E M) (ts : ℤ) (pms : List (PartialMatch E)) (rt : Runtime E M)
      (out : List M) (r : Runtime E M × List M) : Type ℓ where
    pub same : r.0.compiled ≡ c
    pub buffer : r.0.reorder ≡ rt.reorder
    pub kept : r.0.in_flight ≡ rt.in_flight ++ retain (λ pm. not (is_expired ts pm)) pms
    pub sent : r.1 ≡ out ++ emitted c (fired c ts pms)
    pub lost : r.0.dropped ≡ min (rt.dropped + length (missed c ts pms)) u64_max

  deadlines_one-alive :
      (rt : Runtime E M) (ts : ℤ) (pm : PartialMatch E) (out : List M)
      → is_expired ts pm ≡ false
      → deadlines_one rt ts pm out ≡ some (record rt { in_flight = rt.in_flight ++ (pm ∷ []) }, out)
  unfolding deadlines_one
  deadlines_one-alive rt ts pm out alive = rw (alive, deadlines_one)

  deadlines_one-expired :
      (c : Compiled E M) (rt : Runtime E M) (ts : ℤ) (pm : PartialMatch E) (out : List M)
      → rt.compiled ≡ c
      → pm.next_step < length c.steps
      → is_expired ts pm ≡ true
      → deadlines_one rt ts pm out
        ≡ some (if awaits_absence c pm then (rt, emit c pm out) else (note_drop rt deadline, out))
  unfolding deadlines_one
  deadlines_one-expired c rt ts pm out same lt expired =
      let (step, at) = get_elem?-some_of_lt c.steps pm.next_step lt in
      let at' =
        subst (λ (k : Compiled E M). get_elem? k.steps pm.next_step ≡ some step) (sym same) at in
      rw (expired, at', at, deadlines_one)
        (ap
          (λ (k : Compiled E M).
            some (if step.is_negative then (rt, emit k pm out) else (note_drop rt deadline, out)))
          same)

  deadlines_from-Swept :
      (c : Compiled E M) (ts : ℤ) (pms : List (PartialMatch E)) (rt : Runtime E M) (out : List M)
      → rt.compiled ≡ c
      → rt.dropped ≤ u64_max
      → All (IsWaiting c) pms
      → (r : Runtime E M × List M) × (deadlines_from rt ts pms out ≡ some r)
        × Swept c ts pms rt out r
  unfolding deadlines_from
  deadlines_from-Swept c ts [] rt out same small w = (
    (rt, out),
    refl,
    record {
      same = same;
      buffer = refl;
      kept = sym (append-nil rt.in_flight);
      sent = sym (append-nil out);
      lost = omega arith;
    },
  )
  deadlines_from-Swept c ts (pm ∷ pms) rt out same small w = elim (Bool-cases (is_expired ts pm)) [
    | inr alive ↦
        let rt' = record rt { in_flight = rt.in_flight ++ (pm ∷ []) } in
        let (r, e, s) = deadlines_from-Swept c ts pms rt' out same small w.1 in
        (
          r,
          rw (deadlines_one-alive rt ts pm out alive) e,
          record {
            same = s.same;
            buffer = s.buffer;
            kept = rw alive (s.kept ∙ append_assoc rt.in_flight (pm ∷ []) _);
            sent = rw alive s.sent;
            lost = rw alive s.lost;
          },
        )
    | inl expired ↦
        let one = deadlines_one-expired c rt ts pm out same w.0.1 expired in
        elim (Bool-cases (awaits_absence c pm)) [
          | inl absence ↦
              let (r, e, s) = deadlines_from-Swept c ts pms rt (emit c pm out) same small w.1 in
              (
                r,
                rw (one, absence) e,
                record {
                  same = s.same;
                  buffer = s.buffer;
                  kept = rw expired s.kept;
                  sent = rw (expired, absence) (s.sent ∙ append_assoc out _ _);
                  lost = rw (expired, absence) s.lost;
                },
              )
          | inr positive ↦
              let (r, e, s) =
                deadlines_from-Swept c ts pms (note_drop rt deadline) out same (omega arith) w.1 in
              (
                r,
                rw (one, positive) e,
                record {
                  same = s.same;
                  buffer = s.buffer;
                  kept = rw expired s.kept;
                  sent = rw (expired, positive) s.sent;
                  lost = rw (expired, positive) (s.lost ∙ omega arith);
                },
              )
        ]
  ]

  pub advance_deadlines-Swept :
      (rt : Runtime E M) (ts : ℤ) (out : List M)
      → rt.dropped ≤ u64_max
      → All (IsWaiting rt.compiled) rt.in_flight
      → (r : Runtime E M × List M) × (advance_deadlines rt ts out ≡ some r)
        × Swept rt.compiled ts rt.in_flight (record rt { in_flight = [] }) out r
  unfolding advance_deadlines
  advance_deadlines-Swept rt ts out small w =
      deadlines_from-Swept rt.compiled ts rt.in_flight (record rt { in_flight = [] }) out refl small
        w

  tick-off :
      (rt : Runtime E M) (now : ℤ) → rt.reorder ≡ none → tick rt now ≡ advance_deadlines rt now []
  unfolding tick drain_reorder
  tick-off rt now off =
      ap (λ buf. drain_reorder (λ b. Reorder.advance_watermark b now) buf rt >>= sweep) off
    where
      sweep : Runtime E M × List M → Option (Runtime E M × List M)
      sweep (rt', out) = advance_deadlines rt' now out

  -- Without a reorder buffer, a tick sorts the partial matches by their deadlines alone. Those whose
  -- deadline is not before `now` stay, in order. Of the others, those that wait for a negative step
  -- are emitted, in order, and the rest are counted as dropped.
  pub tick_lem :
      (rt : Runtime E M) (now : ℤ)
      → rt.reorder ≡ none
      → rt.dropped ≤ u64_max
      → All (IsWaiting rt.compiled) rt.in_flight
      → (r : Runtime E M × List M) × (tick rt now ≡ some r)
        × (r.0.in_flight ≡ retain (λ pm. not (is_expired now pm)) rt.in_flight)
        × (r.1
            ≡ emitted rt.compiled
                (retain (λ pm. is_expired now pm && awaits_absence rt.compiled pm) rt.in_flight))
        × (r.0.dropped
            ≡ min
                (rt.dropped
                  + length (
                      retain
                        (λ pm. is_expired now pm && not (awaits_absence rt.compiled pm))
                        rt.in_flight))
                u64_max)
  tick_lem rt now off small w =
      let (r, e, s) = advance_deadlines-Swept rt now [] small w in
      (r, tick-off rt now off ∙ e, s.kept, s.sent, s.lost)

  -- A sweep that meets no expired partial changes nothing.
  deadlines_from-alive :
      (rt : Runtime E M) (ts : ℤ) (pms : List (PartialMatch E)) (out : List M)
      → All (λ pm. is_expired ts pm ≡ false) pms
      → deadlines_from rt ts pms out ≡ some (record rt { in_flight = rt.in_flight ++ pms }, out)
  unfolding deadlines_from
  deadlines_from-alive rt ts [] out h =
      ap (λ pms. some (record rt { in_flight = pms }, out)) (sym (append-nil rt.in_flight))
  deadlines_from-alive rt ts (pm ∷ pms) out h = rw (deadlines_one-alive rt ts pm out h.0) (
      deadlines_from-alive (record rt { in_flight = rt.in_flight ++ (pm ∷ []) }) ts pms out h.1
      ∙ ap (λ kept. some (record rt { in_flight = kept }, out))
          (append_assoc rt.in_flight (pm ∷ []) pms))

  pub tick-alive :
      (rt : Runtime E M) (now : ℤ)
      → rt.reorder ≡ none
      → All (λ pm. is_expired now pm ≡ false) rt.in_flight
      → tick rt now ≡ some (rt, [])
  unfolding advance_deadlines
  tick-alive rt now off h =
      tick-off rt now off
      ∙ deadlines_from-alive (record rt { in_flight = [] }) now rt.in_flight [] h

  -- Without a reorder buffer, a second tick at the same time emits nothing and changes nothing.
  tick_idempotent :
      (rt : Runtime E M) (now : ℤ)
      → rt.reorder ≡ none
      → rt.dropped ≤ u64_max
      → All (IsWaiting rt.compiled) rt.in_flight
      → (r : Runtime E M × List M) × (tick rt now ≡ some r) × (tick r.0 now ≡ some (r.0, []))
  tick_idempotent rt now off small w =
      let (r, e, s) = advance_deadlines-Swept rt now [] small w in
      (
        r,
        tick-off rt now off ∙ e,
        tick-alive r.0 now (s.buffer ∙ off) (
            subst (All (λ pm. is_expired now pm ≡ false)) (sym s.kept)
              (retain_alive now rt.in_flight)),
      )
