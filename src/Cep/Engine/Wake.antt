-- ===== src/Cep/Engine/Wake.antt =====
-- tflo-cep/src/engine.rs: `next_deadline` against the tick that a driver schedules by it.
use tflo.Prelude.{
  ◌≤◌, ◌<◌, ◌≡◌, refl, sym, ◌∙◌, subst, false, not, Option, none, some, List, [], ◌∷◌, length,
  arith, All, inl, inr, Option-cases, is_some_and, retain,
}
use tflo.Prelude.Int.{ℤ, ◌≤ℤ◌, ◌<ℤ◌, ltb_ℤ}
use tflo.Prelude.I64.{u64_max}
use tflo.Cep.Step.{PartialMatch}
use tflo.Cep.Valid.{IsWaiting}
use tflo.Cep.Runtime.{Runtime, min_deadline, next_deadline, earlier}
use tflo.Cep.Engine.{tick}
use tflo.Cep.Engine.Deadlines.{is_expired, tick-alive, tick_lem}

-- No instant before `d`, where there is one.
abbrev NotAfter : ℤ → Option ℤ → Type 0
NotAfter now none = Unit
NotAfter now (some d) = now ≤ℤ d

NotAfter-earlier :
    (now : ℤ) (a b : Option ℤ) → NotAfter now (earlier a b) → NotAfter now a × NotAfter now b
NotAfter-earlier now none none h = (tt, tt)
NotAfter-earlier now none (some b) h = (tt, h)
NotAfter-earlier now (some a) none h = (h, tt)
NotAfter-earlier now (some a) (some b) h = ground arith

not_expired {ℓ} :
    {E : Type ℓ} (now : ℤ) (pm : PartialMatch E)
    → NotAfter now pm.deadline_ts
    → is_expired now pm ≡ false
not_expired now pm h = go pm.deadline_ts h
  where
    go : (d : Option ℤ) → NotAfter now d → is_some_and d (λ d'. ltb_ℤ d' now) ≡ false
    go none le = refl
    go (some d) le = ground arith

none_expired {ℓ} :
    {E : Type ℓ} (now : ℤ) (pms : List (PartialMatch E))
    → NotAfter now (min_deadline pms)
    → All (λ pm. is_expired now pm ≡ false) pms
none_expired now [] h = tt
none_expired now (pm ∷ pms) h =
    let (here, later) = NotAfter-earlier now pm.deadline_ts (min_deadline pms) h in
    (not_expired now pm here, none_expired now pms later)

length-alive {ℓ} :
    {E : Type ℓ} (now : ℤ) (pms : List (PartialMatch E))
    → length (retain (λ pm. not (is_expired now pm)) pms) ≤ length pms
length-alive now [] = omega arith
length-alive now (pm ∷ pms) = ground (arith, length-alive now pms)

some_expire {ℓ} :
    {E : Type ℓ} (now d : ℤ) (pms : List (PartialMatch E))
    → min_deadline pms ≡ some d
    → d <ℤ now
    → length (retain (λ pm. not (is_expired now pm)) pms) < length pms
some_expire now d [] e lt = cc
some_expire now d (pm ∷ pms) e lt = elim (Option-cases (min_deadline pms)) [
  | inl last ↦ ground (arith, length-alive now pms)
  | inr (d', later) ↦ ground (arith, length-alive now pms, some_expire now d' pms later)
]

module _ {ℓ} {E M : Type ℓ} where
  next_deadline-off :
      (rt : Runtime E M) → rt.reorder ≡ none → next_deadline rt ≡ min_deadline rt.in_flight
  unfolding next_deadline
  next_deadline-off rt off = ground (arith, off)

  -- Without a reorder buffer, a tick at the instant that `next_deadline` reports, or before it, does
  -- nothing: no match is emitted, no partial is dropped, and the same instant is reported again.
  pub tick_at_next_deadline :
      (rt : Runtime E M) (d now : ℤ)
      → rt.reorder ≡ none
      → next_deadline rt ≡ some d
      → now ≤ℤ d
      → tick rt now ≡ some (rt, [])
  tick_at_next_deadline rt d now off e le =
      let first : min_deadline rt.in_flight ≡ some d = sym (next_deadline-off rt off) ∙ e in
      tick-alive rt now off (none_expired now rt.in_flight (subst (NotAfter now) (sym first) le))

  -- Without a reorder buffer, a tick after the instant that `next_deadline` reports resolves at least
  -- one partial match: fewer are in flight.
  pub tick_after_next_deadline :
      (rt : Runtime E M) (d now : ℤ)
      → rt.reorder ≡ none
      → rt.dropped ≤ u64_max
      → All (IsWaiting rt.compiled) rt.in_flight
      → next_deadline rt ≡ some d
      → d <ℤ now
      → (r : Runtime E M × List M) × (tick rt now ≡ some r)
        × (length r.0.in_flight < length rt.in_flight)
  tick_after_next_deadline rt d now off small w e lt =
      let (r, ticks, kept, _, _) = tick_lem rt now off small w in
      let first : min_deadline rt.in_flight ≡ some d = sym (next_deadline-off rt off) ∙ e in
      (r, ticks, rw kept (some_expire now d rt.in_flight first lt))
