-- ===== src/Cep/Engine/Independent/Step.antt =====
-- tflo-cep/src/engine.rs, `match_one`: one event against all the partials, by the fate of each.
use tflo.Prelude.{
  ◌≤◌, ◌<◌, ◌≡◌, refl, sym, ◌∙◌, ap, subst, Bool, Option, none, some, List, [], ◌∷◌, ◌++◌, length,
  length-append, get_elem?-some_of_lt, ◌==◌, append_assoc, append-nil, arith, not, All, inl, inr,
  Bool-cases, retain, ltb,
}
use mathlib.Core.List.{Perm, perm_append_comm}
use mathlib.Core.List.Perm
use tflo.Prelude.Int.{ℤ}
use tflo.Prelude.I64.{u64_max}
use tflo.Cep.Step.{PartialMatch, Disposition, keep, remove, complete, Compiled}
use tflo.Cep.Valid.{IsValid, IsWaiting}
use tflo.Cep.Runtime.{Runtime, emit, open_partial, max_partials}
use tflo.Cep.Advance.{advance_one}
use tflo.Cep.Advance.Bound.{advance_one_total}
use tflo.Cep.Sweep.{settle, partials_from, advance_partials, opened, try_open_new, match_one}
use tflo.Cep.Engine.Deadlines.{is_expired, awaits_absence, emitted, fired, advance_deadlines-Swept}
use tflo.Cep.Engine.Lives.{Fate, each, advanced, alone, opening, perm_past}

-- What three steps append, in the order of the middle ones.
perm_steps {ℓ} :
    {A : Type ℓ} (out fired' moved' all' opened' : List A) {out₁ out₂ out₃ : List A}
    → out₁ ≡ out ++ fired'
    → Perm out₂ (out₁ ++ moved')
    → Perm (fired' ++ moved') all'
    → Perm out₃ (out₂ ++ opened')
    → Perm out₃ (out ++ (all' ++ opened'))
perm_steps out fired' moved' all' opened' {out₁} {out₂} {out₃} e₁ p₂ q p₃ =
    let p₂' : Perm out₂ (out ++ (fired' ++ moved')) =
      subst (Perm out₂) (ap (λ o. o ++ moved') e₁ ∙ append_assoc out fired' moved') p₂ in
    Perm.trans p₃ (
      Perm.trans (Perm.append_right opened' (Perm.trans p₂' (Perm.append_left out q)))
        (subst (Perm ((out ++ all') ++ opened')) (append_assoc out all' opened') Perm.rfl))

module _ {ℓ} {E M : Type ℓ} (c : Compiled E M) (event : E) (ts : ℤ) where
  abbrev moved : PartialMatch E → Fate E M
  moved pm = advanced c (advance_one c pm event ts)

  settle-advanced :
      (r : Disposition × PartialMatch E) (later : List (PartialMatch E) × List M) (out : List M)
      (f : Fate E M)
      → later.0 ≡ f.0
      → Perm later.1 (out ++ f.1)
      → let new = advanced c (some r) in
        ((settle c r later).0 ≡ new.0 ++ f.0) × Perm (settle c r later).1 (out ++ (new.1 ++ f.1))
  settle-advanced (keep, pm) later out f same perm = (ap (λ pms. pm ∷ pms) same, perm)
  settle-advanced (remove, pm) later out f same perm = (same, perm)
  settle-advanced (complete, pm) later out f same perm = (
    same,
    Perm.trans (Perm.append_right (emitted c (pm ∷ [])) perm) (
        rw (append_assoc out f.1 (emitted c (pm ∷ [])))
          (Perm.append_left out (perm_append_comm f.1 (emitted c (pm ∷ []))))),
  )

  partials_from-each :
      (pms : List (PartialMatch E)) (out : List M)
      → length c.steps < 9223372036854775808
      → All (IsWaiting c) pms
      → (r : Fate E M) × ((partials_from c event ts pms out ≡ some r)
          × ((r.0 ≡ (each moved pms).0) × Perm r.1 (out ++ (each moved pms).1)))
  unfolding partials_from
  partials_from-each [] out fits w = (([], out), (refl, (refl, rw (append-nil out) Perm.rfl)))
  partials_from-each (pm ∷ pms) out fits w =
      let (later, (e, (same, perm))) = partials_from-each pms out fits w.1 in
      let (r, one, _) = advance_one_total c pm event ts fits w.0.1 in
      let (same', perm') = settle-advanced r later out (each moved pms) same perm in
      (settle c r later, (rw (e, one) refl, rw one (same', perm')))

  -- The deadline sweep and then the advance, by the fate of each partial.
  each-alone :
      (pms : List (PartialMatch E))
      → let left = each moved (retain (λ pm. not (is_expired ts pm)) pms) in
        (left.0 ≡ (each (alone c ts event) pms).0)
        × Perm (emitted c (fired c ts pms) ++ left.1) (each (alone c ts event) pms).1
  unfolding alone
  each-alone [] = (refl, Perm.rfl)
  each-alone (pm ∷ pms) =
      let (same, perm) = each-alone pms in
      elim (Bool-cases (is_expired ts pm)) [
        | inl old ↦
            rw (old, alone)
              (
                same,
                elim (Bool-cases (awaits_absence c pm)) [
                  | inl absence ↦ rw absence (Perm.cons _ perm)
                  | inr positive ↦ rw positive perm
                ],
              )
        | inr young ↦
            rw (young, alone)
              (
                ap (λ r. (moved pm).0 ++ r) same,
                Perm.trans (perm_past (emitted c (fired c ts pms)) (moved pm).1 _)
                    (Perm.append_left (moved pm).1 perm),
              )
      ]

  -- A call that finds the pattern `c`, and what it leaves of the rest of the runtime.
  pub record Fated (rt : Runtime E M) (out : List M) (f : Fate E M) (r : Runtime E M × List M)
      : Type ℓ where
    pub same : r.0.compiled ≡ c
    pub buffer : r.0.reorder ≡ rt.reorder
    pub small : r.0.dropped ≤ u64_max
    pub kept : r.0.in_flight ≡ f.0
    pub sent : Perm r.1 (out ++ f.1)

  open_partial-room :
      (rt : Runtime E M) (pm : PartialMatch E)
      → length rt.in_flight < max_partials
      → open_partial rt pm ≡ record rt { in_flight = rt.in_flight ++ (pm ∷ []) }
  unfolding open_partial
  open_partial-room rt pm lt =
      elim (Bool-cases (ltb max_partials (length (rt.in_flight ++ (pm ∷ []))))) [
        | inl full ↦ absurd (ground (arith, length-append rt.in_flight (pm ∷ [])))
        | inr room ↦ rw room refl
      ]

  try_open_new-opening :
      (rt : Runtime E M) (out : List M)
      → rt.dropped ≤ u64_max
      → 0 < length c.steps
      → length rt.in_flight < max_partials
      → (r : Runtime E M × List M) × ((try_open_new (record rt { compiled = c }) event ts out
            ≡ some r)
          × Fated rt out (rt.in_flight ++ (opening c ts event).0, (opening c ts event).1) r)
  unfolding try_open_new opening
  try_open_new-opening rt out small nonempty room =
      let (step, at) = get_elem?-some_of_lt c.steps 0 nonempty in
      let rt' = record rt { compiled = c } in
      let pm = opened c step.name event ts in
      let none_opened : rt.in_flight ≡ rt.in_flight ++ [] = sym (append-nil rt.in_flight) in
      rw (at, try_open_new, opening)
        (elim (Bool-cases (step.predicate.evaluate event)) [
          | inr miss ↦ rw miss (
            (rt', out),
            (
              refl,
              record {
                same = refl;
                buffer = refl;
                small = small;
                kept = none_opened;
                sent = rw (append-nil out) Perm.rfl;
              },
            ),
          )
          | inl hit ↦ rw hit (elim (Bool-cases (length c.steps == 1)) [
            | inl single ↦ rw single (
              (rt', emit c pm out),
              (
                refl,
                record {
                  same = refl;
                  buffer = refl;
                  small = small;
                  kept = none_opened;
                  sent = Perm.rfl;
                },
              ),
            )
            | inr several ↦
                rw (several, open_partial-room rt' pm room)
                  (
                    (record rt' { in_flight = rt.in_flight ++ (pm ∷ []) }, out),
                    (
                      refl,
                      record {
                        same = refl;
                        buffer = refl;
                        small = small;
                        kept = refl;
                        sent = rw (append-nil out) Perm.rfl;
                      },
                    ),
                  )
          ])
        ])

  try_open_new-Fated :
      (rt : Runtime E M) (out : List M)
      → rt.compiled ≡ c
      → rt.dropped ≤ u64_max
      → 0 < length c.steps
      → length rt.in_flight < max_partials
      → (r : Runtime E M × List M) × ((try_open_new rt event ts out ≡ some r)
          × Fated rt out (rt.in_flight ++ (opening c ts event).0, (opening c ts event).1) r)
  try_open_new-Fated rt out same small nonempty room =
      subst
        (λ k.
          (r : Runtime E M × List M) × ((try_open_new (record rt { compiled = k }) event ts out
              ≡ some r)
            × Fated rt out (rt.in_flight ++ (opening c ts event).0, (opening c ts event).1) r))
        (sym same) (try_open_new-opening rt out small nonempty room)

  moved-length : (o : Option (Disposition × PartialMatch E)) → length (advanced c o).0 ≤ 1
  moved-length none = omega arith
  moved-length (some (keep, pm)) = omega arith
  moved-length (some (remove, pm)) = omega arith
  moved-length (some (complete, pm)) = omega arith

  each-moved-length : (pms : List (PartialMatch E)) → length (each moved pms).0 ≤ length pms
  each-moved-length [] = omega arith
  each-moved-length (pm ∷ pms) = omega (
    arith,
    each-moved-length pms,
    moved-length (advance_one c pm event ts),
    length-append (moved pm).0 (each moved pms).0,
  )

  retain-length :
      (p : PartialMatch E → Bool) (pms : List (PartialMatch E)) → length (retain p pms) ≤ length pms
  retain-length p [] = omega arith
  retain-length p (pm ∷ pms) = ground (arith, retain-length p pms)

  retain-All :
      (P : PartialMatch E → Type 0) (p : PartialMatch E → Bool) (pms : List (PartialMatch E))
      → All P pms
      → All P (retain p pms)
  retain-All P p [] h = tt
  retain-All P p (pm ∷ pms) h = elim (Bool-cases (p pm)) [
    | inl yes' ↦ rw yes' (h.0, retain-All P p pms h.1)
    | inr no' ↦ rw no' (retain-All P p pms h.1)
  ]

  pub alone-length :
      (pms : List (PartialMatch E)) → length (each (alone c ts event) pms).0 ≤ length pms
  alone-length pms = omega (
    arith,
    ap length (each-alone pms).0,
    each-moved-length (retain (λ pm. not (is_expired ts pm)) pms),
    retain-length (λ pm. not (is_expired ts pm)) pms,
  )

  pub opening-length : 0 < length c.steps → length (opening c ts event).0 ≤ 1
  unfolding opening
  opening-length nonempty =
      let (step, at) = get_elem?-some_of_lt c.steps 0 nonempty in
      rw (at, opening)
        (elim (Bool-cases (step.predicate.evaluate event)) [
          | inr miss ↦ rw miss (omega arith)
          | inl hit ↦ rw hit (elim (Bool-cases (length c.steps == 1)) [
            | inl single ↦ rw single (omega arith)
            | inr several ↦ rw several (omega arith)
          ])
        ])

  -- One event, where there is room for one more partial: each partial meets its fate, and then the
  -- event opens a life.
  pub match_one-Fated :
      (rt : Runtime E M) (out : List M)
      → rt.compiled ≡ c
      → rt.dropped ≤ u64_max
      → IsValid c
      → All (IsWaiting c) rt.in_flight
      → length rt.in_flight < max_partials
      → let fates = each (alone c ts event) rt.in_flight in
        (r : Runtime E M × List M) × ((match_one rt event ts out ≡ some r)
          × Fated rt out (fates.0 ++ (opening c ts event).0, fates.1 ++ (opening c ts event).1) r)
  unfolding match_one advance_partials
  match_one-Fated rt out same small v w room =
      let alive = retain (λ pm. not (is_expired ts pm)) rt.in_flight in
      let w' = subst (λ k. All (IsWaiting k) rt.in_flight) (sym same) w in
      let ((rt₁, out₁), e₁, s₁) = advance_deadlines-Swept rt ts out small w' in
      let ((pms, out₂), (e₂, (kept₂, sent₂))) =
        partials_from-each alive out₁ (omega (arith, v.fits))
          (retain-All (IsWaiting c) _ rt.in_flight w) in
      let same₁ : rt₁.compiled ≡ c = s₁.same ∙ same in
      let e₂' : partials_from rt₁.compiled event ts rt₁.in_flight out₁ ≡ some (pms, out₂) =
        subst (λ k. partials_from k event ts rt₁.in_flight out₁ ≡ some (pms, out₂)) (sym same₁)
          (subst (λ a. partials_from c event ts a out₁ ≡ some (pms, out₂)) (sym s₁.kept) e₂) in
      let rt₂ = record rt₁ { in_flight = pms } in
      let (r, (e₃, f)) = try_open_new-Fated rt₂ out₂ same₁ (omega (arith, s₁.lost)) v.nonempty (
        omega (
          arith,
          ap length kept₂,
          each-moved-length alive,
          retain-length (λ pm. not (is_expired ts pm)) rt.in_flight,
        )) in
      (
        r,
        (
          rw (e₁, e₂') e₃,
          record {
            same = f.same;
            buffer = f.buffer ∙ s₁.buffer;
            small = f.small;
            kept =
                f.kept
                ∙ ap (λ p. p ++ (opening c ts event).0) (kept₂ ∙ (each-alone rt.in_flight).0);
            sent =
                perm_steps out (emitted c (fired c ts rt.in_flight)) (each moved alive).1
                  (each (alone c ts event) rt.in_flight).1 (opening c ts event).1
                  (s₁.sent ∙ ap (λ k. out ++ emitted k (fired k ts rt.in_flight)) same) sent₂
                  (each-alone rt.in_flight).1 f.sent;
          },
        ),
      )
