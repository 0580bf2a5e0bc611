-- ===== src/Cep/Engine/Independent.antt =====
-- tflo-cep/src/engine.rs: without a reorder buffer, and below the limit of the partials in flight, the
-- matcher emits what the partials emit that live on their own.
mod Step
use tflo.Prelude.{
  ℕ, suc, ◌+◌, ◌≤◌, ◌≡◌, refl, sym, ◌∙◌, ap, subst, Option, none, some, List, [], ◌∷◌, ◌++◌, length,
  length-append, append_assoc, append-nil, arith, map, All, All-map, ◌>>=◌,
}
use mathlib.Core.List.{Perm}
use mathlib.Core.List.Perm
use mathlib.Core.Option.{some-injective}
use tflo.Prelude.Int.{ℤ}
use tflo.Prelude.I64.{u64_max}
use tflo.Cep.Step.{PartialMatch, Compiled}
use tflo.Cep.Valid.{IsValid, IsWaiting}
use tflo.Cep.Runtime.{Runtime, new, max_partials}
use tflo.Cep.Sweep.{match_one}
use tflo.Cep.Sweep.Healthy.{Healthy, Emitted, Runs}
use tflo.Cep.Sweep.Keeps.{match_one-Runs}
use tflo.Cep.Advance.Sound.{Tracked}
use tflo.Cep.Engine.{push_through, push_at}
use tflo.Cep.Engine.Calls.{Call, event_at, run}
use tflo.Cep.Engine.Lives.{
  Fate, both, each, then_each, alone, opening, life, lives, each-append-0, each-append-1, each-life,
  perm_interchange,
}
use Step.{Fated, match_one-Fated, alone-length, opening-length}

-- A host that pushes each event with its time.
abbrev pub pushes {ℓ} : {E : Type ℓ} → List (ℤ × E) → List (Call E)
pushes = map (λ (ts, e). event_at e ts)

-- What the event emits is put before what the lives emit later.
perm_lives {ℓ} :
    {A : Type ℓ} (out now born later later_born rest : List A) {ms ms' all' : List A}
    → Perm ms (now ++ born)
    → Perm (now ++ later) all'
    → Perm ms' ((out ++ ms) ++ ((later ++ later_born) ++ rest))
    → Perm ms' (out ++ (all' ++ ((born ++ later_born) ++ rest)))
perm_lives out now born later later_born rest {ms} {ms'} {all'} p q r =
    let tail = (later ++ later_born) ++ rest in
    Perm.trans (subst (Perm ms') (append_assoc out ms tail) r) (
      Perm.append_left out (
        Perm.trans (Perm.append_right tail p) (
          Perm.trans
            (subst (λ l. Perm l (((now ++ later) ++ (born ++ later_born)) ++ rest))
              (append_assoc (now ++ born) (later ++ later_born) rest)
              (Perm.append_right rest (perm_interchange now born later later_born)))
            (subst (λ l. Perm l (all' ++ ((born ++ later_born) ++ rest)))
              (sym (append_assoc (now ++ later) (born ++ later_born) rest))
              (Perm.append_right ((born ++ later_born) ++ rest) q)))))

module _ {ℓ} {E M : Type ℓ} where
  each-life-nil-0 :
      (c : Compiled E M) (pms : List (PartialMatch E)) → (each (life c []) pms).0 ≡ pms
  unfolding life
  each-life-nil-0 c [] = refl
  each-life-nil-0 c (pm ∷ pms) = ap (λ p. pm ∷ p) (each-life-nil-0 c pms)

  each-life-nil-1 : (c : Compiled E M) (pms : List (PartialMatch E)) → (each (life c []) pms).1 ≡ []
  unfolding life
  each-life-nil-1 c [] = refl
  each-life-nil-1 c (pm ∷ pms) = each-life-nil-1 c pms

module _ {ℓ} {E M : Type ℓ} (c : Compiled E M) (v : IsValid c) where
  -- No reorder buffer, and room for `n` more partials.
  record Ready (n : ℕ) (rt : Runtime E M) : Type ℓ where
    healthy : Healthy c n rt
    direct : rt.reorder ≡ none
    small : rt.dropped ≤ u64_max

  push_at-Fated :
      (n : ℕ) (rt : Runtime E M) (e : E) (ts : ℤ)
      → Ready (suc n) rt
      → let fates = each (alone c ts e) rt.in_flight in
        (r : Runtime E M × List M) × ((push_at rt e ts ≡ some r)
          × (Ready n r.0
              × Fated c e ts rt []
                  (fates.0 ++ (opening c ts e).0, fates.1 ++ (opening c ts e).1)
                  r))
  unfolding push_at push_through Runs
  push_at-Fated n rt e ts h =
      let healthy₀ : Healthy c 0 rt = record {
        compiled_eq = h.healthy.compiled_eq;
        tracked = h.healthy.tracked;
        bounded = omega (arith, h.healthy.bounded);
      } in
      let w : All (IsWaiting c) rt.in_flight =
        All-map (Tracked c) (IsWaiting c) rt.in_flight (λ pm t. t.waiting) h.healthy.tracked in
      let (r, (one, f)) =
        match_one-Fated c e ts rt [] h.healthy.compiled_eq h.small v w
          (omega (arith, h.healthy.bounded)) in
      let (r', one', ran, _) = match_one-Runs c v rt e ts [] healthy₀ tt in
      let tracked' : All (Tracked c) r.0.in_flight =
        subst (λ q. All (Tracked c) q.0.in_flight) (some-injective _ _ (sym one' ∙ one))
          ran.tracked in
      let fates = each (alone c ts e) rt.in_flight in
      (
        r,
        (
          ap (λ b. push_through b rt e ts) h.direct ∙ one,
          (
            record {
              healthy = record {
                compiled_eq = f.same;
                tracked = tracked';
                bounded = omega (
                  arith,
                  h.healthy.bounded,
                  ap length f.kept,
                  length-append fates.0 (opening c ts e).0,
                  alone-length c e ts rt.in_flight,
                  opening-length c e ts v.nonempty,
                );
              };
              direct = f.buffer ∙ h.direct;
              small = f.small;
            },
            f,
          ),
        ),
      )

  -- The lives of the partials in flight, and those that the events open.
  abbrev all_lives : List (PartialMatch E) → List (ℤ × E) → Fate E M
  all_lives pms events = both (each (life c events) pms) (lives c events)

  after_push :
      (ts : ℤ) (e : E) (events : List (ℤ × E)) (pms pms' : List (PartialMatch E))
      (out ms ms' : List M)
      → let fates = each (alone c ts e) pms in
        let born = opening c ts e in
        pms' ≡ fates.0 ++ born.0
        → Perm ms (fates.1 ++ born.1)
        → Perm ms' ((out ++ ms) ++ (all_lives pms' events).1)
        → ((all_lives pms' events).0 ≡ (all_lives pms ((ts, e) ∷ events)).0)
          × Perm ms' (out ++ (all_lives pms ((ts, e) ∷ events)).1)
  unfolding lives
  after_push ts e events pms pms' out ms ms' kept sent later =
      let f = life c events in
      let fates = each (alone c ts e) pms in
      let born = opening c ts e in
      let (same, perm) = each-life c ts e events pms in
      let split : (each f pms').1 ≡ (each f fates.0).1 ++ (each f born.0).1 =
        ap (λ p. (each f p).1) kept ∙ each-append-1 f fates.0 born.0 in
      (
        ap (λ p. (each f p).0 ++ (lives c events).0) kept
            ∙ (ap (λ p. p ++ (lives c events).0) (each-append-0 f fates.0 born.0)
                ∙ (append_assoc (each f fates.0).0 (each f born.0).0 (lives c events).0
                    ∙ ap (λ p. p ++ ((each f born.0).0 ++ (lives c events).0)) (sym same))),
        perm_lives out fates.1 born.1 (each f fates.0).1 (each f born.0).1 (lives c events).1 sent
            (Perm.symm perm)
            (subst (λ p. Perm ms' ((out ++ ms) ++ (p ++ (lives c events).1))) split later),
      )

  run-lives :
      (events : List (ℤ × E)) (rt : Runtime E M) (out : List M)
      → Ready (length events) rt
      → (r : Runtime E M × List M) × ((run rt (pushes events) out ≡ some r)
          × ((r.0.in_flight ≡ (all_lives rt.in_flight events).0)
              × Perm r.1 (out ++ (all_lives rt.in_flight events).1)))
  unfolding run lives
  run-lives [] rt out h = (
    (rt, out),
    (
      refl,
      (
        sym (append-nil _ ∙ each-life-nil-0 c rt.in_flight),
        rw (each-life-nil-1 c rt.in_flight, append-nil out) Perm.rfl,
      ),
    ),
  )
  run-lives ((ts, e) ∷ events) rt out h =
      let ((rt', more), (e₁, (h', f))) = push_at-Fated (length events) rt e ts h in
      let (r, (e₂, (kept, sent))) = run-lives events rt' (out ++ more) h' in
      let (kept', sent') =
        after_push ts e events rt.in_flight rt'.in_flight out more r.1 f.kept f.sent sent in
      (r, (rw e₁ e₂, (kept ∙ kept', sent')))

  -- For a valid pattern and at most 1024 events, pushed with their times into a new runtime, the
  -- matcher returns; the partials left in flight are those that the lives of the events leave, in
  -- order, and the values emitted are those that the lives emit, each as often, in some order. So no
  -- partial is lost, none disturbs another, and nothing else is emitted.
  pub matches_are_lives :
      (events : List (ℤ × E))
      → length events ≤ max_partials
      → (r : Runtime E M × List M) × ((run (new c) (pushes events) [] ≡ some r)
          × ((r.0.in_flight ≡ (lives c events).0) × Perm r.1 (lives c events).1))
  unfolding new
  matches_are_lives events few = run-lives events (new c) [] (record {
    healthy = record { compiled_eq = refl; tracked = tt; bounded = omega arith };
    direct = refl;
    small = omega arith;
  })
