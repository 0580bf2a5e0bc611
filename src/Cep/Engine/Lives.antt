-- ===== src/Cep/Engine/Lives.antt =====
-- What an event pattern matcher without a limit and without shared state would do: each partial match
-- lives on its own from the event that opens it, and the matches are those of all the lives. It shares
-- with tflo-cep/src/engine.rs the step of one partial, `advance_one`, and nothing of the sweeps.
use tflo.Prelude.{
  ◌≡◌, refl, sym, ◌∙◌, ap, Option, none, some, List, [], ◌∷◌, ◌++◌, length, get_elem?,
  if◌then◌else◌, ◌==◌, append_assoc, not,
}
use mathlib.Core.List.{Perm, perm_append_comm}
use mathlib.Core.List.Perm
use tflo.Prelude.Int.{ℤ}
use tflo.Cep.Step.{PartialMatch, Disposition, keep, remove, complete, Compiled}
use tflo.Cep.Advance.{advance_one}
use tflo.Cep.Sweep.{opened}
use tflo.Cep.Engine.Deadlines.{is_expired, awaits_absence, emitted}

-- The partials that go on, and the values emitted.
abbrev pub Fate {ℓ} : Type ℓ → Type ℓ → Type ℓ
Fate E M = List (PartialMatch E) × List M

module _ {ℓ} {E M : Type ℓ} where
  abbrev pub both : Fate E M → Fate E M → Fate E M
  both (p, x) (q, y) = (p ++ q, x ++ y)

  abbrev pub each : (PartialMatch E → Fate E M) → List (PartialMatch E) → Fate E M
  each f [] = ([], [])
  each f (pm ∷ pms) = both (f pm) (each f pms)

  abbrev pub then_each : Fate E M → (PartialMatch E → Fate E M) → Fate E M
  then_each (pms, ms) f = both ([], ms) (each f pms)

  abbrev pub advanced : Compiled E M → Option (Disposition × PartialMatch E) → Fate E M
  advanced c none = ([], [])
  advanced c (some (keep, pm)) = (pm ∷ [], [])
  advanced c (some (remove, pm)) = ([], [])
  advanced c (some (complete, pm)) = ([], emitted c (pm ∷ []))

  -- One event in the life of a partial: past its deadline it ends, with a match if it waited for an
  -- absence; else the event advances it.
  unfoldable pub alone : Compiled E M → ℤ → E → PartialMatch E → Fate E M
  alone c ts event pm =
      if is_expired ts pm
      then ([], if awaits_absence c pm then emitted c (pm ∷ []) else [])
      else advanced c (advance_one c pm event ts)

  -- The life that an event opens: none, a match at once, or a partial.
  unfoldable pub opening : Compiled E M → ℤ → E → Fate E M
  opening c ts event = elim (get_elem? c.steps 0) [
    | none ↦ ([], [])
    | some step ↦
        let pm = opened c step.name event ts in
        if not (step.predicate.evaluate event)
        then ([], [])
        else if length c.steps == 1
        then ([], emitted c (pm ∷ []))
        else (pm ∷ [], [])
  ]

  unfoldable pub life : Compiled E M → List (ℤ × E) → PartialMatch E → Fate E M
  life c [] pm = (pm ∷ [], [])
  life c ((ts, event) ∷ events) pm = then_each (alone c ts event pm) (life c events)

  -- The lives that the events open.
  unfoldable pub lives : Compiled E M → List (ℤ × E) → Fate E M
  lives c [] = ([], [])
  lives c ((ts, event) ∷ events) =
      both (then_each (opening c ts event) (life c events)) (lives c events)

  pub each-append-0 :
      (f : PartialMatch E → Fate E M) (xs ys : List (PartialMatch E))
      → (each f (xs ++ ys)).0 ≡ (each f xs).0 ++ (each f ys).0
  each-append-0 f [] ys = refl
  each-append-0 f (x ∷ xs) ys =
      ap (λ r. (f x).0 ++ r) (each-append-0 f xs ys) ∙ sym (append_assoc (f x).0 _ _)

  pub each-append-1 :
      (f : PartialMatch E → Fate E M) (xs ys : List (PartialMatch E))
      → (each f (xs ++ ys)).1 ≡ (each f xs).1 ++ (each f ys).1
  each-append-1 f [] ys = refl
  each-append-1 f (x ∷ xs) ys =
      ap (λ r. (f x).1 ++ r) (each-append-1 f xs ys) ∙ sym (append_assoc (f x).1 _ _)

-- The two inner ones of four lists change places.
pub perm_interchange {ℓ} :
    {A : Type ℓ} (a b x y : List A) → Perm ((a ++ b) ++ (x ++ y)) ((a ++ x) ++ (b ++ y))
perm_interchange a b x y =
    rw
      (
        append_assoc a b (x ++ y),
        append_assoc a x (b ++ y),
        sym (append_assoc b x y),
        sym (append_assoc x b y),
      )
      (Perm.append_left a (Perm.append_right y (perm_append_comm b x)))

pub perm_past {ℓ} : {A : Type ℓ} (a b x : List A) → Perm (a ++ (b ++ x)) (b ++ (a ++ x))
perm_past a b x =
    rw (sym (append_assoc a b x), sym (append_assoc b a x))
      (Perm.append_right x (perm_append_comm a b))

module _ {ℓ} {E M : Type ℓ} where
  -- The lives of many partials go on from the fate of one event.
  pub each-life :
      (c : Compiled E M) (ts : ℤ) (event : E) (events : List (ℤ × E)) (pms : List (PartialMatch E))
      → let now = each (alone c ts event) pms in
        ((each (life c ((ts, event) ∷ events)) pms).0 ≡ (each (life c events) now.0).0)
        × Perm
            (each (life c ((ts, event) ∷ events)) pms).1
            (now.1 ++ (each (life c events) now.0).1)
  unfolding life
  each-life c ts event events [] = (refl, Perm.rfl)
  each-life c ts event events (pm ∷ pms) =
      let (same, perm) = each-life c ts event events pms in
      let f = life c events in
      let a = alone c ts event pm in
      let now = each (alone c ts event) pms in
      (
        ap (λ r. (each f a.0).0 ++ r) same ∙ sym (each-append-0 f a.0 now.0),
        rw (each-append-1 f a.0 now.0) (
            Perm.trans (Perm.append_left (a.1 ++ (each f a.0).1) perm)
              (perm_interchange a.1 (each f a.0).1 now.1 (each f now.0).1)),
      )
