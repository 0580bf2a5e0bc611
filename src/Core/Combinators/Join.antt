-- ===== src/Core/Combinators/Join.antt =====
-- tflo-core/src/combinators/join.rs: `keyed_window_join`. The callbacks and the equality of keys are
-- parameters.
use tflo.Prelude.{
  ◌≡◌, ◌⊎◌, ◌↔◌, inl, inr, refl, sym, ap, subst, Bool, true, false, ◌&&◌, List, [], ◌∷◌, ◌++◌,
  arith, if◌then◌else◌,
}
use tflo.Prelude.Int.{ℤ, ◌≤ℤ◌, leb_ℤ}
use tflo.Prelude.I64.{sat_add}

-- The item stands in the list.
pub data In {ℓ} {A : Type ℓ} (x : A) : List A → Type ℓ where
  here : (y : A) (l : List A) → x ≡ y → In x (y ∷ l)
  there : (y : A) (l : List A) → In x l → In x (y ∷ l)

In-left {ℓ} : {A : Type ℓ} (x : A) (xs ys : List A) → In x xs → In x (xs ++ ys)
In-left x [] ys h = elim h [ ]
In-left x (y ∷ xs) ys (here _ _ e) = here y _ e
In-left x (y ∷ xs) ys (there _ _ h) = there y _ (In-left x xs ys h)

In-right {ℓ} : {A : Type ℓ} (x : A) (xs ys : List A) → In x ys → In x (xs ++ ys)
In-right x [] ys h = h
In-right x (y ∷ xs) ys h = there y _ (In-right x xs ys h)

In-split {ℓ} : {A : Type ℓ} (x : A) (xs ys : List A) → In x (xs ++ ys) → In x xs ⊎ In x ys
In-split x [] ys h = inr h
In-split x (y ∷ xs) ys (here _ _ e) = inl (here y xs e)
In-split x (y ∷ xs) ys (there _ _ h) = elim (In-split x xs ys h) [
  | inl a ↦ inl (there y xs a)
  | inr b ↦ inr b
]

In-if {ℓ} :
    {A : Type ℓ} (b : Bool) (x p : A) (rest : List A)
    → In p (if b then x ∷ rest else rest)
    → ((b ≡ true) × (p ≡ x)) ⊎ In p rest
In-if true x p rest (here _ _ e) = inl (refl, e)
In-if true x p rest (there _ _ h) = inr h
In-if false x p rest h = inr h

if-In {ℓ} :
    {A : Type ℓ} (b : Bool) (x p : A) (rest : List A)
    → In p rest
    → In p (if b then x ∷ rest else rest)
if-In true x p rest h = there x rest h
if-In false x p rest h = h

module _ {ℓ} {L R K : Type ℓ} (left_key : L → K) (right_key : R → K) (left_ts : L → ℤ)
    (right_ts : R → ℤ) (same_key : K → K → Bool) where
  -- The tests of the inner loop.
  abbrev pub matches : ℤ → L → R → Bool
  matches window_ms l r =
      let lt = left_ts l in
      let end = sat_add lt window_ms in
      same_key (right_key r) (left_key l) && (leb_ℤ lt (right_ts r) && leb_ℤ (right_ts r) end)

  -- The inner loop, for one left item.
  unfoldable pub join_one : ℤ → L → List R → List (L × R)
  join_one window_ms l [] = []
  join_one window_ms l (r ∷ right) =
      let rest = join_one window_ms l right in if matches window_ms l r then (l, r) ∷ rest else rest

  unfoldable pub keyed_window_join : List L → List R → ℤ → List (L × R)
  unfolding join_one
  keyed_window_join [] right window_ms = []
  keyed_window_join (l ∷ left) right window_ms =
      join_one window_ms l right ++ keyed_window_join left right window_ms

  -- The pair is a match.
  abbrev pub Matches : ℤ → L → R → Type 0
  Matches window_ms l r =
      (same_key (right_key r) (left_key l) ≡ true)
      × (left_ts l ≤ℤ right_ts r)
      × (right_ts r ≤ℤ sat_add (left_ts l) window_ms)

  matches-Matches :
      (window_ms : ℤ) (l : L) (r : R) → (matches window_ms l r ≡ true) ↔ Matches window_ms l r
  matches-Matches window_ms l r = (λ e. ground arith, λ h. ground arith)

  join_one_sound :
      (window_ms : ℤ) (l : L) (right : List R) (p : L × R)
      → In p (join_one window_ms l right)
      → (p.0 ≡ l) × In p.1 right × Matches window_ms p.0 p.1
  unfolding join_one
  join_one_sound window_ms l [] p h = elim h [ ]
  join_one_sound window_ms l (r ∷ right) p h =
      elim (In-if (matches window_ms l r) (l, r) p (join_one window_ms l right) h) [
        | inl (hit, same) ↦ (
          ap (λ q. q.0) same,
          here r right (ap (λ q. q.1) same),
          subst (λ q. Matches window_ms q.0 q.1) (sym same) ((matches-Matches window_ms l r).0 hit),
        )
        | inr k ↦ let (a, b, m) = join_one_sound window_ms l right p k in (a, there r right b, m)
      ]

  join_one_complete :
      (window_ms : ℤ) (l : L) (right : List R) (r : R)
      → In r right
      → Matches window_ms l r
      → In (l, r) (join_one window_ms l right)
  unfolding join_one
  join_one_complete window_ms l [] r h m = elim h [ ]
  join_one_complete window_ms l (x ∷ right) r (here _ _ e) m =
      let hit : matches window_ms l x ≡ true =
        (matches-Matches window_ms l x).1 (subst (Matches window_ms l) e m) in
      rw hit (here (l, x) _ (ap (λ q. (l, q)) e))
  join_one_complete window_ms l (x ∷ right) r (there _ _ h) m =
      if-In (matches window_ms l x) (l, x) (l, r) _ (join_one_complete window_ms l right r h m)

  complete :
      (left : List L) (right : List R) (window_ms : ℤ) (l : L) (r : R)
      → In l left
      → In r right
      → Matches window_ms l r
      → In (l, r) (keyed_window_join left right window_ms)
  unfolding keyed_window_join
  complete [] right window_ms l r h k m = elim h [ ]
  complete (x ∷ left) right window_ms l r (here _ _ e) k m =
      let here' =
        join_one_complete window_ms x right r k (subst (λ y. Matches window_ms y r) e m) in
      In-left _ _ _ (subst (λ y. In (y, r) (join_one window_ms x right)) (sym e) here')
  complete (x ∷ left) right window_ms l r (there _ _ h) k m =
      In-right _ (join_one window_ms x right) _ (complete left right window_ms l r h k m)

  sound :
      (left : List L) (right : List R) (window_ms : ℤ) (p : L × R)
      → In p (keyed_window_join left right window_ms)
      → In p.0 left × In p.1 right × Matches window_ms p.0 p.1
  unfolding keyed_window_join
  sound [] right window_ms p h = elim h [ ]
  sound (l ∷ left) right window_ms p h =
      elim (In-split p (join_one window_ms l right) (keyed_window_join left right window_ms) h) [
        | inl a ↦ let (e, k, m) = join_one_sound window_ms l right p a in (here l left e, k, m)
        | inr b ↦ let (i, k, m) = sound left right window_ms p b in (there l left i, k, m)
      ]

  -- A pair is in the keyed join exactly when its items stand in the two slices, their keys are equal,
  -- and the right one's time is in the window that opens at the left one's, whose end saturates.
  pub keyed_window_join_lem :
      (left : List L) (right : List R) (window_ms : ℤ) (l : L) (r : R)
      → In (l, r) (keyed_window_join left right window_ms)
        ↔ (In l left × In r right × Matches window_ms l r)
  keyed_window_join_lem left right window_ms l r = (
    λ h. sound left right window_ms (l, r) h,
    λ (a, b, m). complete left right window_ms l r a b m,
  )
