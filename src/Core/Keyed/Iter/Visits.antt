-- ===== src/Core/Keyed/Iter/Visits.antt =====
-- tflo-core/src/keyed.rs: the hash map of `TFloKeyedIter`, and the walk over its keys.
use mathlib.Core.List.{Perm, Permᴰ}
use mathlib.Core.Logic.{∥∥₁_elim}
use tflo.Prelude.{
  ℕ, ◌+◌, ◌-◌, ◌≡◌, refl, sym, ap, ◌∙◌, ◌↔◌, Bool, true, Option, none, some, List, [], ◌∷◌, arith,
  if◌then◌else◌, Bool-cases, Option-cases, inl, inr,
}
use tflo.Core.Keyed.Iter.{find, put, entry, keys}

module _ {ℓ} {K : Type ℓ} (same_key : K → K → Bool) where
  -- How often a key stands in a list of keys.
  abbrev pub count : K → List K → ℕ
  count k [] = 0
  count k (x ∷ xs) = (if same_key k x then 1 else 0) + count k xs

  count-permᴰ : (k : K) {xs ys : List K} → Permᴰ xs ys → count k xs ≡ count k ys
  count-permᴰ k Permᴰ.nil = refl
  count-permᴰ k (Permᴰ.cons e d) = rw (e, count-permᴰ k d) refl
  count-permᴰ k (Permᴰ.swap e e') = rw (e, e') (omega arith)
  count-permᴰ k (Permᴰ.trans d d') = count-permᴰ k d ∙ count-permᴰ k d'

  pub count-perm : (k : K) {xs ys : List K} → Perm xs ys → count k xs ≡ count k ys
  count-perm k p = ∥∥₁_elim p (hlevel) (λ d. count-permᴰ k d)

module _ {ℓ} {K : Type ℓ} (same_key : K → K → Bool)
    (same : (a b : K) → (same_key a b ≡ true) ↔ (a ≡ b)) where
  -- Two keys that are each the same as a third are the same.
  via : (a b c : K) → same_key c a ≡ true → same_key c b ≡ true → same_key a b ≡ true
  via a b c p q = (same a b).1 (sym ((same c a).0 p) ∙ (same c b).0 q)

  on : (a b c : K) → same_key a b ≡ true → same_key c a ≡ same_key c b
  on a b c p = ap (λ x. same_key c x) ((same a b).0 p)

abbrev pub held {ℓ} : {S : Type ℓ} → Option S → ℕ
held none = 0
held (some s) = 1

module _ {ℓ} {K S : Type ℓ} (same_key : K → K → Bool)
    (same : (a b : K) → (same_key a b ≡ true) ↔ (a ≡ b)) where
  -- A map has one entry for a key or none.
  abbrev pub AtMostOnce : List (K × S) → Type ℓ
  AtMostOnce graphs = (k : K) → count same_key k (keys graphs) ≡ held (find same_key k graphs)

  pub find-put :
      (k key : K) (s : S) (graphs : List (K × S))
      → find same_key k (put same_key key s graphs)
        ≡ (if same_key k key then some s else find same_key k graphs)
  find-put k key s [] = refl
  find-put k key s ((k', s') ∷ graphs) =
      ground (arith, find-put k key s graphs, via same_key same key k' k, on same_key same key k' k)

  pub count-put :
      (k key : K) (s : S) (graphs : List (K × S))
      → count same_key k (keys (put same_key key s graphs))
        ≡ (if same_key k key then 1 - held (find same_key key graphs) else 0)
          + count same_key k (keys graphs)
  count-put k key s [] = ground arith
  count-put k key s ((k', s') ∷ graphs) =
      ground
        (arith, count-put k key s graphs, via same_key same key k' k, on same_key same key k' k)

  kept :
      (k key : K) (s : S) (graphs : List (K × S))
      → count same_key k (keys graphs) ≡ held (find same_key k graphs)
      → same_key k key ≡ true
      → 1 - held (find same_key key graphs) + count same_key k (keys graphs) ≡ 1
  kept k key s graphs once y =
      rw (sym ((same k key).0 y)) (elim (Option-cases (find same_key k graphs)) [
        | inl e ↦ rw (e, once) (rw e refl)
        | inr (s', e) ↦ rw (e, once) (rw e refl)
      ])

  pub AtMostOnce-put :
      (key : K) (s : S) (graphs : List (K × S))
      → AtMostOnce graphs
      → AtMostOnce (put same_key key s graphs)
  AtMostOnce-put key s graphs once k =
      rw (find-put k key s graphs, count-put k key s graphs)
        (elim (Bool-cases (same_key k key)) [
          | inl y ↦ rw y (kept k key s graphs (once k) y)
          | inr n ↦ rw n (omega (arith, once k))
        ])

  pub entry-put :
      (fresh : S) (k key : K) (s : S) (graphs : List (K × S))
      → entry same_key fresh k (put same_key key s graphs)
        ≡ (if same_key k key then s else entry same_key fresh k graphs)
  entry-put fresh k key s graphs =
      rw (find-put k key s graphs, entry)
        (elim (Bool-cases (same_key k key)) [ inl y ↦ rw y refl | inr n ↦ rw n refl ])
