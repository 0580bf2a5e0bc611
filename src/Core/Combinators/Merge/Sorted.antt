-- ===== src/Core/Combinators/Merge/Sorted.antt =====
-- tflo-core/src/combinators/merge.rs: what the merge of sorted iterators yields.
use mathlib.Core.List.{Perm, Permᴰ, Perm-prop, mem-cons_self, flatten}
use mathlib.Core.List.Perm
use mathlib.Core.Logic.{∥∥₁_elim}
use native.Mathlib.Bridge.{le_prop}
use tflo.Prelude.{
  ℕ, zero, suc, ◌<◌, ◌≡◌, refl, sym, ap, ◌∙◌, subst, Option, none, some, List, [], ◌∷◌, ◌++◌, ◌>>=◌,
  arith, length, head?, All, All-left, All-right, All-append,
}
use tflo.Prelude.Int.{ℤ, ◌≤ℤ◌}
use tflo.Core.Combinators.Merge.{
  HeapEntry, MergeByKey, entry, push, start, merge_by_timestamp, refill, next, take_item, collect,
}
use tflo.Core.Combinators.Merge.Lanes.{
  IsSorted, flatten_middle, length-flatten_middle, next_at-start, front_of, refill_heap,
  least_of_all, none_left,
}

-- What the documentation of the heap says of `pop`: it takes an entry with the least key, if there is
-- one, and leaves the others.
pub record PopsLeast {ℓ} {T : Type ℓ}
    (pop : List (HeapEntry T) → Option (HeapEntry T × List (HeapEntry T))) : Type ℓ where
  pub pop-nil : pop [] ≡ none
  pub pop-cons :
      (x : HeapEntry T) (xs : List (HeapEntry T))
      → (e : HeapEntry T) × (rest : List (HeapEntry T)) × (pop (x ∷ xs) ≡ some (e, rest))
        × Perm (x ∷ xs) (e ∷ rest)
        × All (λ y. e.key ≤ℤ y.key) (x ∷ xs)

-- A predicate holds of the items in any order.
All-permᴰ {ℓ κ} : {A : Type ℓ} (P : A → Type κ) {xs ys : List A} → Permᴰ xs ys → All P xs → All P ys
All-permᴰ P Permᴰ.nil h = tt
All-permᴰ P (Permᴰ.cons e d) h = (subst P e h.0, All-permᴰ P d h.1)
All-permᴰ P (Permᴰ.swap e e') h = (subst P e' h.1.0, (subst P e h.0, h.1.1))
All-permᴰ P (Permᴰ.trans d d') h = All-permᴰ P d' (All-permᴰ P d h)

module _ {ℓ} {A : Type ℓ} (f : A → ℤ) (m : ℤ) where
  abbrev Above : List A → Type 0
  Above xs = All (λ x. m ≤ℤ f x) xs

  Above-prop : (xs : List A) → IsProp (Above xs)
  Above-prop [] = hlevel
  Above-prop (x ∷ xs) = let ih = Above-prop xs in hlevel (le_prop)

  Above-perm : {xs ys : List A} → Perm xs ys → Above xs → Above ys
  Above-perm p h = ∥∥₁_elim p (Above-prop _) (λ d. All-permᴰ (λ x. m ≤ℤ f x) d h)

module _ {ℓ} {T : Type ℓ} (key_fn : T → ℤ) where
  IsSorted-prop : (xs : List T) → IsProp (IsSorted key_fn xs)
  IsSorted-prop [] = hlevel
  IsSorted-prop (x ∷ xs) =
      let ih = IsSorted-prop xs in let low = Above-prop key_fn (key_fn x) xs in hlevel

  -- The items of the lanes, in order.
  abbrev IsMerged : List (List T) → Option (List T) → Type ℓ
  IsMerged lanes none = ⊥ × Unit {ℓ}
  IsMerged lanes (some out) = IsSorted key_fn out × Perm out (flatten lanes)

  IsMerged-prop : (lanes : List (List T)) (o : Option (List T)) → IsProp (IsMerged lanes o)
  IsMerged-prop lanes none = hlevel
  IsMerged-prop lanes (some out) =
      let s = IsSorted-prop out in let p = Perm-prop {l₁ = out} {l₂ = flatten lanes} in hlevel

module _ {ℓ} {T : Type ℓ} (pop : List (HeapEntry T) → Option (HeapEntry T × List (HeapEntry T)))
    (key_fn : T → ℤ) (least : PopsLeast pop) where
  -- The merge that holds the lanes, with the heap in some order.
  abbrev of_lanes : List (HeapEntry T) → List (List T) → MergeByKey T
  of_lanes heap lanes = record { heap = heap; iters = (start key_fn 0 lanes).1 }

  abbrev Merges : ℕ → Type ℓ
  Merges fuel =
      (lanes : List (List T)) (heap : List (HeapEntry T))
      → All (IsSorted key_fn) lanes
      → length (flatten lanes) < fuel
      → Perm heap (start key_fn 0 lanes).0
      → IsMerged key_fn lanes (collect pop key_fn fuel (of_lanes heap lanes))

  -- An item whose key is a least one stands before what is merged of the others.
  IsMerged-cons :
      (before : List (List T)) (v : T) (lane : List T) (after : List (List T))
      → All (λ x. key_fn v ≤ℤ key_fn x) (flatten (before ++ ((v ∷ lane) ∷ after)))
      → (o : Option (List T)) → IsMerged key_fn (before ++ (lane ∷ after)) o
      → IsMerged key_fn (before ++ ((v ∷ lane) ∷ after)) (do values ← o; some (v ∷ values))
  IsMerged-cons before v lane after low none merged = absurd merged.0
  IsMerged-cons before v lane after low (some out) merged =
      let all' =
        Perm.trans (flatten_middle before v lane after) (Perm.cons v (Perm.symm merged.1)) in
      let low' = Above-perm key_fn (key_fn v) all' low in ((low'.1, merged.0), Perm.symm all')

  IsSorted-step :
      (before : List (List T)) (v : T) (lane : List T) (after : List (List T))
      → All (IsSorted key_fn) (before ++ ((v ∷ lane) ∷ after))
      → All (IsSorted key_fn) (before ++ (lane ∷ after))
  IsSorted-step before v lane after sorted =
      let right = All-right (IsSorted key_fn) before _ sorted in
      All-append (IsSorted key_fn) before (lane ∷ after)
        (All-left (IsSorted key_fn) before _ sorted) (right.0.1, right.1)

  -- One call of `next`, where the heap gives up an entry.
  abbrev Steps : ℕ → List (List T) → HeapEntry T → Type ℓ
  Steps fuel lanes e =
      (rest : List (HeapEntry T))
      → All (IsSorted key_fn) lanes
      → length (flatten lanes) < suc fuel
      → Perm (e ∷ rest) (start key_fn 0 lanes).0
      → All (λ y. e.key ≤ℤ y.key) rest
      → IsMerged key_fn lanes (
          take_item pop key_fn (λ m. collect pop key_fn fuel m)
            (some (refill key_fn (start key_fn 0 lanes).1 (e, rest))))

  step :
      (fuel : ℕ)
      → Merges fuel
      → (before : List (List T)) (v : T) (lane : List T) (after : List (List T))
      → Steps fuel (before ++ ((v ∷ lane) ∷ after)) (entry key_fn v (length before))
  step fuel ih before v lane after rest sorted bound p low =
      let lanes = before ++ ((v ∷ lane) ∷ after) in
      let low' : All (λ y. key_fn v ≤ℤ y.key) (start key_fn 0 lanes).0 =
        Above-perm (λ y. y.key) (key_fn v) p (omega arith, low) in
      let fewer = length-flatten_middle before v lane after in
      rw (next_at-start key_fn 0 before v lane after) (
        IsMerged-cons before v lane after (least_of_all key_fn (key_fn v) 0 lanes sorted low') _ (
          ih (before ++ (lane ∷ after)) (push key_fn (length before) (head? lane) rest)
            (IsSorted-step before v lane after sorted) (omega arith)
            (refill_heap key_fn before v lane after rest p)))

  merges : (fuel : ℕ) → Merges fuel
  unfolding collect next
  merges zero lanes heap sorted bound p = absurd (omega arith)
  merges (suc fuel) lanes [] sorted bound p =
      rw least.pop-nil (tt, rw (none_left key_fn lanes p) (Perm.refl []))
  merges (suc fuel) lanes (x ∷ xs) sorted bound p =
      let (e, rest, popped, perm, low) = least.pop-cons x xs in
      let p' = Perm.trans (Perm.symm perm) p in
      rw popped (
        ∥∥₁_elim (Perm.subset p' e mem-cons_self) (IsMerged-prop key_fn lanes _) (λ m.
          let (before, v, lane, after, split, front) = front_of key_fn 0 lanes m in
          let front' = front ∙ ap (λ n. entry key_fn v n) (omega arith) in
          let at_front = step fuel (merges fuel) before v lane after in
          subst (λ ls. Steps fuel ls e) (sym split)
            (subst (λ e'. Steps fuel (before ++ ((v ∷ lane) ∷ after)) e') (sym front') at_front)
            rest sorted bound p' (Above-perm (λ y. y.key) e.key perm low).1))

  yields_merged :
      (lanes : List (List T)) (o : Option (List T))
      → IsMerged key_fn lanes o
      → (out : List T) × (o ≡ some out) × IsSorted key_fn out × Perm out (flatten lanes)
  yields_merged lanes none merged = absurd merged.0
  yields_merged lanes (some out) merged = (out, refl, merged.0, merged.1)

  -- With one call more than there are items, the merge of iterators that are each in the order of their
  -- keys ends, and what it has yielded is in that order, and consists of the items of all iterators, each
  -- as often as they hold it; this for every heap that gives up an entry with the least key.
  pub merge_by_timestamp_lem :
      (iters : List (List T))
      → All (IsSorted key_fn) iters
      → (out : List T) × (collect pop key_fn
            (suc (length (flatten iters)))
            (merge_by_timestamp iters key_fn)
          ≡ some out)
        × IsSorted key_fn out
        × Perm out (flatten iters)
  unfolding merge_by_timestamp
  merge_by_timestamp_lem iters sorted = yields_merged iters _ (
      merges (suc (length (flatten iters))) iters (start key_fn 0 iters).0 sorted (omega arith)
        (Perm.refl _))
