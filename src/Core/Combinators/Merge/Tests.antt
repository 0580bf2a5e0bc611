-- ===== src/Core/Combinators/Merge/Tests.antt =====
-- Runs of the merge of sorted iterators, with a heap that is searched for its first entry with the least
-- key.
use mathlib.Core.List.{Perm, flatten}
use mathlib.Core.List.Perm
use tflo.Prelude.{
  ℕ, suc, ◌≡◌, refl, sym, subst, Bool, Option, none, some, List, [], ◌∷◌, arith, length,
  if◌then◌else◌, Bool-cases, inl, inr, All, All-map,
}
use tflo.Prelude.Int.{ℤ, pos, ◌≤ℤ◌, ltb_ℤ}
use tflo.Core.Combinators.Merge.{HeapEntry, merge_by_timestamp, next, collect}
use tflo.Core.Combinators.Merge.Lanes.{IsSorted}
use tflo.Core.Combinators.Merge.Sorted.{PopsLeast, merge_by_timestamp_lem}

module _ {T : Type 0} where
  -- The entry, or the one that the others give up where it has a smaller key.
  abbrev pick :
      HeapEntry T
      → List (HeapEntry T)
      → HeapEntry T × List (HeapEntry T)
      → Bool
      → HeapEntry T × List (HeapEntry T)
  pick x ys popped smaller = if smaller then (popped.0, x ∷ popped.1) else (x, ys)

  abbrev least_of : HeapEntry T → List (HeapEntry T) → HeapEntry T × List (HeapEntry T)
  least_of x [] = (x, [])
  least_of x (y ∷ ys) =
      let popped = least_of y ys in pick x (y ∷ ys) popped (ltb_ℤ popped.0.key x.key)

  abbrev pop : List (HeapEntry T) → Option (HeapEntry T × List (HeapEntry T))
  pop [] = none
  pop (x ∷ xs) = some (least_of x xs)

  abbrev IsLeast : List (HeapEntry T) → HeapEntry T × List (HeapEntry T) → Type 0
  IsLeast xs popped = Perm xs (popped.0 ∷ popped.1) × All (λ y. popped.0.key ≤ℤ y.key) xs

  pick-IsLeast :
      (x : HeapEntry T) (ys : List (HeapEntry T)) (popped : HeapEntry T × List (HeapEntry T))
      → IsLeast ys popped
      → IsLeast (x ∷ ys) (pick x ys popped (ltb_ℤ popped.0.key x.key))
  pick-IsLeast x ys popped (perm, low) = elim (Bool-cases (ltb_ℤ popped.0.key x.key)) [
    | inl smaller ↦
        subst (λ b. IsLeast (x ∷ ys) (pick x ys popped b)) (sym smaller)
          (Perm.trans (Perm.cons x perm) (Perm.swap popped.0 x popped.1), (ground arith, low))
    | inr larger ↦
        subst (λ b. IsLeast (x ∷ ys) (pick x ys popped b)) (sym larger)
          (
            Perm.refl _,
            (
              omega arith,
              All-map (λ z. popped.0.key ≤ℤ z.key) (λ z. x.key ≤ℤ z.key) ys (λ z le. ground arith)
                  low,
            ),
          )
  ]

  least_of-IsLeast : (x : HeapEntry T) (xs : List (HeapEntry T)) → IsLeast (x ∷ xs) (least_of x xs)
  least_of-IsLeast x [] = (Perm.refl _, (omega arith, tt))
  least_of-IsLeast x (y ∷ ys) = pick-IsLeast x (y ∷ ys) (least_of y ys) (least_of-IsLeast y ys)

  pop-PopsLeast : PopsLeast pop
  pop-PopsLeast = record {
    pop-nil = refl;
    pop-cons = λ x xs.
        let (perm, low) = least_of-IsLeast x xs in
        ((least_of x xs).0, (least_of x xs).1, refl, perm, low);
  }

-- Two sorted streams of times with labels, and one that is empty.
abbrev streams : List (List (ℤ × ℕ))
streams =
    ((pos 1, 0) ∷ (pos 3, 0) ∷ (pos 5, 0) ∷ [])
    ∷ []
    ∷ ((pos 2, 2) ∷ (pos 3, 2) ∷ (pos 9, 2) ∷ [])
    ∷ []

abbrev time : ℤ × ℕ → ℤ
time x = x.0

merged_run :
    collect pop time 7 (merge_by_timestamp streams time)
    ≡ some ((pos 1, 0) ∷ (pos 2, 2) ∷ (pos 3, 2) ∷ (pos 3, 0) ∷ (pos 5, 0) ∷ (pos 9, 2) ∷ [])
unfolding collect next merge_by_timestamp
merged_run = refl

merge_by_timestamp_lem_example :
    (out : List (ℤ × ℕ)) × (collect pop time
        (suc (length (flatten streams)))
        (merge_by_timestamp streams time)
      ≡ some out)
    × IsSorted time out
    × Perm out (flatten streams)
merge_by_timestamp_lem_example =
    merge_by_timestamp_lem pop time pop-PopsLeast streams (ground arith)
