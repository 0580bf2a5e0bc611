-- ===== src/Prelude/Heap.antt =====
-- `std::collections::BinaryHeap` as the source uses it: a priority queue over a comparison. The
-- queue is held as the list of its entries in the order in which `pop` returns them, so `peek` and
-- `pop` read the head. Entries that compare equal stay in the order of insertion.
use Prim.Native.Nat.{compare, Ordering, ◌+◌}
use mathlib.Core.List.{List, [], ◌∷◌, map, Perm}
use mathlib.Core.List.Perm
use tflo.Prelude.Int.{ℤ, pos_part, neg_part}

-- `i64::cmp`
abbrev pub compare_ℤ : ℤ → ℤ → Ordering
compare_ℤ a b = compare (pos_part a + neg_part b) (pos_part b + neg_part a)

-- `Ordering::then`
abbrev pub then_cmp : Ordering → Ordering → Ordering
then_cmp Ordering.lt o = Ordering.lt
then_cmp Ordering.eq o = o
then_cmp Ordering.gt o = Ordering.gt

module _ {ℓ} {A : Type ℓ} (cmp : A → A → Ordering) where
  abbrev pub push_heap : A → List A → List A
  push_heap x [] = x ∷ []
  push_heap x (y ∷ ys) = elim (cmp x y) [
    | Ordering.lt ↦ x ∷ y ∷ ys
    | Ordering.eq ↦ y ∷ push_heap x ys
    | Ordering.gt ↦ y ∷ push_heap x ys
  ]

  -- `BinaryHeap::from`, and `sort`: a sort that keeps the order of entries that compare equal.
  abbrev pub push_all : List A → List A → List A
  push_all heap [] = heap
  push_all heap (x ∷ xs) = push_all (push_heap x heap) xs

-- A push adds its entry and no other.
pub push_heap-perm {ℓ κ} :
    {A : Type ℓ} {B : Type κ} (cmp : A → A → Ordering) (f : A → B) (x : A) (ys : List A)
    → Perm (map f (push_heap cmp x ys)) (f x ∷ map f ys)
push_heap-perm cmp f x [] = Perm.refl _
push_heap-perm cmp f x (y ∷ ys) =
    let ih = push_heap-perm cmp f x ys in
    let later : Perm (f y ∷ map f (push_heap cmp x ys)) (f x ∷ f y ∷ map f ys) =
      Perm.trans (Perm.cons (f y) ih) (Perm.swap (f x) (f y) (map f ys)) in
    elim (cmp x y)
      as (λ o.
        Perm
          (map f (elim o [
            | Ordering.lt ↦ x ∷ y ∷ ys
            | Ordering.eq ↦ y ∷ push_heap cmp x ys
            | Ordering.gt ↦ y ∷ push_heap cmp x ys
          ]))
          (f x ∷ f y ∷ map f ys)) [
            | Ordering.lt ↦ Perm.refl _
            | Ordering.eq ↦ later
            | Ordering.gt ↦ later
          ]
