-- ===== src/Core/Combinators/Partition.antt =====
-- tflo-core/src/combinators/partition.rs
use mathlib.Core.List.{Perm, perm_middle}
use mathlib.Core.List.Perm
use tflo.Prelude.{
  ℕ, zero, suc, ◌≡◌, refl, Bool, not, Option, none, some, List, [], ◌∷◌, ◌++◌, if◌then◌else◌,
  retain, append-singleton-append, append-nil, Bool-cases, inl, inr,
}

module _ {ℓ} {T : Type ℓ} where
  -- The loop, from the two vectors filled so far.
  unfoldable pub partition_from : List T → (T → Bool) → List T → List T → List T × List T
  partition_from [] predicate left right = (left, right)
  partition_from (item ∷ iter) predicate left right =
      if predicate item
      then partition_from iter predicate (left ++ (item ∷ [])) right
      else partition_from iter predicate left (right ++ (item ∷ []))

  unfoldable pub partition : List T → (T → Bool) → List T × List T
  unfolding partition_from
  partition iter predicate = partition_from iter predicate [] []

  -- `PartitionLazy::next`
  abbrev pub next_lazy : List T → (T → Bool) → Option (T × Bool) × List T
  next_lazy [] predicate = (none, [])
  next_lazy (item ∷ iter) predicate = (some (item, predicate item), iter)

  abbrev pub fork : List T → ℕ → List (List T)
  fork iter zero = []
  fork iter (suc count) = iter ∷ fork iter count

  partition_from_lem :
      (iter : List T) (p : T → Bool) (left right : List T)
      → partition_from iter p left right
        ≡ (left ++ retain p iter, right ++ retain (λ x. not (p x)) iter)
  unfolding partition_from
  partition_from_lem [] p left right = rw (append-nil left, append-nil right) refl
  partition_from_lem (item ∷ iter) p left right = elim (Bool-cases (p item)) [
    | inl yes' ↦
        rw
          (
            yes',
            partition_from_lem iter p (left ++ (item ∷ [])) right,
            append-singleton-append left item (retain p iter),
          )
          refl
    | inr no' ↦
        rw
          (
            no',
            partition_from_lem iter p left (right ++ (item ∷ [])),
            append-singleton-append right item (retain (λ x. not (p x)) iter),
          )
          refl
  ]

  retain_split :
      (p : T → Bool) (iter : List T) → Perm (retain p iter ++ retain (λ x. not (p x)) iter) iter
  retain_split p [] = Perm.refl _
  retain_split p (x ∷ iter) = elim (Bool-cases (p x)) [
    | inl yes' ↦ rw yes' (Perm.cons x (retain_split p iter))
    | inr no' ↦ rw no' (
        Perm.trans (perm_middle (retain p iter) (retain (λ x. not (p x)) iter))
          (Perm.cons x (retain_split p iter)))
  ]

  -- `partition` loses no item and makes none: the first vector has the items that pass, the second the
  -- others, each in the order of the stream, and together they are the stream's items.
  pub partition_splits :
      (iter : List T) (p : T → Bool)
      → let (left, right) = partition iter p in
        (left ≡ retain p iter) × (right ≡ retain (λ x. not (p x)) iter) × Perm (left ++ right) iter
  unfolding partition
  partition_splits iter p = rw (partition_from_lem iter p [] []) (refl, refl, retain_split p iter)
