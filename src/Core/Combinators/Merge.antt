-- ===== src/Core/Combinators/Merge.antt =====
-- tflo-core/src/combinators/merge.rs: the merge of sorted iterators by a key. An iterator is the list of
-- its items, and a key is an integer, such as a time stamp. The heap is the list of its entries in no
-- order; `pop` is that of the standard library's heap, which leaves open which of the entries with the
-- least key it takes. The key function is a parameter in place of a field, and each iterator stands without
-- the `Some` around it, which the source never takes away.
pub mod Lanes
pub mod Sorted
mod Tests
use tflo.Prelude.{ℕ, zero, suc, ◌+◌, Option, none, some, List, [], ◌∷◌, ◌>>=◌}
use tflo.Prelude.Int.{ℤ}

pub record HeapEntry {ℓ} (T : Type ℓ) : Type ℓ where
  pub key : ℤ
  pub value : T
  pub source_idx : ℕ

pub record MergeByKey {ℓ} (T : Type ℓ) : Type ℓ where
  pub heap : List (HeapEntry T)
  pub iters : List (List T)

module _ {ℓ} {T : Type ℓ} where
  abbrev pub entry : (T → ℤ) → T → ℕ → HeapEntry T
  entry key_fn value idx = record { key = key_fn value; value = value; source_idx = idx }

  -- `next` on the iterator at an index, if there is one.
  abbrev pub next_at : List (List T) → ℕ → Option T × List (List T)
  next_at [] idx = (none, [])
  next_at ([] ∷ iters) zero = (none, [] ∷ iters)
  next_at ((value ∷ iter) ∷ iters) zero = (some value, iter ∷ iters)
  next_at (iter ∷ iters) (suc idx) = let (o, iters') = next_at iters idx in (o, iter ∷ iters')

  -- `push` of an entry for the item, if there is one.
  abbrev pub push : (T → ℤ) → ℕ → Option T → List (HeapEntry T) → List (HeapEntry T)
  push key_fn idx none heap = heap
  push key_fn idx (some value) heap = entry key_fn value idx ∷ heap

  -- The loop of `new`, from the iterator at an index on.
  abbrev pub start : (T → ℤ) → ℕ → List (List T) → List (HeapEntry T) × List (List T)
  start key_fn idx [] = ([], [])
  start key_fn idx ([] ∷ iters) =
      let (heap, iters') = start key_fn (suc idx) iters in (heap, [] ∷ iters')
  start key_fn idx ((value ∷ iter) ∷ iters) =
      let (heap, iters') = start key_fn (suc idx) iters in
      (entry key_fn value idx ∷ heap, iter ∷ iters')

  unfoldable pub merge_by_timestamp : List (List T) → (T → ℤ) → MergeByKey T
  merge_by_timestamp iters key_fn =
      let (heap, iters') = start key_fn 0 iters in record { heap = heap; iters = iters' }

  -- The refill from the source of the entry that was popped.
  abbrev pub refill : (T → ℤ) → List (List T) → HeapEntry T × List (HeapEntry T) → T × MergeByKey T
  refill key_fn iters (e, heap) =
      let (o, iters') = next_at iters e.source_idx in
      (e.value, record { heap = push key_fn e.source_idx o heap; iters = iters' })

module _ {ℓ} {T : Type ℓ} (pop : List (HeapEntry T) → Option (HeapEntry T × List (HeapEntry T)))
    (key_fn : T → ℤ) where
  unfoldable pub next : MergeByKey T → Option (T × MergeByKey T)
  next m = do popped ← pop m.heap; some (refill key_fn m.iters popped)

  abbrev pub take_item :
      (MergeByKey T → Option (List T)) → Option (T × MergeByKey T) → Option (List T)
  take_item rest none = some []
  take_item rest (some (value, m)) = do values ← rest m; some (value ∷ values)

  -- The items that `next` yields until it ends; `none` if the fuel ends first.
  unfoldable pub collect : ℕ → MergeByKey T → Option (List T)
  collect zero m = none
  collect (suc fuel) m = take_item (λ m'. collect fuel m') (next m)
