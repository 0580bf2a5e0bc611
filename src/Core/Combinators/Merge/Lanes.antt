-- ===== src/Core/Combinators/Merge/Lanes.antt =====
-- tflo-core/src/combinators/merge.rs: the lanes of a merge, which are the items of each source that the
-- merge has not yielded, with the one that stands in the heap. Up to the order of its heap, a merge is
-- the one that `start` makes of its lanes.
use mathlib.Core.List.{Memᴰ, cons≢nil, Perm, perm_middle, flatten}
use mathlib.Core.List.Memᴰ
use mathlib.Core.List.Perm
use tflo.Prelude.{
  ℕ, suc, ◌+◌, ◌≡◌, refl, sym, ap, ◌∙◌, subst, List, [], ◌∷◌, ◌++◌, arith, inl, inr, length, head?,
  All, All-map, All-append, append_assoc, length-append,
}
use tflo.Prelude.Int.{ℤ, ◌≤ℤ◌}
use tflo.Core.Combinators.Merge.{HeapEntry, entry, next_at, push, start}

pub flatten-append {ℓ} :
    {T : Type ℓ} (before after : List (List T))
    → flatten (before ++ after) ≡ flatten before ++ flatten after
unfolding flatten
flatten-append [] after = refl
flatten-append (a ∷ before) after =
    rw (flatten-append before after, append_assoc a (flatten before) (flatten after)) refl

-- An item that a lane gives up is one of the items less.
pub flatten_middle {ℓ} :
    {T : Type ℓ} (before : List (List T)) (v : T) (lane : List T) (after : List (List T))
    → Perm (flatten (before ++ ((v ∷ lane) ∷ after))) (v ∷ flatten (before ++ (lane ∷ after)))
unfolding flatten
flatten_middle before v lane after =
    rw (flatten-append before ((v ∷ lane) ∷ after), flatten-append before (lane ∷ after))
      (perm_middle (flatten before) (lane ++ flatten after))

pub length-flatten_middle {ℓ} :
    {T : Type ℓ} (before : List (List T)) (v : T) (lane : List T) (after : List (List T))
    → length (flatten (before ++ ((v ∷ lane) ∷ after)))
      ≡ suc (length (flatten (before ++ (lane ∷ after))))
unfolding flatten
length-flatten_middle before v lane after =
    rw
      (
        flatten-append before ((v ∷ lane) ∷ after),
        flatten-append before (lane ∷ after),
        length-append (flatten before) ((v ∷ lane) ++ flatten after),
        length-append (flatten before) (lane ++ flatten after),
      )
      (omega arith)

module _ {ℓ} {T : Type ℓ} (key_fn : T → ℤ) where
  -- In ascending order of the keys.
  abbrev pub IsSorted : List T → Type 0
  IsSorted [] = Unit
  IsSorted (x ∷ xs) = All (λ y. key_fn x ≤ℤ key_fn y) xs × IsSorted xs

  pub start-append_heap :
      (k : ℕ) (before after : List (List T))
      → (start key_fn k (before ++ after)).0
        ≡ (start key_fn k before).0 ++ (start key_fn (length before + k) after).0
  start-append_heap k [] after = ap (λ n. (start key_fn n after).0) (omega arith)
  start-append_heap k ([] ∷ before) after =
      start-append_heap (suc k) before after
      ∙ ap (λ n. (start key_fn (suc k) before).0 ++ (start key_fn n after).0) (omega arith)
  start-append_heap k ((v ∷ lane) ∷ before) after =
      ap (λ h. entry key_fn v k ∷ h)
        (start-append_heap (suc k) before after
          ∙ ap (λ n. (start key_fn (suc k) before).0 ++ (start key_fn n after).0) (omega arith))

  -- The source of the entry gives the next item of its lane.
  pub next_at-start :
      (k : ℕ) (before : List (List T)) (v : T) (lane : List T) (after : List (List T))
      → next_at (start key_fn k (before ++ ((v ∷ lane) ∷ after))).1 (length before)
        ≡ (head? lane, (start key_fn k (before ++ (lane ∷ after))).1)
  next_at-start k [] v [] after = refl
  next_at-start k [] v (w ∷ lane) after = refl
  next_at-start k ([] ∷ before) v lane after =
      ap (λ r. (r.0, [] ∷ r.1)) (next_at-start (suc k) before v lane after)
  next_at-start k ((w ∷ l) ∷ before) v lane after =
      ap (λ r. (r.0, l ∷ r.1)) (next_at-start (suc k) before v lane after)

  -- An entry of the heap is the front of the lane of its source.
  pub front_of :
      (k : ℕ) (lanes : List (List T)) {e : HeapEntry T}
      → Memᴰ e (start key_fn k lanes).0
      → (before : List (List T)) × (v : T) × (lane : List T) × (after : List (List T)) × (lanes
          ≡ before ++ ((v ∷ lane) ∷ after))
        × (e ≡ entry key_fn v (length before + k))
  front_of k [] m = absurd (Memᴰ.not-nil m)
  front_of k ([] ∷ lanes) m =
      let (before, v, lane, after, split, front) = front_of (suc k) lanes m in
      (
        [] ∷ before,
        v,
        lane,
        after,
        ap (λ ls. [] ∷ ls) split,
        front ∙ ap (λ n. entry key_fn v n) (omega arith),
      )
  front_of k ((w ∷ l) ∷ lanes) m = elim (Memᴰ.cases_cons m) [
    | inl e ↦ ([], w, l, lanes, refl, e ∙ ap (λ n. entry key_fn w n) (omega arith))
    | inr m' ↦
        let (before, v, lane, after, split, front) = front_of (suc k) lanes m' in
        (
          (w ∷ l) ∷ before,
          v,
          lane,
          after,
          ap (λ ls. (w ∷ l) ∷ ls) split,
          front ∙ ap (λ n. entry key_fn v n) (omega arith),
        )
  ]

  start_heap :
      (before after : List (List T))
      → (start key_fn 0 (before ++ after)).0
        ≡ (start key_fn 0 before).0 ++ (start key_fn (length before) after).0
  start_heap before after =
      start-append_heap 0 before after
      ∙ ap (λ n. (start key_fn 0 before).0 ++ (start key_fn n after).0) (omega arith)

  -- The refill brings the next item of the lane to the heap.
  pub refill_heap :
      (before : List (List T)) (v : T) (lane : List T) (after : List (List T))
      (rest : List (HeapEntry T))
      → Perm
          (entry key_fn v (length before) ∷ rest)
          (start key_fn 0 (before ++ ((v ∷ lane) ∷ after))).0
      → Perm
          (push key_fn (length before) (head? lane) rest)
          (start key_fn 0 (before ++ (lane ∷ after))).0
  refill_heap before v lane after rest p =
      let left = (start key_fn 0 before).0 in
      let right = (start key_fn (suc (length before)) after).0 in
      let all' : Perm (entry key_fn v (length before) ∷ rest)
          (left ++ (entry key_fn v (length before) ∷ right)) =
        subst (λ h. Perm (entry key_fn v (length before) ∷ rest) h)
          (start_heap before ((v ∷ lane) ∷ after)) p in
      let less : Perm rest (left ++ right) =
        Perm.cons_inv (Perm.trans all' (perm_middle left right)) in
      subst (λ h. Perm (push key_fn (length before) (head? lane) rest) h)
        (sym (start_heap before (lane ∷ after)))
        (elim lane
          as (λ l.
            Perm (push key_fn (length before) (head? l) rest)
              (left ++ (start key_fn (length before) (l ∷ after)).0)) [
                | [] ↦ less
                | w ∷ l ↦ Perm.trans (Perm.cons _ less) (Perm.symm (perm_middle left right))
              ])

  -- A bound of the entries in the heap is one of all items, for sorted lanes.
  pub least_of_all :
      (m : ℤ) (k : ℕ) (lanes : List (List T))
      → All IsSorted lanes
      → All (λ y. m ≤ℤ y.key) (start key_fn k lanes).0
      → All (λ x. m ≤ℤ key_fn x) (flatten lanes)
  unfolding flatten
  least_of_all m k [] sorted low = tt
  least_of_all m k ([] ∷ lanes) sorted low = least_of_all m (suc k) lanes sorted.1 low
  least_of_all m k ((v ∷ lane) ∷ lanes) sorted low = (
    low.0,
    All-append (λ x. m ≤ℤ key_fn x) lane (flatten lanes)
        (All-map (λ y. key_fn v ≤ℤ key_fn y) (λ y. m ≤ℤ key_fn y) lane (λ y le. omega arith)
          sorted.0.0)
        (least_of_all m (suc k) lanes sorted.1 low.1),
  )

  start_nil : (k : ℕ) (lanes : List (List T)) → (start key_fn k lanes).0 ≡ [] → flatten lanes ≡ []
  unfolding flatten
  start_nil k [] e = refl
  start_nil k ([] ∷ lanes) e = start_nil (suc k) lanes e
  start_nil k ((v ∷ lane) ∷ lanes) e = absurd (cons≢nil e)

  -- With an empty heap no item is left.
  pub none_left : (lanes : List (List T)) → Perm [] (start key_fn 0 lanes).0 → flatten lanes ≡ []
  none_left lanes p = start_nil 0 lanes (Perm.eq-nil (Perm.symm p))
