-- ===== src/Core/Timer/Restore.antt =====
-- tflo-core/src/timer.rs: a snapshot keeps the timers that are not cancelled, and restoring it brings
-- them back in order.
use mathlib.Core.List.{Perm, filter_map, perm_middle}
use mathlib.Core.List.Perm
use tflo.Prelude.{
  ℕ, ◌≡◌, ◌⊎◌, refl, sym, subst, Bool, true, none, some, List, [], ◌∷◌, ◌++◌, map, append-nil,
  if◌then◌else◌, retain, Bool-cases, inl, inr,
}
use tflo.Prelude.Int.{ℤ}
use tflo.Prelude.Heap.{push_heap, push_all, push_heap-perm}
use tflo.Core.Timer.{
  TimerEntry, cmp, TimerService, live, snapshot, restore, hits, tombstone, delete,
}
use tflo.Core.Timer.Fire.{IsFireOrdered, push_all-IsFireOrdered}

map-same {ℓ} : {A : Type ℓ} (xs : List A) → map (λ x. x) xs ≡ xs
map-same [] = refl
map-same (x ∷ xs) = rw (map-same xs) refl

push_all-perm : (es xs : List TimerEntry) → Perm (push_all cmp es xs) (xs ++ es)
push_all-perm es [] = Perm.refl _
push_all-perm es (x ∷ xs) =
    let here : Perm (push_heap cmp x es) (x ∷ es) =
      subst (λ l. Perm l (x ∷ es)) (map-same (push_heap cmp x es))
        (subst (λ l. Perm (map (λ y. y) (push_heap cmp x es)) (x ∷ l)) (map-same es)
          (push_heap-perm cmp (λ y. y) x es)) in
    Perm.trans (push_all-perm (push_heap cmp x es) xs)
      (Perm.trans (Perm.append_left xs here) (perm_middle xs es))

retain-filter_map {ℓ} :
    {A : Type ℓ} (p : A → Bool) (xs : List A)
    → retain p xs ≡ filter_map (λ x. if p x then some x else none) xs
unfolding filter_map
retain-filter_map p [] = refl
retain-filter_map p (x ∷ xs) = elim (Bool-cases (p x)) [
  | inl e ↦ rw (e, retain-filter_map p xs) refl
  | inr e ↦ rw (e, retain-filter_map p xs) refl
]

retain-perm {ℓ} :
    {A : Type ℓ} (p : A → Bool) (xs ys : List A) → Perm xs ys → Perm (retain p xs) (retain p ys)
retain-perm p xs ys h = rw (retain-filter_map p xs, retain-filter_map p ys) (Perm.filter_map _ h)

sorted_perm : (es : List TimerEntry) → Perm (push_all cmp [] es) es
sorted_perm es = subst (Perm (push_all cmp [] es)) (append-nil es) (push_all-perm [] es)

-- Whatever order the heap's vector is in, restoring a snapshot of the timers, over any old timers,
-- brings back those that are not cancelled, each once, and no other, in the order of firing, with the
-- number that the next timer gets.
pub restore-snapshot :
    (vector_of : List TimerEntry → List TimerEntry)
    → ((heap : List TimerEntry) → Perm (vector_of heap) heap)
    → (s old : TimerService)
    → let s' = restore old (snapshot vector_of s) in
      Perm s'.heap (retain live s.heap) × IsFireOrdered none s'.heap × (s'.next_seq ≡ s.next_seq)
restore-snapshot vector_of same s old =
    let kept = retain live (vector_of s.heap) in
    (
      Perm.trans (sorted_perm (push_all cmp [] kept)) (
          Perm.trans (sorted_perm kept) (retain-perm live (vector_of s.heap) s.heap (same s.heap))),
      push_all-IsFireOrdered [] (push_all cmp [] kept) tt,
      refl,
    )

-- What the loop of `delete` does to the entries: it changes none, and no entry is one to cancel, or it
-- puts the tombstone on one that is.
abbrev pub Cancelled : ℤ → ℕ → List TimerEntry → List TimerEntry → Type 0
Cancelled ts node before after =
    (Perm after before × (retain (hits ts node) before ≡ []))
    ⊎ ((e : TimerEntry) × (rest : List TimerEntry) × (hits ts node e ≡ true)
        × Perm before (e ∷ rest)
        × Perm after (record e { deleted = true } ∷ rest))

tombstone-Cancelled :
    (ts : ℤ) (node : ℕ) (es : List TimerEntry) → Cancelled ts node es (tombstone ts node es)
unfolding tombstone
tombstone-Cancelled ts node [] = inl (Perm.refl _, refl)
tombstone-Cancelled ts node (e ∷ es) = elim (Bool-cases (hits ts node e)) [
  | inl hit ↦ rw hit (inr (e, es, hit, Perm.refl _, Perm.refl _))
  | inr miss ↦ elim (tombstone-Cancelled ts node es) [
    | inl (same, no_hit) ↦ rw miss (inl (Perm.cons e same, no_hit))
    | inr (x, rest, hit, before, after) ↦ rw miss (
        inr (
          x,
          e ∷ rest,
          hit,
          Perm.trans (Perm.cons e before) (Perm.swap x e rest),
          Perm.trans (Perm.cons e after) (Perm.swap (record x { deleted = true }) e rest),
        ))
  ]
]

-- Whatever order the heap's vector is in, `delete` keeps the timers, up to order, but that it cancels
-- one timer of the node at that time, if there is one that is not cancelled yet.
pub delete_cancels_one :
    (vector_of : List TimerEntry → List TimerEntry)
    → ((heap : List TimerEntry) → Perm (vector_of heap) heap)
    → (s : TimerService) (ts : ℤ) (node : ℕ)
    → Cancelled ts node s.heap (delete vector_of s ts node).heap
delete_cancels_one vector_of same s ts node =
    let v = vector_of s.heap in
    let back = sorted_perm (tombstone ts node v) in
    elim (tombstone-Cancelled ts node v) [
      | inl (still, no_hit) ↦
          let gone : Perm [] (retain (hits ts node) s.heap) =
            subst (λ l. Perm l (retain (hits ts node) s.heap)) no_hit
              (retain-perm (hits ts node) v s.heap (same s.heap)) in
          inl (Perm.trans back (Perm.trans still (same s.heap)), sym (Perm.nil-eq gone))
      | inr (e, rest, hit, before, after) ↦
          inr (e, rest, hit, Perm.trans (Perm.symm (same s.heap)) before, Perm.trans back after)
    ]
