-- ===== src/Core/Reorder/Conserve.antt =====
-- tflo-core/src/reorder.rs: no event is lost or invented, and what a watermark releases.
use mathlib.Core.List.{Perm, perm_append_comm, perm_append_singleton}
use mathlib.Core.List.Perm
use tflo.Prelude.{
  ◌≡◌, refl, Option, some, List, [], ◌∷◌, ◌++◌, map, arith, Bool-cases, ap, sym, ◌∙◌, subst,
  append-nil, append_assoc, All, inl, inr, is_some_and,
}
use tflo.Prelude.Int.{ℤ, ◌≤ℤ◌, ◌<ℤ◌, ltb_ℤ}
use tflo.Prelude.Heap.{push_heap-perm}
use tflo.Core.Reorder.Calls.{Call, push, tick, end, collect, call, run, pushes, pushed}
use tflo.Core.Reorder.Order.{IsSortedFrom, times, stamps}
use tflo.Core.Reorder.{
  PendingEntry, cmp, ReorderBuffer, drain_from, drain_until, enqueue, step, advance_watermark,
  flush, flush_from, take_late, new, raise,
}

all_after : (w x : ℤ) (xs : List ℤ) → IsSortedFrom (some x) xs → w <ℤ x → All (λ t. w <ℤ t) xs
all_after w x [] h lt = tt
all_after w x (y ∷ ys) h lt = (omega arith, all_after w y ys h.1 (omega arith))

perm_swap {ℓ} : {A : Type ℓ} (xs ys zs : List A) → Perm (xs ++ (ys ++ zs)) (ys ++ (xs ++ zs))
perm_swap xs ys zs =
    rw (← append_assoc xs ys zs, ← append_assoc ys xs zs)
      (Perm.append_right zs (perm_append_comm xs ys))

module _ {ℓ} {E : Type ℓ} where
  abbrev pub pair : PendingEntry E → ℤ × E
  pair e = (e.ts, e.event)

  -- The events that a buffer holds: those in the heap, then the late ones.
  abbrev pub held : ReorderBuffer E → List (ℤ × E)
  held b = map pair b.pending ++ b.late

  pub drain_from_splits :
      (w : ℤ) (es : List (PendingEntry E)) (lo : Option ℤ)
      → let (left, _, out) = drain_from w es lo in map pair es ≡ out ++ map pair left
  unfolding drain_from
  drain_from_splits w [] lo = refl
  drain_from_splits w (e ∷ es) lo = ground (arith, drain_from_splits w es (some e.ts))

  flush_from-out : (es : List (PendingEntry E)) (lo : Option ℤ) → (flush_from es lo).1 ≡ map pair es
  unfolding flush_from
  flush_from-out [] lo = refl
  flush_from-out (e ∷ es) lo = ap (λ r. pair e ∷ r) (flush_from-out es (some e.ts))

  drain_from_exact :
      (w : ℤ) (es : List (PendingEntry E)) (lo : Option ℤ)
      → IsSortedFrom lo (times es)
      → let (left, _, out) = drain_from w es lo in
        All (λ t. t ≤ℤ w) (stamps out) × All (λ t. w <ℤ t) (times left)
  unfolding drain_from
  drain_from_exact w [] lo h = (tt, tt)
  drain_from_exact w (e ∷ es) lo h =
      ground (arith, drain_from_exact w es (some e.ts) h.1, all_after w e.ts (times es))

  -- `drain_until` releases exactly the buffered events at or below the watermark: what it releases,
  -- followed by what it keeps, is the heap as it was, nothing above the watermark is released, and
  -- nothing at or below it is kept.
  pub drain_until_exact :
      (b : ReorderBuffer E) (w : ℤ)
      → IsSortedFrom b.last_ts (times b.pending)
      → let (b', out) = drain_until b w in
        (map pair b.pending ≡ out ++ map pair b'.pending)
        × All (λ t. t ≤ℤ w) (stamps out)
        × All (λ t. w <ℤ t) (times b'.pending)
  unfolding drain_until
  drain_until_exact b w h =
      let (low, high) = drain_from_exact w b.pending b.last_ts h in
      (drain_from_splits w b.pending b.last_ts, low, high)

  -- What a drain hands out, with what stays held.
  drain_until-held :
      (b : ReorderBuffer E) (w : ℤ) → let (b', out) = drain_until b w in out ++ held b' ≡ held b
  unfolding drain_until
  drain_until-held b w =
      let (left, last, out) = drain_from w b.pending b.last_ts in
      sym (append_assoc out (map pair left) b.late)
      ∙ ap (λ xs. xs ++ b.late) (sym (drain_from_splits w b.pending b.last_ts))

  step-perm :
      (b : ReorderBuffer E) (ts : ℤ) (e : E)
      → let (b', out) = step b ts e in Perm (out ++ held b') ((ts, e) ∷ held b)
  unfolding step enqueue
  step-perm b ts e = elim (Bool-cases (is_some_and b.last_ts (λ last. ltb_ℤ ts last))) [
    | inl late ↦
        rw (late, ← append_assoc (map pair b.pending) b.late ((ts, e) ∷ []))
          (perm_append_singleton (ts, e) (held b))
    | inr fine ↦
        rw (fine, drain_until-held (enqueue b ts e) _)
          (Perm.append_right b.late (push_heap-perm cmp pair _ b.pending))
  ]

  call-perm :
      (b : ReorderBuffer E) (c : Call E)
      → let (b', out, late) = call b c in Perm (out ++ (late ++ held b')) (pushes c ++ held b)
  unfolding advance_watermark flush take_late
  call-perm b (push ts e) = step-perm b ts e
  call-perm b (tick now) =
      rw (drain_until-held (record b { max_ts_seen = some (raise b.max_ts_seen now) }) _)
        (Perm.refl (held b))
  call-perm b end = rw (flush_from-out b.pending b.last_ts) (Perm.refl (held b))
  call-perm b collect = rw append-nil (perm_append_comm b.late (map pair b.pending))

  run-perm :
      (b : ReorderBuffer E) (cs : List (Call E))
      → let (b', out, late) = run b cs in Perm (out ++ (late ++ held b')) (pushed cs ++ held b)
  run-perm b [] = Perm.refl (held b)
  run-perm b (c ∷ cs) =
      let (b₁, out, late) = call b c in
      let (b₂, outs, lates) = run b₁ cs in
      let rest = pushed cs in
      let ih = Perm.append_left late (run-perm b₁ cs) in
      rw (append_assoc out outs _, append_assoc late lates _, append_assoc (pushes c) rest _)
        (Perm.trans (Perm.append_left out (perm_swap outs late (lates ++ held b₂))) (
          Perm.trans (Perm.append_left out ih) (
            Perm.trans (Perm.append_left out (perm_swap late rest (held b₁))) (
              Perm.trans (perm_swap out rest (late ++ held b₁)) (
                Perm.trans (Perm.append_left rest (call-perm b c))
                  (perm_swap rest (pushes c) (held b)))))))

  -- Every event that is pushed into a new buffer is released, handed over as late, or still held,
  -- each exactly once: the three together are a permutation of the events pushed.
  pub run_conserves :
      (lateness : ℤ) (cs : List (Call E))
      → let (b, out, late) = run (new lateness) cs in Perm (out ++ (late ++ held b)) (pushed cs)
  unfolding new
  run_conserves lateness cs = subst (Perm _) (append-nil (pushed cs)) (run-perm (new lateness) cs)
