-- ===== src/Core/Reorder/Order.antt =====
-- tflo-core/src/reorder.rs: the order of release, over every sequence of calls.
use tflo.Prelude.{
  ◌≡◌, refl, false, Option, none, some, List, [], ◌∷◌, ◌++◌, map, map-append, arith, Bool-cases,
  inl, inr, is_some_and, ap, subst, sym, ◌∙◌,
}
use tflo.Prelude.Int.{ℤ, ◌≤ℤ◌, ltb_ℤ}
use tflo.Prelude.Heap.{push_heap}
use tflo.Core.Reorder.Calls.{Call, push, tick, end, collect, call, run}
use tflo.Core.Reorder.{
  PendingEntry, cmp, ReorderBuffer, drain_from, drain_until, enqueue, step, advance_watermark,
  flush, flush_from, take_late, new, raise,
}

-- `x` is not behind the frontier `lo`.
abbrev pub NotBehind : Option ℤ → ℤ → Type 0
NotBehind none x = Unit
NotBehind (some l) x = l ≤ℤ x

-- Ascending, and from `lo` on.
abbrev pub IsSortedFrom : Option ℤ → List ℤ → Type 0
IsSortedFrom lo [] = Unit
IsSortedFrom lo (x ∷ xs) = NotBehind lo x × IsSortedFrom (some x) xs

-- The frontier after the values have been released.
abbrev pub frontier : Option ℤ → List ℤ → Option ℤ
frontier lo [] = lo
frontier lo (x ∷ xs) = frontier (some x) xs

pub IsSortedFrom-append :
    (lo : Option ℤ) (xs ys : List ℤ)
    → IsSortedFrom lo xs
    → IsSortedFrom (frontier lo xs) ys
    → IsSortedFrom lo (xs ++ ys)
IsSortedFrom-append lo [] ys h k = k
IsSortedFrom-append lo (x ∷ xs) ys h k = (h.0, IsSortedFrom-append (some x) xs ys h.1 k)

pub frontier-append :
    (lo : Option ℤ) (xs ys : List ℤ) → frontier lo (xs ++ ys) ≡ frontier (frontier lo xs) ys
frontier-append lo [] ys = refl
frontier-append lo (x ∷ xs) ys = frontier-append (some x) xs ys

pub IsSortedFrom-weaken :
    (lo : Option ℤ) (x : ℤ) (xs : List ℤ)
    → NotBehind lo x
    → IsSortedFrom (some x) xs
    → IsSortedFrom lo xs
IsSortedFrom-weaken lo x [] n h = tt
IsSortedFrom-weaken none x (y ∷ ys) n h = (tt, h.1)
IsSortedFrom-weaken (some l) x (y ∷ ys) n h = (omega arith, h.1)

pub not_behind :
    (last : Option ℤ) (ts : ℤ) → is_some_and last (λ l. ltb_ℤ ts l) ≡ false → NotBehind last ts
not_behind none ts h = tt
not_behind (some l) ts h = ground arith

module _ {ℓ} {E : Type ℓ} where
  abbrev pub times : List (PendingEntry E) → List ℤ
  times = map (λ e. e.ts)

  abbrev pub stamps : List (ℤ × E) → List ℤ
  stamps = map (λ p. p.0)

  -- A heap in order of time stamps stays so under a push of what is not behind the frontier.
  pub push_heap-IsSortedFrom :
      (lo : Option ℤ) (e : PendingEntry E) (es : List (PendingEntry E))
      → NotBehind lo e.ts
      → IsSortedFrom lo (times es)
      → IsSortedFrom lo (times (push_heap cmp e es))
  push_heap-IsSortedFrom lo e [] n h = (n, tt)
  push_heap-IsSortedFrom lo e (y ∷ ys) n h = ground (arith, push_heap-IsSortedFrom (some y.ts) e ys)

  -- `drain_from` releases in order, from the frontier on, and leaves the rest in order after that.
  pub drain_from_ordered :
      (w : ℤ) (es : List (PendingEntry E)) (lo : Option ℤ)
      → IsSortedFrom lo (times es)
      → let (left, last, out) = drain_from w es lo in
        IsSortedFrom lo (stamps out)
        × (last ≡ frontier lo (stamps out))
        × IsSortedFrom last (times left)
  unfolding drain_from
  drain_from_ordered w [] lo h = (tt, refl, tt)
  drain_from_ordered w (e ∷ es) lo h = ground (arith, drain_from_ordered w es (some e.ts) h.1)

  pub drain_until_ordered :
      (b : ReorderBuffer E) (w : ℤ)
      → IsSortedFrom b.last_ts (times b.pending)
      → let (b', out) = drain_until b w in
        IsSortedFrom b.last_ts (stamps out)
        × (b'.last_ts ≡ frontier b.last_ts (stamps out))
        × IsSortedFrom b'.last_ts (times b'.pending)
  unfolding drain_until
  drain_until_ordered b w h = drain_from_ordered w b.pending b.last_ts h

  flush_from_ordered :
      (es : List (PendingEntry E)) (lo : Option ℤ)
      → IsSortedFrom lo (times es)
      → let (last, out) = flush_from es lo in
        IsSortedFrom lo (stamps out) × (last ≡ frontier lo (stamps out))
  unfolding flush_from
  flush_from_ordered [] lo h = (tt, refl)
  flush_from_ordered (e ∷ es) lo h = ground (arith, flush_from_ordered es (some e.ts) h.1)

  -- One call keeps the order of the heap, and releases in order from the frontier on.
  pub call_ordered :
      (b : ReorderBuffer E) (c : Call E)
      → IsSortedFrom b.last_ts (times b.pending)
      → let (b', out, _) = call b c in
        IsSortedFrom b.last_ts (stamps out)
        × (b'.last_ts ≡ frontier b.last_ts (stamps out))
        × IsSortedFrom b'.last_ts (times b'.pending)
  unfolding step advance_watermark flush take_late enqueue
  call_ordered b (push ts e) h = elim (Bool-cases (is_some_and b.last_ts (λ last. ltb_ℤ ts last))) [
    | inl late ↦ rw late (tt, refl, h)
    | inr fine ↦ rw fine (
        drain_until_ordered (enqueue b ts e) _
          (push_heap-IsSortedFrom b.last_ts _ b.pending (not_behind b.last_ts ts fine) h))
  ]
  call_ordered b (tick now) h =
      drain_until_ordered (record b { max_ts_seen = some (raise b.max_ts_seen now) }) _ h
  call_ordered b end h =
      let (sorted, last) = flush_from_ordered b.pending b.last_ts h in (sorted, last, tt)
  call_ordered b collect h = (tt, refl, h)

  run_ordered :
      (b : ReorderBuffer E) (cs : List (Call E))
      → IsSortedFrom b.last_ts (times b.pending)
      → let (b', out, _) = run b cs in
        IsSortedFrom b.last_ts (stamps out)
        × (b'.last_ts ≡ frontier b.last_ts (stamps out))
        × IsSortedFrom b'.last_ts (times b'.pending)
  run_ordered b [] h = (tt, refl, h)
  run_ordered b (c ∷ cs) h =
      let (b₁, out, late) = call b c in
      let (b₂, outs, lates) = run b₁ cs in
      let (sorted, last, kept) = call_ordered b c h in
      let (sorted', last', kept') = run_ordered b₁ cs kept in
      rw map-append (
        IsSortedFrom-append b.last_ts (stamps out) (stamps outs) sorted
            (subst (λ f. IsSortedFrom f (stamps outs)) last sorted'),
        last'
            ∙ ap (λ f. frontier f (stamps outs)) last
            ∙ sym (frontier-append b.last_ts (stamps out) (stamps outs)),
        kept',
      )

  -- Whatever calls are made on a new buffer, in whatever order the events arrive, the events that it
  -- releases over its whole life come in ascending order of their time stamps.
  pub run_releases_in_order :
      (lateness : ℤ) (cs : List (Call E)) → IsSortedFrom none (stamps (run (new lateness) cs).1)
  unfolding new
  run_releases_in_order lateness cs = (run_ordered (new lateness) cs tt).0
