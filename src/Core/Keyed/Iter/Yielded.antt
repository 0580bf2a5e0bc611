-- ===== src/Core/Keyed/Iter/Yielded.antt =====
-- tflo-core/src/keyed.rs: the calls of `next` on `TFloKeyedIter`, until it ends.
use mathlib.Core.List.{Perm}
use tflo.Prelude.{
  ℕ, zero, suc, ◌<◌, ◌≡◌, refl, sym, ap, ◌∙◌, subst, ◌↔◌, Bool, true, false, Option, none, some,
  List, [], ◌∷◌, ◌++◌, map, map-append, append-nil, append_assoc, arith, if◌then◌else◌, length, ok,
  Option-cases, inl, inr,
}
use tflo.Prelude.Int.{ℤ}
use tflo.Core.Keyed.{OutOfOrderPolicy, Graph, KeyedGraphState, new, step, flush}
use tflo.Core.Keyed
use tflo.Core.Keyed.Iter.{
  TFloKeyedIter, Yield, emitted, find, put, entry, keys, flush_key, flush_from, make, routed,
  pop_or, at_end, next_from, next, take_item, collect,
}
use tflo.Core.Keyed.Iter.Interleaved.{
  of_key, alone, records_of, untag-tag_append, run, flush_run, all_outputs, all_outputs-of_key,
}

module _ {ℓ} {G R K O : Type ℓ} (g : Graph G R K O) (same_key : K → K → Bool)
    (same : (a b : K) → (same_key a b ≡ true) ↔ (a ≡ b)) (order : List K → List K)
    (timestamp_fn : R → ℤ) (key_fn : R → K) (fresh : KeyedGraphState G R) where
  abbrev Iter : Type ℓ
  Iter = TFloKeyedIter G R K O

  abbrev mk : List R → List (K × KeyedGraphState G R) → List (Yield K O) → Bool → Iter
  mk iter graphs queue flushed = record {
    iter = iter;
    graphs = graphs;
    ready_queue = queue;
    flushed = flushed;
  }

  abbrev untagged : List (K × Yield K O) → List (Yield K O)
  untagged tagged = map (λ x. x.1) tagged

  -- What is still to come out.
  abbrev left : Iter → List (Yield K O)
  left it =
      let (out, graphs) = run g same_key same timestamp_fn key_fn fresh it.iter it.graphs in
      let last =
        (flush_run g same_key same timestamp_fn key_fn fresh (order (keys graphs)) graphs).0 in
      it.ready_queue ++ (untagged out ++ (if it.flushed then [] else untagged last))

  flush_from-run :
      (ks : List K) (iter : List R) (graphs : List (K × KeyedGraphState G R))
      (queue : List (Yield K O)) (flushed : Bool)
      → let (out, graphs') = flush_run g same_key same timestamp_fn key_fn fresh ks graphs in
        flush_from g same_key ks (mk iter graphs queue flushed)
        ≡ mk iter graphs' (queue ++ untagged out) flushed
  flush_from-run [] iter graphs queue flushed =
      ap (λ q. mk iter graphs q flushed) (sym (append-nil queue))
  flush_from-run (key ∷ ks) iter graphs queue flushed =
      elim (Option-cases (find same_key key graphs)) [
        | inl e ↦ rw (e, flush_key, flush_run) (flush_from-run ks iter graphs queue flushed)
        | inr (s, e) ↦
            rw (e, flush_key, flush_run)
              (let s' = flush g s key in
                let rest =
                  (flush_run g same_key same timestamp_fn key_fn fresh ks
                    (put same_key key s'.1 graphs)) in
                flush_from-run ks iter (put same_key key s'.1 graphs) (queue ++ emitted s'.0)
                  flushed
                ∙ ap (λ q. mk iter rest.1 q flushed)
                    (append_assoc queue (emitted s'.0) (untagged rest.0)
                      ∙ ap (λ l. queue ++ l) (sym (untag-tag_append key (emitted s'.0) rest.0))))
      ]

  -- A call of `next` that takes the first of what is to come out.
  abbrev Takes : List (Yield K O) → Option (Yield K O) × Iter → Type ℓ
  Takes [] (none, it) = Unit
  Takes [] (some y, it) = ⊥ × Unit {ℓ}
  Takes (y ∷ ys) (none, it) = ⊥ × Unit {ℓ}
  Takes (y ∷ ys) (some y', it) = (y' ≡ y) × (left it ≡ ys)

  pop_or-Takes :
      (graphs : List (K × KeyedGraphState G R)) (queue : List (Yield K O))
      → let it = mk [] graphs queue true in
        Takes queue (pop_or g same_key order timestamp_fn key_fn fresh (none, it) it)
  pop_or-Takes graphs [] = tt
  pop_or-Takes graphs (y ∷ queue) = (refl, append-nil queue)

  next_from-Takes :
      (iter : List R) (graphs : List (K × KeyedGraphState G R)) (queue : List (Yield K O))
      (flushed : Bool)
      → let it = mk iter graphs queue flushed in
        Takes (left it) (next_from g same_key order timestamp_fn key_fn fresh iter it)
  unfolding next_from routed at_end
  next_from-Takes [] graphs (y ∷ queue) flushed = (refl, refl)
  next_from-Takes (rec ∷ iter) graphs (y ∷ queue) flushed = (refl, refl)
  next_from-Takes [] graphs [] true = tt
  next_from-Takes [] graphs [] false =
      rw (flush_from-run (order (keys graphs)) [] graphs [] true) (pop_or-Takes _ _)
  next_from-Takes (rec ∷ iter) graphs [] flushed =
      let key = key_fn rec in
      let r = step g (entry same_key fresh key graphs) rec (timestamp_fn rec) key in
      let graphs' = put same_key key r.1 graphs in
      let (out, final) = run g same_key same timestamp_fn key_fn fresh iter graphs' in
      let last =
        (flush_run g same_key same timestamp_fn key_fn fresh (order (keys final)) final).0 in
      let tail = if flushed then [] else untagged last in
      subst
        (λ ys. Takes ys (
          next_from g same_key order timestamp_fn key_fn fresh iter
            (mk iter graphs' (emitted r.0) flushed)))
        (sym (
          ap (λ l. l ++ tail) (untag-tag_append key (emitted r.0) out)
          ∙ append_assoc (emitted r.0) (untagged out) tail))
        (next_from-Takes iter graphs' (emitted r.0) flushed)

  take-Takes :
      (n : ℕ) (ys : List (Yield K O)) (r : Option (Yield K O) × Iter)
      → Takes ys r
      → length ys < suc n
      → ((it : Iter) (ys' : List (Yield K O))
          → left it ≡ ys'
          → length ys' < n
          → collect g same_key order timestamp_fn key_fn fresh n it ≡ some ys')
      → take_item g same_key order timestamp_fn key_fn fresh
          (λ it. collect g same_key order timestamp_fn key_fn fresh n it)
          r
        ≡ some ys
  take-Takes n [] (none, it) t small rest = refl
  take-Takes n [] (some y, it) t small rest = absurd t.0
  take-Takes n (y ∷ ys) (none, it) t small rest = absurd t.0
  take-Takes n (y ∷ ys) (some y', it) t small rest =
      rw (rest it ys t.1 (omega arith), t.0, take_item) refl

  collect-left :
      (n : ℕ) (it : Iter) (ys : List (Yield K O))
      → left it ≡ ys
      → length ys < n
      → collect g same_key order timestamp_fn key_fn fresh n it ≡ some ys
  unfolding collect next
  collect-left zero it ys e small = absurd (omega arith)
  collect-left (suc n) it ys e small =
      take-Takes n ys _
        (subst (λ l. Takes l (next g same_key order timestamp_fn key_fn fresh it)) e
          (next_from-Takes it.iter it.graphs it.ready_queue it.flushed))
        small (collect-left n)

flush-new {ℓ} :
    {G R K O : Type ℓ} (g : Graph G R K O) (graph : G) (policy : OutOfOrderPolicy) (k : K)
    → (flush g (new graph policy) k).0 ≡ ok []
unfolding flush Keyed.flush_from Keyed.flush_timers
flush-new g graph policy k = refl

-- Calls of `next` on a new iterator end, after which all that they have yielded, errors included, can be
-- assigned to keys so that, for each key, what is assigned to it is, in order, what the state of that
-- key alone emits for the steps of its own records and one flush at the end; so no record of one key
-- changes what another yields. This holds for every order in which the hash map is walked.
pub keys_are_isolated {ℓ} :
    {G R K O : Type ℓ} (g : Graph G R K O) (same_key : K → K → Bool)
    (same : (a b : K) → (same_key a b ≡ true) ↔ (a ≡ b)) (order : List K → List K)
    (order-perm : (ks : List K) → Perm (order ks) ks) (timestamp_fn : R → ℤ) (key_fn : R → K)
    (graph : G) (policy : OutOfOrderPolicy) (iter : List R)
    → let fresh = new graph policy in
      (fuel : ℕ) × (tagged : List (K × Yield K O)) × (collect g same_key order timestamp_fn key_fn
          fresh fuel
          (make g same_key order timestamp_fn key_fn fresh iter)
        ≡ some (map (λ x. x.1) tagged))
      × ((k : K)
          → of_key same_key k tagged
            ≡ alone g timestamp_fn k fresh (records_of same_key key_fn k iter))
keys_are_isolated g same_key same order order-perm timestamp_fn key_fn graph policy iter =
    let fresh = new graph policy in
    let tagged =
      all_outputs g same_key same timestamp_fn key_fn fresh order order-perm
        (flush-new g graph policy) iter [] in
    let ys = map (λ x. x.1) tagged in
    (
      suc (length ys),
      tagged,
      collect-left g same_key same order timestamp_fn key_fn fresh (suc (length ys)) _ ys
          (sym (map-append _ _ _)) (omega arith),
      λ k.
          all_outputs-of_key g same_key same timestamp_fn key_fn fresh order order-perm
            (flush-new g graph policy) k iter,
    )
