-- ===== src/Core/Keyed/Iter/Interleaved.antt =====
-- tflo-core/src/keyed.rs: what `TFloKeyedIter` yields, key by key.
use mathlib.Core.List.{Perm}
use tflo.Prelude.{
  ◌≡◌, refl, sym, ap, ◌∙◌, subst, ◌↔◌, Bool, true, false, none, some, List, [], ◌∷◌, ◌++◌, map,
  map-append, append-nil, arith, if◌then◌else◌, retain, ok, ok, retain-append, Bool-cases,
  Option-cases, inl, inr,
}
use tflo.Prelude.Int.{ℤ}
use tflo.Core.Keyed.{Graph, KeyedGraphState, step, flush}
use tflo.Core.Keyed.Iter.{Yield, emitted, find, put, entry, keys}
use tflo.Core.Keyed.Iter.Visits.{count, count-perm, AtMostOnce, find-put, AtMostOnce-put, entry-put}

abbrev pub tag {ℓ} : {K Y : Type ℓ} → K → List Y → List (K × Y)
tag key ys = map (λ y. (key, y)) ys

-- What stands with a key, in order.
abbrev pub of_key {ℓ} : {K Y : Type ℓ} → (K → K → Bool) → K → List (K × Y) → List Y
of_key same_key k tagged = map (λ x. x.1) (retain (λ x. same_key k x.0) tagged)

of_key-append {ℓ} :
    {K Y : Type ℓ} (same_key : K → K → Bool) (k : K) (xs ys : List (K × Y))
    → of_key same_key k (xs ++ ys) ≡ of_key same_key k xs ++ of_key same_key k ys
of_key-append same_key k xs ys = rw (retain-append (λ x. same_key k x.0) xs ys, map-append) refl

of_key-tag {ℓ} :
    {K Y : Type ℓ} (same_key : K → K → Bool) (k key : K) (ys : List Y)
    → of_key same_key k (tag key ys) ≡ (if same_key k key then ys else [])
of_key-tag same_key k key [] = ground arith
of_key-tag same_key k key (y ∷ ys) = elim (Bool-cases (same_key k key)) [
  | inl e ↦ rw e (ap (λ l. y ∷ l) (of_key-tag same_key k key ys ∙ rw e refl))
  | inr e ↦ rw e (of_key-tag same_key k key ys ∙ rw e refl)
]

of_key-own {ℓ} :
    {K Y : Type ℓ} (same_key : K → K → Bool) (k key : K)
    → same_key k key ≡ true
    → (ys : List Y) (rest : List (K × Y))
    → of_key same_key k (tag key ys ++ rest) ≡ ys ++ of_key same_key k rest
of_key-own same_key k key e ys rest =
    rw (of_key-append same_key k (tag key ys) rest, of_key-tag same_key k key ys, e) refl

of_key-others {ℓ} :
    {K Y : Type ℓ} (same_key : K → K → Bool) (k key : K)
    → same_key k key ≡ false
    → (ys : List Y) (rest : List (K × Y))
    → of_key same_key k (tag key ys ++ rest) ≡ of_key same_key k rest
of_key-others same_key k key e ys rest =
    rw (of_key-append same_key k (tag key ys) rest, of_key-tag same_key k key ys, e) refl

pub untag-tag_append {ℓ} :
    {K Y : Type ℓ} (key : K) (ys : List Y) (rest : List (K × Y))
    → map (λ x. x.1) (tag key ys ++ rest) ≡ ys ++ map (λ x. x.1) rest
untag-tag_append key [] rest = refl
untag-tag_append key (y ∷ ys) rest = ap (λ l. y ∷ l) (untag-tag_append key ys rest)

module _ {ℓ} {G R K O : Type ℓ} (g : Graph G R K O) (timestamp_fn : R → ℤ) where
  -- The calls of `step` on the state of one key, and what they emit.
  abbrev pub steps : K → KeyedGraphState G R → List R → List (Yield K O) × KeyedGraphState G R
  steps key s [] = ([], s)
  steps key s (rec ∷ iter) =
      let (items, s') = step g s rec (timestamp_fn rec) key in
      let (rest, last) = steps key s' iter in (emitted items ++ rest, last)

  -- What one key emits for its records and the flush at the end.
  abbrev pub alone : K → KeyedGraphState G R → List R → List (Yield K O)
  alone key s iter = let (out, last) = steps key s iter in out ++ emitted (flush g last key).0

-- The records of a key.
abbrev pub records_of {ℓ} : {R K : Type ℓ} → (K → K → Bool) → (R → K) → K → List R → List R
records_of same_key key_fn k iter = retain (λ rec. same_key k (key_fn rec)) iter

module _ {ℓ} {G R K O : Type ℓ} (g : Graph G R K O) (same_key : K → K → Bool)
    (same : (a b : K) → (same_key a b ≡ true) ↔ (a ≡ b)) (timestamp_fn : R → ℤ) (key_fn : R → K)
    (fresh : KeyedGraphState G R) where
  abbrev pub Graphs : Type ℓ
  Graphs = List (K × KeyedGraphState G R)

  -- What the records of all keys emit, each output with its key.
  abbrev pub run : List R → Graphs → List (K × Yield K O) × Graphs
  run [] graphs = ([], graphs)
  run (rec ∷ iter) graphs =
      let key = key_fn rec in
      let (items, s) = step g (entry same_key fresh key graphs) rec (timestamp_fn rec) key in
      let (rest, graphs') = run iter (put same_key key s graphs) in
      (tag key (emitted items) ++ rest, graphs')

  abbrev Follows : K → List R → Graphs → Type ℓ
  Follows k iter graphs =
      let (out, s) =
        steps g timestamp_fn k (entry same_key fresh k graphs)
          (records_of same_key key_fn k iter) in
      (of_key same_key k (run iter graphs).0 ≡ out)
      × (entry same_key fresh k (run iter graphs).1 ≡ s)

  Follows-same :
      (rec : R) (iter : List R) (graphs : Graphs)
      → let key = key_fn rec in
        let s = (step g (entry same_key fresh key graphs) rec (timestamp_fn rec) key).1 in
        Follows key iter (put same_key key s graphs) → Follows key (rec ∷ iter) graphs
  Follows-same rec iter graphs f =
      let key = key_fn rec in
      let r = step g (entry same_key fresh key graphs) rec (timestamp_fn rec) key in
      let self : same_key key key ≡ true = (same key key).1 refl in
      let e : entry same_key fresh key (put same_key key r.1 graphs) ≡ r.1 =
        entry-put same_key same fresh key key r.1 graphs ∙ rw self refl in
      let f' =
        subst
          (λ s.
            let (out, last) = steps g timestamp_fn key s (records_of same_key key_fn key iter) in
            (of_key same_key key (run iter (put same_key key r.1 graphs)).0 ≡ out)
            × (entry same_key fresh key (run iter (put same_key key r.1 graphs)).1 ≡ last))
          e f in
      rw self
        (of_key-own same_key key key self (emitted r.0) _ ∙ ap (λ l. emitted r.0 ++ l) f'.0, f'.1)

  Follows-other :
      (k : K) (rec : R) (iter : List R) (graphs : Graphs)
      → same_key k (key_fn rec) ≡ false
      → let key = key_fn rec in
        let s = (step g (entry same_key fresh key graphs) rec (timestamp_fn rec) key).1 in
        Follows k iter (put same_key key s graphs) → Follows k (rec ∷ iter) graphs
  Follows-other k rec iter graphs other f =
      let key = key_fn rec in
      let r = step g (entry same_key fresh key graphs) rec (timestamp_fn rec) key in
      let e : entry same_key fresh k (put same_key key r.1 graphs) ≡ entry same_key fresh k graphs =
        entry-put same_key same fresh k key r.1 graphs ∙ rw other refl in
      let f' =
        subst
          (λ s.
            let (out, last) = steps g timestamp_fn k s (records_of same_key key_fn k iter) in
            (of_key same_key k (run iter (put same_key key r.1 graphs)).0 ≡ out)
            × (entry same_key fresh k (run iter (put same_key key r.1 graphs)).1 ≡ last))
          e f in
      rw other (of_key-others same_key k key other (emitted r.0) _ ∙ f'.0, f'.1)

  run-Follows : (k : K) (iter : List R) (graphs : Graphs) → Follows k iter graphs
  run-Follows k [] graphs = (refl, refl)
  run-Follows k (rec ∷ iter) graphs =
      let key = key_fn rec in
      let s = (step g (entry same_key fresh key graphs) rec (timestamp_fn rec) key).1 in
      let rest = λ (k' : K). run-Follows k' iter (put same_key key s graphs) in
      elim (Bool-cases (same_key k key)) [
        | inl e ↦
            subst (λ k'. Follows k' (rec ∷ iter) graphs) (sym ((same k key).0 e))
              (Follows-same rec iter graphs (rest key))
        | inr e ↦ Follows-other k rec iter graphs e (rest k)
      ]

  run-AtMostOnce :
      (iter : List R) (graphs : Graphs)
      → AtMostOnce same_key same graphs
      → AtMostOnce same_key same (run iter graphs).1
  run-AtMostOnce [] graphs once = once
  run-AtMostOnce (rec ∷ iter) graphs once =
      run-AtMostOnce iter _ (AtMostOnce-put same_key same (key_fn rec) _ graphs once)

  -- The walk over the keys at the end.
  abbrev pub flush_run : List K → Graphs → List (K × Yield K O) × Graphs
  flush_run [] graphs = ([], graphs)
  flush_run (key ∷ ks) graphs = elim (find same_key key graphs) [
    | none ↦ flush_run ks graphs
    | some state ↦
        let (items, s) = flush g state key in
        let (rest, graphs') = flush_run ks (put same_key key s graphs) in
        (tag key (emitted items) ++ rest, graphs')
  ]

  flush_run-none :
      (k : K) (ks : List K) (graphs : Graphs)
      → count same_key k ks ≡ 0
      → of_key same_key k (flush_run ks graphs).0 ≡ []
  flush_run-none k [] graphs never = refl
  flush_run-none k (key ∷ ks) graphs never =
      let other : same_key k key ≡ false = ground arith in
      elim (Option-cases (find same_key key graphs)) [
        | inl e ↦ rw (e, flush_run) (flush_run-none k ks graphs (ground arith))
        | inr (s, e) ↦
            rw (e, flush_run)
              (of_key-others same_key k key other _ _ ∙ flush_run-none k ks _ (ground arith))
      ]

  flush_run-once :
      (k : K) (ks : List K) (graphs : Graphs) (s : KeyedGraphState G R)
      → count same_key k ks ≡ 1
      → find same_key k graphs ≡ some s
      → of_key same_key k (flush_run ks graphs).0 ≡ emitted (flush g s k).0
  flush_run-once k [] graphs s once held' = absurd (omega arith)
  flush_run-once k (key ∷ ks) graphs s once held' = elim (Bool-cases (same_key k key)) [
    | inl e ↦
        let found = subst (λ x. find same_key x graphs ≡ some s) ((same k key).0 e) held' in
        rw (found, flush_run)
          (of_key-own same_key k key e _ _
            ∙ ap (λ l. emitted (flush g s key).0 ++ l)
                (flush_run-none k ks (put same_key key (flush g s key).1 graphs) (ground arith))
            ∙ append-nil (emitted (flush g s key).0)
            ∙ ap (λ x. emitted (flush g s x).0) (sym ((same k key).0 e)))
    | inr e ↦ elim (Option-cases (find same_key key graphs)) [
      | inl e' ↦ rw (e', flush_run) (flush_run-once k ks graphs s (ground arith) held')
      | inr (s', e') ↦
          rw (e', flush_run)
            (of_key-others same_key k key e _ _
              ∙ flush_run-once k ks _ s (ground arith)
                  (find-put same_key same k key _ graphs ∙ rw e held'))
    ]
  ]

  module _ (order : List K → List K) (order-perm : (ks : List K) → Perm (order ks) ks)
      (empty : (k : K) → (flush g fresh k).0 ≡ ok []) where
    -- The outputs of all keys, each with its key.
    abbrev pub all_outputs : List R → Graphs → List (K × Yield K O)
    all_outputs iter graphs =
        let (out, graphs') = run iter graphs in out ++ (flush_run (order (keys graphs')) graphs').0

    flush_run-of_key :
        (k : K) (graphs : Graphs)
        → AtMostOnce same_key same graphs
        → of_key same_key k (flush_run (order (keys graphs)) graphs).0
          ≡ emitted (flush g (entry same_key fresh k graphs) k).0
    flush_run-of_key k graphs once =
        let times = count-perm same_key k (order-perm (keys graphs)) ∙ once k in
        elim (Option-cases (find same_key k graphs)) [
          | inl e ↦
              rw (e, entry)
                (flush_run-none k (order (keys graphs)) graphs (times ∙ rw e refl)
                  ∙ ap emitted (sym (empty k)))
          | inr (s, e) ↦
              rw (e, entry) (flush_run-once k (order (keys graphs)) graphs s (times ∙ rw e refl) e)
        ]

    -- The outputs of a key among all of them are those of its records alone.
    pub all_outputs-of_key :
        (k : K) (iter : List R)
        → of_key same_key k (all_outputs iter [])
          ≡ alone g timestamp_fn k fresh (records_of same_key key_fn k iter)
    all_outputs-of_key k iter =
        let f = run-Follows k iter [] in
        let (out, graphs) = run iter [] in
        of_key-append same_key k out (flush_run (order (keys graphs)) graphs).0
        ∙ ap (λ l. l ++ of_key same_key k (flush_run (order (keys graphs)) graphs).0) f.0
        ∙ ap
            (λ l.
              (steps g timestamp_fn k (entry same_key fresh k [])
                (records_of same_key key_fn k iter)).0
              ++ l)
            (flush_run-of_key k graphs (run-AtMostOnce iter [] (λ k'. refl))
              ∙ ap (λ s. emitted (flush g s k).0) f.1)
