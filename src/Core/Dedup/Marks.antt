-- ===== src/Core/Dedup/Marks.antt =====
-- tflo-core/src/dedup.rs: what the deduplicator answers after any calls, restarts included.
use tflo.Prelude.{
  ◌≡◌, ◌≢◌, ◌⊎◌, inl, inr, Bool, true, false, ◌||◌, Option, none, some, List, [], ◌∷◌, Result, ok,
  err, String, All, All-map, Bool-cases, if◌then◌else◌, refl, sym, ◌∙◌, subst,
}
use tflo.Core.State.{Written, AsyncStateStore}
use tflo.Core.Dedup.{
  Bytes, Deduplicator, new, contains, compose_key, remember, absent, should_emit, mark_emitted,
}
use tflo.Core.Dedup.Keys.{IsColonFree, compose_key-injective}
use tflo.Core.Dedup.Calls.{Call, ask, mark, restart, mark_of, Log, noted, step, run, nothing}
use tflo.Core.Dedup.Writes.{Laws, Knows, Tried, tried_too, tried-Knows, write-Knows, remember-Knows}

-- Another sink marks in a namespace of its own, with no colon in it.
abbrev pub IsElsewhere {ℓ} : {K : Type ℓ} → Bytes → Call K → Type 0
IsElsewhere namespace (ask key) = Unit
IsElsewhere namespace (mark key) = Unit
IsElsewhere namespace restart = Unit
IsElsewhere namespace (mark_of other key) = IsColonFree other × (other ≢ namespace)

module _ {ℓ} {W S K : Type ℓ} (store : AsyncStateStore W Bytes S) (at : W → Bytes → Option S)
    (laws : Laws store at) (as_ref : K → Bytes) (eq : K → K → Bool) (empty : S) (namespace : Bytes)
    (free : IsColonFree namespace) where
  remember-world :
      (self : Deduplicator K) (key : K) (p : Written × W) → (remember eq self key p).1.1 ≡ p.1
  remember-world self key (ok _, w) = refl
  remember-world self key (err e, w) = refl

  absent-world : (p : Result (Option S) String × W) → (absent p).1 ≡ p.1
  absent-world (ok o, w) = refl
  absent-world (err e, w) = refl

  ask-at :
      (self : Deduplicator K) (key : K) (w : W) (k : Bytes)
      → at (should_emit store as_ref eq self key w).1 k ≡ at w k
  unfolding should_emit
  ask-at self key w k = elim (Bool-cases (contains eq self.cache key)) [
    | inl old ↦ rw old refl
    | inr fresh ↦
        rw (fresh, absent-world (store.load (compose_key self.namespace (as_ref key)) w))
          (laws.load_keeps _ k w)
  ]

  mark-Knows :
      (log : Log K) (self : Deduplicator K) (w : W) (key : K)
      → Knows as_ref at namespace log self w
      → let (log', (self', w')) = noted log key (mark_emitted store as_ref eq empty self key w) in
        Knows as_ref at namespace log' self' w'
  unfolding mark_emitted
  mark-Knows log self w key h =
      let bytes = compose_key self.namespace (as_ref key) in
      let p = store.save bytes empty w in
      remember-Knows as_ref at eq namespace log self key p
        (write-Knows as_ref at namespace (tried_too as_ref at log key) self w p.1 bytes empty
          (tried-Knows as_ref at namespace log self w key h) (λ k. laws.save_put bytes k empty w)
          (λ k e. (
            0,
            (
              key,
              (
                refl,
                (compose_key-injective namespace namespace (as_ref key) k free free
                    (subst (λ n. compose_key n (as_ref key) ≡ compose_key namespace k) h.same e)).1,
              ),
            ),
          )))
        (λ done gone.
          let there = laws.save_ok bytes empty w done in
          let here = subst (λ n. at p.1 (compose_key n (as_ref key)) ≡ some empty) h.same there in
          absurd (cc))

  mark_of-Knows :
      (other : Bytes) (key : K) (log : Log K) (self : Deduplicator K) (w : W)
      → IsColonFree other × (other ≢ namespace)
      → Knows as_ref at namespace log self w
      → Knows as_ref at namespace log self
          (mark_emitted store as_ref eq empty (new other) key w).1.1
  unfolding mark_emitted
  mark_of-Knows other key log self w far h =
      let bytes = compose_key other (as_ref key) in
      rw (remember-world (new other) key (store.save bytes empty w)) (
        write-Knows as_ref at namespace log self w _ bytes empty h
          (λ k. laws.save_put bytes k empty w)
          (λ k e.
            absurd (far.1 (compose_key-injective other namespace (as_ref key) k far.0 free e).0)))

  step-Knows :
      (call : Call K) (log : Log K) (self : Deduplicator K) (w : W)
      → IsElsewhere namespace call
      → Knows as_ref at namespace log self w
      → let (log', (self', w')) = step store as_ref eq empty call (log, (self, w)) in
        Knows as_ref at namespace log' self' w'
  unfolding step
  step-Knows (ask key) log self w far h = record {
    same = h.same;
    marked =
        All-map (λ k. at w (compose_key namespace (as_ref k)) ≢ none) _ log.marked
          (λ k there gone. there (sym (ask-at self key w _) ∙ gone)) h.marked;
    cached = h.cached;
    stored = λ k s e. h.stored k s (sym (ask-at self key w _) ∙ e);
  }
  step-Knows (mark key) log self w far h = mark-Knows log self w key h
  step-Knows restart log self w far h = record {
    same = h.same;
    marked = h.marked;
    cached = tt;
    stored = h.stored;
  }
  step-Knows (mark_of other key) log self w far h = mark_of-Knows other key log self w far h

  run-Knows :
      (calls : List (Call K)) (log : Log K) (self : Deduplicator K) (w : W)
      → All (IsElsewhere namespace) calls
      → Knows as_ref at namespace log self w
      → let (log', (self', w')) = run store as_ref eq empty calls (log, (self, w)) in
        Knows as_ref at namespace log' self' w'
  unfolding run
  run-Knows [] log self w far h = h
  run-Knows (call ∷ calls) log self w far h =
      let (log', (self', w')) = step store as_ref eq empty call (log, (self, w)) in
      run-Knows calls log' self' w' far.1 (step-Knows call log self w far.0 h)

  fresh-Knows :
      (w : W)
      → ((k : Bytes) → at w (compose_key namespace k) ≡ none)
      → Knows as_ref at namespace nothing (new namespace) w
  fresh-Knows w clean = record {
    same = refl;
    marked = tt;
    cached = tt;
    stored = λ k s e. absurd (let none' = clean k in cc);
  }

  absent-true : (o : Result (Option S) String × W) → (absent o).0 ≡ ok true → o.0 ≡ ok none
  absent-true (ok none, w) e = refl
  absent-true (ok (some s), w) e = absurd (cc)
  absent-true (err m, w) e = absurd (cc)

  absent-false :
      (o : Result (Option S) String × W) → (absent o).0 ≡ ok false → (s : S) × (o.0 ≡ ok (some s))
  absent-false (ok none, w) e = absurd (cc)
  absent-false (ok (some s), w) e = (s, refl)
  absent-false (err m, w) e = absurd (cc)

  emit_true :
      (self : Deduplicator K) (key : K) (v : W)
      → (should_emit store as_ref eq self key v).0 ≡ ok true
      → at v (compose_key self.namespace (as_ref key)) ≡ none
  unfolding should_emit
  emit_true self key v e =
      let bytes = compose_key self.namespace (as_ref key) in
      elim (Bool-cases (contains eq self.cache key)) [
        | inl old ↦ absurd (cc)
        | inr fresh ↦
            let e' : (absent (store.load bytes v)).0 ≡ ok true =
              subst (λ b. (if b then (ok false, v) else absent (store.load bytes v)).0 ≡ ok true)
                fresh e in
            sym (laws.load_ok bytes v none (absent-true (store.load bytes v) e'))
      ]

  emit_false :
      (self : Deduplicator K) (key : K) (v : W)
      → (should_emit store as_ref eq self key v).0 ≡ ok false
      → (contains eq self.cache key ≡ true)
        ⊎ ((s : S) × (at v (compose_key self.namespace (as_ref key)) ≡ some s))
  unfolding should_emit
  emit_false self key v e =
      let bytes = compose_key self.namespace (as_ref key) in
      elim (Bool-cases (contains eq self.cache key)) [
        | inl old ↦ inl old
        | inr fresh ↦
            let e' : (absent (store.load bytes v)).0 ≡ ok false =
              subst (λ b. (if b then (ok false, v) else absent (store.load bytes v)).0 ≡ ok false)
                fresh e in
            let (s, there) = absent-false (store.load bytes v) e' in
            inr (s, sym (laws.load_ok bytes v (some s) there))
      ]

  contains-Tried :
      (eq_bytes : (a b : K) → eq a b ≡ true → as_ref a ≡ as_ref b) (log : Log K) (cache : List K)
      (key : K)
      → All (λ k. Tried as_ref log (as_ref k)) cache
      → contains eq cache key ≡ true
      → Tried as_ref log (as_ref key)
  contains-Tried eq_bytes log [] key h e = absurd (cc)
  contains-Tried eq_bytes log (k ∷ cache) key h e = elim (Bool-cases (eq k key)) [
    | inl same ↦ subst (Tried as_ref log) (eq_bytes k key same) h.0
    | inr diff ↦
        contains-Tried eq_bytes log cache key h.1
          (subst (λ b. (b || contains eq cache key) ≡ true) diff e)
  ]

  -- After any calls of a sink that starts with an empty cache and no marker of its namespace in the
  -- store, among them restarts and the marks of sinks of other namespaces, no namespace with a colon,
  -- `should_emit` answers `Ok(true)` for none of the keys that the sink has marked with success.
  pub marked_never_emitted :
      (calls : List (Call K)) (w : W)
      → ((k : Bytes) → at w (compose_key namespace k) ≡ none)
      → All (IsElsewhere namespace) calls
      → let (log, (self, v)) = run store as_ref eq empty calls (nothing, (new namespace, w)) in
        All (λ k. (should_emit store as_ref eq self k v).0 ≢ ok true) log.marked
  marked_never_emitted calls w clean far =
      let (log, (self, v)) = run store as_ref eq empty calls (nothing, (new namespace, w)) in
      let h = run-Knows calls nothing (new namespace) w far (fresh-Knows w clean) in
      All-map (λ k. at v (compose_key namespace (as_ref k)) ≢ none) _ log.marked
        (λ k there e.
          there (subst (λ n. at v (compose_key n (as_ref k)) ≡ none) h.same (emit_true self k v e)))
        h.marked

  -- After such calls a key for which `should_emit` answers `Ok(false)` has the bytes of a key that
  -- this sink has tried to mark, if keys that are equal have the same bytes.
  pub refused_was_tried :
      (eq_bytes : (a b : K) → eq a b ≡ true → as_ref a ≡ as_ref b) (calls : List (Call K)) (w : W)
      (key : K)
      → ((k : Bytes) → at w (compose_key namespace k) ≡ none)
      → All (IsElsewhere namespace) calls
      → (let (log, (self, v)) = run store as_ref eq empty calls (nothing, (new namespace, w)) in
          (should_emit store as_ref eq self key v).0 ≡ ok false)
      → Tried as_ref (run store as_ref eq empty calls (nothing, (new namespace, w))).0 (as_ref key)
  refused_was_tried eq_bytes calls w key clean far e =
      let (log, (self, v)) = run store as_ref eq empty calls (nothing, (new namespace, w)) in
      let h = run-Knows calls nothing (new namespace) w far (fresh-Knows w clean) in
      elim (emit_false self key v e) [
        | inl old ↦ contains-Tried eq_bytes log self.cache key h.cached old
        | inr (s, there) ↦
            h.stored (as_ref key) s
              (subst (λ n. at v (compose_key n (as_ref key)) ≡ some s) h.same there)
      ]
