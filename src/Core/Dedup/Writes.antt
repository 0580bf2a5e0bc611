-- ===== src/Core/Dedup/Writes.antt =====
-- tflo-core/src/dedup.rs: what a deduplicator knows of its store, and how writes keep it, over a store
-- with the laws of an interface: a write of one key writes that key or nothing, and a load answers
-- what the store holds.
use tflo.Prelude.{
  ℕ, suc, ◌≡◌, ◌≢◌, inl, inr, Bool, Option, none, some, ◌∷◌, ok, err, All, All-map, get_elem?,
  Bool-cases, refl, sym, ◌∙◌,
}
use tflo.Core.State.{Written, AsyncStateStore}
use tflo.Core.State.Durable.{Put}
use tflo.Core.Dedup.{Bytes, Deduplicator, contains, compose_key, remember}
use tflo.Core.Dedup.Calls.{Log, noted}

module _ {ℓ} {W S : Type ℓ} where
  pub record Laws (store : AsyncStateStore W Bytes S) (at : W → Bytes → Option S) : Type ℓ where
    pub save_ok :
        (k : Bytes) (s : S) (w : W)
        → (store.save k s w).0 ≡ ok tt
        → at (store.save k s w).1 k ≡ some s
    pub save_put :
        (k k' : Bytes) (s : S) (w : W) → Put (at w k') (at (store.save k s w).1 k') k k' s
    pub load_ok : (k : Bytes) (w : W) (o : Option S) → (store.load k w).0 ≡ ok o → o ≡ at w k
    pub load_keeps : (k k' : Bytes) (w : W) → at (store.load k w).1 k' ≡ at w k'

module _ {ℓ} {K : Type ℓ} (as_ref : K → Bytes) where
  -- A mark was tried for a key of these bytes.
  abbrev pub Tried : Log K → Bytes → Type ℓ
  Tried log bytes = (i : ℕ) × ((k : K) × ((get_elem? log.tried i ≡ some k) × (as_ref k ≡ bytes)))

  module _ {W S : Type ℓ} (at : W → Bytes → Option S) where
    pub record Knows (namespace : Bytes) (log : Log K) (self : Deduplicator K) (w : W)
        : Type ℓ where
      pub same : self.namespace ≡ namespace
      pub marked : All (λ k. at w (compose_key namespace (as_ref k)) ≢ none) log.marked
      pub cached : All (λ k. Tried log (as_ref k)) self.cache
      pub stored : (k : Bytes) (s : S) → at w (compose_key namespace k) ≡ some s → Tried log k

module _ {ℓ} {W S K : Type ℓ} (as_ref : K → Bytes) (at : W → Bytes → Option S) where
  abbrev pub tried_too : Log K → K → Log K
  tried_too log key = record log { tried = key ∷ log.tried }

  later :
      (log : Log K) (key : K) (b : Bytes) → Tried as_ref log b → Tried as_ref (tried_too log key) b
  later log key b (i, (k, h)) = (suc i, (k, h))

  pub tried-Knows :
      (namespace : Bytes) (log : Log K) (self : Deduplicator K) (w : W) (key : K)
      → Knows as_ref at namespace log self w
      → Knows as_ref at namespace (tried_too log key) self w
  tried-Knows namespace log self w key h = record {
    same = h.same;
    marked = h.marked;
    cached =
        All-map (λ k. Tried as_ref log (as_ref k)) _ self.cache (λ k t. later log key _ t) h.cached;
    stored = λ k s e. later log key k (h.stored k s e);
  }

  -- A write that every key of the namespace explains.
  pub write-Knows :
      (namespace : Bytes) (log : Log K) (self : Deduplicator K) (w v : W) (key : Bytes) (s : S)
      → Knows as_ref at namespace log self w
      → ((k : Bytes) → Put (at w k) (at v k) key k s)
      → ((k : Bytes) → key ≡ compose_key namespace k → Tried as_ref log k)
      → Knows as_ref at namespace log self v
  write-Knows namespace log self w v key s h put new' = record {
    same = h.same;
    marked =
        All-map (λ k. at w (compose_key namespace (as_ref k)) ≢ none) _ log.marked
          (λ k there gone. elim (put (compose_key namespace (as_ref k))) [
            | inl e ↦ there (sym e ∙ gone)
            | inr (_, e) ↦ absurd (cc)
          ])
          h.marked;
    cached = h.cached;
    stored = λ k s' e. elim (put (compose_key namespace k)) [
      | inl e' ↦ h.stored k s' (sym e' ∙ e)
      | inr (here, _) ↦ new' k here
    ];
  }

  pub remember-Knows :
      (eq : K → K → Bool) (namespace : Bytes) (log : Log K) (self : Deduplicator K) (key : K)
      (p : Written × W)
      → Knows as_ref at namespace (tried_too log key) self p.1
      → (p.0 ≡ ok tt → at p.1 (compose_key namespace (as_ref key)) ≢ none)
      → let (log', (self', w')) = noted log key (remember eq self key p) in
        Knows as_ref at namespace log' self' w'
  remember-Knows eq namespace log self key (ok _, w) h there = record {
    same = h.same;
    marked = (there refl, h.marked);
    cached = elim (Bool-cases (contains eq self.cache key)) [
      | inl old ↦ rw old h.cached
      | inr fresh ↦ rw fresh ((0, (key, (refl, refl))), h.cached)
    ];
    stored = h.stored;
  }
  remember-Knows eq namespace log self key (err e, w) h there = h
