-- ===== src/Core/Dedup.antt =====
-- tflo-core/src/dedup.rs: the deduplicator of a sink over a state store. A byte is a number. `as_ref`
-- and `eq` are the key type's `AsRef<[u8]>` and `Eq`; the cache is the list of its keys, each once. A
-- marker is the snapshot `empty`, and `W` is what the store holds.
pub mod Calls
pub mod Keys
pub mod Writes
pub mod Marks
mod Tests
use tflo.Prelude.{
  ℕ, Bool, true, false, ◌||◌, if◌then◌else◌, Option, none, some, List, [], ◌∷◌, ◌++◌, Result, ok,
  err, String,
}
use tflo.Core.State.{Written, AsyncStateStore}

abbrev pub Bytes : Type 0
Bytes = List ℕ

-- `b':'`
abbrev pub colon : ℕ
colon = 58

pub record Deduplicator {ℓ} (K : Type ℓ) : Type ℓ where
  pub namespace : Bytes
  pub cache : List K

module _ {ℓ} {K : Type ℓ} where
  abbrev pub new : Bytes → Deduplicator K
  new namespace = record { namespace = namespace; cache = [] }

  abbrev pub contains : (K → K → Bool) → List K → K → Bool
  contains eq [] key = false
  contains eq (k ∷ cache) key = eq k key || contains eq cache key

  abbrev pub insert : (K → K → Bool) → List K → K → List K
  insert eq cache key = if contains eq cache key then cache else key ∷ cache

-- `compose_key`, from the bytes of the key.
unfoldable pub compose_key : Bytes → Bytes → Bytes
compose_key namespace key_bytes = namespace ++ (colon ∷ key_bytes)

abbrev pub is_none {ℓ} : {A : Type ℓ} → Option A → Bool
is_none none = true
is_none (some _) = false

module _ {ℓ κ} {W : Type ℓ} {S : Type κ} where
  -- `existing.is_none()`, after the `?`.
  abbrev pub absent : Result (Option S) String × W → Result Bool String × W
  absent (ok existing, w) = (ok (is_none existing), w)
  absent (err e, w) = (err e, w)

module _ {ℓ} {W : Type ℓ} where
  -- The end of `mark_emitted`, from the result of the write.
  abbrev pub remember {κ} :
      {K : Type κ}
      → (K → K → Bool)
      → Deduplicator K
      → K
      → Written × W
      → Written × (Deduplicator K × W)
  remember eq self key (ok _, w) = (ok tt, (record self { cache = insert eq self.cache key }, w))
  remember eq self key (err e, w) = (err e, (self, w))

module _ {ℓ κ μ} {W : Type ℓ} {K : Type κ} {S : Type μ} where
  unfoldable pub should_emit :
      AsyncStateStore W Bytes S
      → (K → Bytes)
      → (K → K → Bool)
      → Deduplicator K
      → K
      → W
      → Result Bool String × W
  should_emit store as_ref eq self key w =
      if contains eq self.cache key
      then (ok false, w)
      else absent (store.load (compose_key self.namespace (as_ref key)) w)

  unfoldable pub mark_emitted :
      AsyncStateStore W Bytes S
      → (K → Bytes)
      → (K → K → Bool)
      → S
      → Deduplicator K
      → K
      → W
      → Written × (Deduplicator K × W)
  mark_emitted store as_ref eq empty self key w =
      remember eq self key (store.save (compose_key self.namespace (as_ref key)) empty w)
