-- ===== src/Core/Dedup/Calls.antt =====
-- tflo-core/src/dedup.rs: sequences of calls of one sink's deduplicator, with restarts of its process
-- and the marks of other sinks in the same store.
use tflo.Prelude.{Bool, List, [], ◌∷◌, ok, err}
use tflo.Core.State.{Written, AsyncStateStore}
use tflo.Core.Dedup.{Bytes, Deduplicator, new, should_emit, mark_emitted}

pub data Call {ℓ} (K : Type ℓ) : Type ℓ where
  ask mark : K → Call K
  restart : Call K
  mark_of : Bytes → K → Call K

-- The keys that were marked with success, and those for which it was tried.
pub record Log {ℓ} (K : Type ℓ) : Type ℓ where
  pub marked : List K
  pub tried : List K

module _ {ℓ κ} {W : Type ℓ} {K : Type κ} where
  abbrev pub noted : Log K → K → Written × (Deduplicator K × W) → Log K × (Deduplicator K × W)
  noted log key (ok _, s) = (record { marked = key ∷ log.marked; tried = key ∷ log.tried }, s)
  noted log key (err _, s) = (record log { tried = key ∷ log.tried }, s)

module _ {ℓ κ μ} {W : Type ℓ} {K : Type κ} {S : Type μ} where
  unfoldable pub step :
      AsyncStateStore W Bytes S
      → (K → Bytes)
      → (K → K → Bool)
      → S
      → Call K
      → Log K × (Deduplicator K × W)
      → Log K × (Deduplicator K × W)
  step store as_ref eq empty (ask key) (log, (self, w)) =
      (log, (self, (should_emit store as_ref eq self key w).1))
  step store as_ref eq empty (mark key) (log, (self, w)) =
      noted log key (mark_emitted store as_ref eq empty self key w)
  step store as_ref eq empty restart (log, (self, w)) = (log, (new self.namespace, w))
  step store as_ref eq empty (mark_of namespace key) (log, (self, w)) =
      (log, (self, (mark_emitted store as_ref eq empty (new namespace) key w).1.1))

  unfoldable pub run :
      AsyncStateStore W Bytes S
      → (K → Bytes)
      → (K → K → Bool)
      → S
      → List (Call K)
      → Log K × (Deduplicator K × W)
      → Log K × (Deduplicator K × W)
  run store as_ref eq empty [] s = s
  run store as_ref eq empty (call ∷ calls) s =
      run store as_ref eq empty calls (step store as_ref eq empty call s)

abbrev pub nothing {ℓ} : {K : Type ℓ} → Log K
nothing = record { marked = []; tried = [] }
