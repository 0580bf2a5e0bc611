-- ===== src/Core/State/Late.antt =====
-- tflo-core/src/state.rs: writes that outlive their timeout. When the timer wins a `select!`, the call is dropped,
-- but what it started may go on, as the thread does on which `FileStateStore` writes (tflo-state-files/src/lib.rs). Such a write is
-- outstanding, and it may land at any later time until it is over.
use tflo.Prelude.{
  ℕ, ◌≤◌, All, Option, none, some, List, [], ◌∷◌, ◌++◌, get_elem?, ok, err, if◌then◌else◌, leb,
}
use tflo.Core.State.{
  Written, AsyncStateStore, AsyncCursorStore, Checkpointer, commit, reset_circuit,
}

-- A write of a store.
pub data Write {ℓ κ μ} (K : Type ℓ) (S : Type κ) (C : Type μ) : Type (ℓ ⊔ κ ⊔ μ) where
  snapshot_write : K → S → Write K S C
  cursor_write : K → C → Write K S C

-- What a driver does: it calls the checkpointer, or waits until no write is outstanding.
pub data Event {ℓ κ μ} (K : Type ℓ) (S : Type κ) (C : Type μ) : Type (ℓ ⊔ κ ⊔ μ) where
  commit_at : K → S → C → Event K S C
  reset settle : Event K S C

-- A snapshot that is outstanding covers what comes at this position.
abbrev pub Covers {ℓ κ μ} :
    {K : Type ℓ} {S : Type κ} {C : Type μ} → (S → ℕ) → ℕ → Write K S C → Type 0
Covers covers n (snapshot_write k s) = n ≤ covers s
Covers covers n (cursor_write k c) = Unit

module _ {ℓ κ μ ν} {W : Type ℓ} {K : Type κ} {S : Type μ} {C : Type ν}
    (state : AsyncStateStore W K S) (cursor : AsyncCursorStore W K C) where
  abbrev pub perform : Write K S C → W → W
  perform (snapshot_write k s) w = (state.save k s w).1
  perform (cursor_write k c) w = (cursor.save_cursor k c w).1

  abbrev pub perform_at : Option (Write K S C) → W → W
  perform_at none w = w
  perform_at (some x) w = perform x w

  -- The writes of these places land in turn; one may land more than once.
  abbrev pub land : List (Write K S C) → List ℕ → W → W
  land outstanding [] w = w
  land outstanding (i ∷ places) w = land outstanding places (perform_at (get_elem? outstanding i) w)

  -- `lands` chooses, for what the stores hold, which of the outstanding writes land then.
  module _ (lands : W → List ℕ) where
    abbrev pub late : List (Write K S C) → W → W
    late outstanding w = land outstanding (lands w) w

    module _ (race : (W → Written × W) → W → Option Written × W) where
      -- A call with the timer, before which outstanding writes land.
      abbrev pub raced : List (Write K S C) → (W → Written × W) → W → Option Written × W
      raced outstanding op w = race op (late outstanding w)

      abbrev pub running_cursor : K → C → Option Written × W → List (Write K S C)
      running_cursor key c (none, w) = cursor_write key c ∷ []
      running_cursor key c (some r, w) = []

      abbrev pub running :
          (W → Option Written × W) → K → S → C → Option Written × W → List (Write K S C)
      running write_cursor key snap c (none, w) = snapshot_write key snap ∷ []
      running write_cursor key snap c (some (ok u), w) = running_cursor key c (write_cursor w)
      running write_cursor key snap c (some (err e), w) = []

      -- The write that a commit leaves outstanding: the one that timed out.
      unfoldable pub left_running :
          List (Write K S C) → Checkpointer → K → S → C → W → List (Write K S C)
      left_running outstanding self key snap c w =
          if leb self.circuit_threshold self.consecutive_failures
          then []
          else running (raced outstanding (cursor.save_cursor key c)) key snap c
              (raced outstanding (state.save key snap) w)

      -- What the stores hold between the two writes of a commit.
      unfoldable pub between : List (Write K S C) → Checkpointer → K → S → W → W
      between outstanding self key snap w =
          if leb self.circuit_threshold self.consecutive_failures
          then w
          else (raced outstanding (state.save key snap) w).1

      -- Every state of the stores that a crash can leave: before and after each event, between the two
      -- writes of a commit, and each of these after outstanding writes have landed.
      unfoldable pub crash_points :
          List (Event K S C) → List (Write K S C) → Checkpointer → W → List W
      unfolding left_running between
      crash_points [] outstanding self w = w ∷ late outstanding w ∷ []
      crash_points (commit_at key snap c ∷ events) outstanding self w =
          let middle = between outstanding self key snap w in
          let (self', w') = (commit state cursor (raced outstanding) self key snap c w).1 in
          let outstanding' = left_running outstanding self key snap c w ++ outstanding in
          w
          ∷ late outstanding w
          ∷ middle
          ∷ late outstanding middle
          ∷ crash_points events outstanding' self' w'
      crash_points (reset ∷ events) outstanding self w =
          w ∷ late outstanding w ∷ crash_points events outstanding (reset_circuit self) w
      crash_points (settle ∷ events) outstanding self w =
          w ∷ late outstanding w ∷ crash_points events [] self (late outstanding w)

      -- The caller's side: a snapshot covers its cursor, the cursors do not go back, and no commit is made
      -- with a cursor that an outstanding snapshot does not cover.
      abbrev pub Orderly :
          (S → ℕ)
          → (C → ℕ)
          → ℕ
          → List (Event K S C)
          → List (Write K S C)
          → Checkpointer
          → W
          → Type 0
      Orderly covers position b [] outstanding self w = Unit
      Orderly covers position b (commit_at key snap c ∷ events) outstanding self w =
          let (self', w') = (commit state cursor (raced outstanding) self key snap c w).1 in
          let outstanding' = left_running outstanding self key snap c w ++ outstanding in
          (b ≤ position c)
          × ((position c ≤ covers snap)
              × (All (Covers covers (position c)) outstanding
                  × Orderly covers position (position c) events outstanding' self' w'))
      Orderly covers position b (reset ∷ events) outstanding self w =
          Orderly covers position b events outstanding (reset_circuit self) w
      Orderly covers position b (settle ∷ events) outstanding self w =
          Orderly covers position b events [] self (late outstanding w)
