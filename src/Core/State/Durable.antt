-- ===== src/Core/State/Durable.antt =====
-- tflo-core/src/state.rs: what a checkpoint leaves in the stores, under the laws of an interface: a
-- write of one key changes that key or nothing, and a call that the timer has cut off has by then
-- done all of its write or none.
use tflo.Prelude.{
  ◌≡◌, ◌≢◌, ◌⊎◌, inl, inr, Option, none, some, Result, ok, err, Bool-cases, leb, refl, sym, ◌∙◌, ap,
}
use mathlib.Core.Option.{some-injective}
use tflo.Core.State.{
  Written, AsyncStateStore, AsyncCursorStore, CheckpointError, state_store, cursor_store, timeout,
  circuit_open, snapshot_capture, Checkpointer, with_deadline, after_cursor, after_save, commit,
}

-- A view of a key is the old one, or it is the written one of the written key.
abbrev pub Put {κ τ} : {K : Type κ} {T : Type τ} → Option T → Option T → K → K → T → Type (τ ⊔ κ)
Put before after key key' t = (after ≡ before) ⊎ (key ≡ key' × (after ≡ some t))

module _ {ℓ} {W K S C : Type ℓ} where
  -- What the stores and the `select!` document: `snapshot_at` and `cursor_at` are what the stores
  -- durably hold at that moment; what a dropped call still writes later is in State/Late.
  pub record Laws (state : AsyncStateStore W K S) (cursor : AsyncCursorStore W K C)
      (race : (W → Written × W) → W → Option Written × W) (snapshot_at : W → K → Option S)
      (cursor_at : W → K → Option C) : Type ℓ where
    pub save_ok :
        (k : K) (s : S) (w : W)
        → (state.save k s w).0 ≡ ok tt
        → snapshot_at (state.save k s w).1 k ≡ some s
    pub save_put :
        (k k' : K) (s : S) (w : W)
        → Put (snapshot_at w k') (snapshot_at (state.save k s w).1 k') k k' s
    pub save_cursors :
        (k k' : K) (s : S) (w : W) → cursor_at (state.save k s w).1 k' ≡ cursor_at w k'
    pub cursor_ok :
        (k : K) (c : C) (w : W)
        → (cursor.save_cursor k c w).0 ≡ ok tt
        → cursor_at (cursor.save_cursor k c w).1 k ≡ some c
    pub cursor_put :
        (k k' : K) (c : C) (w : W)
        → Put (cursor_at w k') (cursor_at (cursor.save_cursor k c w).1 k') k k' c
    pub cursor_snapshots :
        (k k' : K) (c : C) (w : W) → snapshot_at (cursor.save_cursor k c w).1 k' ≡ snapshot_at w k'
    pub race_cases :
        (op : W → Written × W) (w : W)
        → (race op w ≡ (some (op w).0, (op w).1))
          ⊎ ((race op w ≡ (none, w)) ⊎ (race op w ≡ (none, (op w).1)))

module _ {ℓ} {W K S C : Type ℓ} (snapshot_at : W → K → Option S)
    (cursor_at : W → K → Option C) where
  -- What a commit leaves of the durable views, by its result; it has no `SnapshotCapture`.
  abbrev pub Left : K → S → C → W → Result (Unit {0}) CheckpointError × (Checkpointer × W) → Type ℓ
  Left key snap c w (ok _, (self, w')) =
      (snapshot_at w' key ≡ some snap) × (cursor_at w' key ≡ some c)
  Left key snap c w (err (cursor_store _), (self, w')) =
      (snapshot_at w' key ≡ some snap) × ((k : K) → Put (cursor_at w k) (cursor_at w' k) key k c)
  Left key snap c w (err (timeout _ _), (self, w')) =
      ((k : K) → cursor_at w' k ≡ cursor_at w k)
      ⊎ ((snapshot_at w' key ≡ some snap)
          × ((k : K) → Put (cursor_at w k) (cursor_at w' k) key k c))
  Left key snap c w (err (state_store _), (self, w')) = (k : K) → cursor_at w' k ≡ cursor_at w k
  Left key snap c w (err (snapshot_capture _), (self, w')) = w' ≢ w'
  Left key snap c w (err (circuit_open _), (self, w')) = w' ≡ w

module _ {ℓ} {W K S C : Type ℓ} (state : AsyncStateStore W K S) (cursor : AsyncCursorStore W K C)
    (race : (W → Written × W) → W → Option Written × W) (snapshot_at : W → K → Option S)
    (cursor_at : W → K → Option C) (laws : Laws state cursor race snapshot_at cursor_at) where
  -- A property that a call leaves true whether it writes or not is true after the call under the
  -- deadline.
  pub race-keeps {ρ} :
      (P : W → Type ρ) (op : W → Written × W) (w : W) → P w → P (op w).1 → P (race op w).1
  race-keeps P op w before after = elim (laws.race_cases op w) [
    | inl e ↦ rw e after
    | inr (inl e) ↦ rw e before
    | inr (inr e) ↦ rw e after
  ]

  pub race-ok {ρ} :
      (P : W → Type ρ) (op : W → Written × W) (w : W)
      → ((op w).0 ≡ ok tt → P (op w).1)
      → (race op w).0 ≡ some (ok tt)
      → P (race op w).1
  race-ok P op w after done = elim (laws.race_cases op w) [
    | inl e ↦ rw e (after (some-injective _ _ (sym (ap (λ p. p.0) e) ∙ done)))
    | inr (inl e) ↦ absurd (cc)
    | inr (inr e) ↦ absurd (cc)
  ]

  after_cursor-Left :
      (self : Checkpointer) (key : K) (snap : S) (c : C) (w : W) (p : Option Written × W)
      → snapshot_at p.1 key ≡ some snap
      → (p.0 ≡ some (ok tt) → cursor_at p.1 key ≡ some c)
      → ((k : K) → Put (cursor_at w k) (cursor_at p.1 k) key k c)
      → Left snapshot_at cursor_at key snap c w (after_cursor (with_deadline self "cursor.save" p))
  after_cursor-Left self key snap c w (none, w') saved done put = inr (saved, put)
  after_cursor-Left self key snap c w (some (ok _), w') saved done put = (saved, done refl)
  after_cursor-Left self key snap c w (some (err e), w') saved done put = (saved, put)

  after_save-Left :
      (self : Checkpointer) (key : K) (snap : S) (c : C) (w : W) (p : Option Written × W)
      → (p.0 ≡ some (ok tt) → snapshot_at p.1 key ≡ some snap)
      → ((k : K) → cursor_at p.1 k ≡ cursor_at w k)
      → Left snapshot_at cursor_at key snap c w
          (after_save (race (cursor.save_cursor key c)) (with_deadline self "state.save" p))
  after_save-Left self key snap c w (none, w') saved same = inl same
  after_save-Left self key snap c w (some (ok _), w') saved same =
      let op = cursor.save_cursor key c in
      after_cursor-Left self key snap c w (race op w')
        (race-keeps (λ v. snapshot_at v key ≡ some snap) op w' (saved refl)
          (laws.cursor_snapshots key key c w' ∙ saved refl))
        (race-ok (λ v. cursor_at v key ≡ some c) op w' (laws.cursor_ok key c w'))
        (λ k. rw (sym (same k)) (
          race-keeps (λ v. Put (cursor_at w' k) (cursor_at v k) key k c) op w' (inl refl)
            (laws.cursor_put key k c w')))
  after_save-Left self key snap c w (some (err e), w') saved same = same

  -- A commit that succeeds leaves its snapshot and its cursor in the stores. One that fails in the
  -- state store leaves every cursor as it was, one that fails in the cursor store leaves its snapshot
  -- and at most its own cursor, one that times out does either, and one that the breaker refuses
  -- leaves the stores alone.
  pub commit_lem :
      (self : Checkpointer) (key : K) (snap : S) (c : C) (w : W)
      → Left snapshot_at cursor_at key snap c w (commit state cursor race self key snap c w)
  unfolding commit
  commit_lem self key snap c w =
      elim (Bool-cases (leb self.circuit_threshold self.consecutive_failures)) [
        | inl open' ↦ rw open' refl
        | inr shut ↦ rw shut (
            after_save-Left self key snap c w (race (state.save key snap) w)
              (race-ok (λ v. snapshot_at v key ≡ some snap) (state.save key snap) w
                (laws.save_ok key snap w))
              (λ k.
                race-keeps (λ v. cursor_at v k ≡ cursor_at w k) (state.save key snap) w refl
                  (laws.save_cursors key k snap w)))
      ]
