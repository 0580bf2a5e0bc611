-- ===== src/Core/State/Crash.antt =====
-- tflo-core/src/state.rs: the order of the two writes of a checkpoint, over sequences of events and at
-- every point where the process can crash, with writes that outlive their timeout.
use tflo.Prelude.{
  ℕ, ◌≤◌, ◌≡◌, inl, inr, Option, none, some, List, [], ◌∷◌, ◌++◌, ok, err, All, arith, Bool-cases,
  leb, refl,
}
use tflo.Core.State.{
  Written, AsyncStateStore, AsyncCursorStore, Checkpointer, with_deadline, after_cursor, after_save,
  commit,
}
use tflo.Core.State.Late.{
  Write, snapshot_write, cursor_write, Event, commit_at, reset, settle, late, raced, running,
  running_cursor, left_running, between, crash_points, Orderly,
}
use tflo.Core.State.Held.{
  Covered, CursorsUpTo, May, Held, land-Held, drop-Held, mono-Held, race-Held,
}
use tflo.Core.State.Durable.{Laws, race-ok}

module _ {ℓ} {W K S C : Type ℓ} (state : AsyncStateStore W K S) (cursor : AsyncCursorStore W K C)
    (race : (W → Written × W) → W → Option Written × W) (snapshot_at : W → K → Option S)
    (cursor_at : W → K → Option C) (laws : Laws state cursor race snapshot_at cursor_at)
    (covers : S → ℕ) (position : C → ℕ) (lands : W → List ℕ) where
  abbrev H : ℕ → List (Write K S C) → W → Type ℓ
  H n outstanding w = Held snapshot_at cursor_at covers position n outstanding w

  running_cursor-Held :
      (self : Checkpointer) (key : K) (c : C) (p : Option Written × W) (n : ℕ)
      (outstanding : List (Write K S C))
      → H n (cursor_write key c ∷ outstanding) p.1
      → H n
          (running_cursor state cursor lands race key c p ++ outstanding)
          (after_cursor (with_deadline self "cursor.save" p)).1.1
  running_cursor-Held self key c (none, w) n outstanding h = h
  running_cursor-Held self key c (some (ok _), w) n outstanding h =
      drop-Held state cursor race snapshot_at cursor_at laws covers position (cursor_write key c)
        outstanding w n h
  running_cursor-Held self key c (some (err e), w) n outstanding h =
      drop-Held state cursor race snapshot_at cursor_at laws covers position (cursor_write key c)
        outstanding w n h

  running-Held :
      (self : Checkpointer) (key : K) (snap : S) (c : C) (p : Option Written × W)
      (outstanding : List (Write K S C))
      → let n = position c in
        let op = cursor.save_cursor key c in
        let write = raced state cursor lands race outstanding op in
        n ≤ covers snap
        → (p.0 ≡ some (ok tt) → snapshot_at p.1 key ≡ some snap)
        → H n (snapshot_write key snap ∷ outstanding) p.1
        → H n
            (running state cursor lands race write key snap c p ++ outstanding)
            (after_save write (with_deadline self "state.save" p)).1.1
  running-Held self key snap c (none, w) outstanding hi saved h = h
  running-Held self key snap c (some (ok _), w) outstanding hi saved h =
      let n = position c in
      let x = cursor_write key c in
      let own : May snapshot_at cursor_at covers position n w x =
        (omega arith, (snap, (saved refl, hi))) in
      let h' =
        land-Held state cursor race snapshot_at cursor_at laws covers position (x ∷ []) outstanding
          (lands w) w n (h.0, (h.1.0, (own, h.1.1.1))) in
      running_cursor-Held self key c _ n outstanding (
        race-Held state cursor race snapshot_at cursor_at laws covers position x
          (cursor.save_cursor key c) outstanding (late state cursor lands outstanding w) n
          (λ v. refl) h')
  running-Held self key snap c (some (err e), w) outstanding hi saved h =
      drop-Held state cursor race snapshot_at cursor_at laws covers position
        (snapshot_write key snap) outstanding w (position c) h

  -- The write of the snapshot, after outstanding writes have landed.
  first-Held :
      (key : K) (snap : S) (outstanding : List (Write K S C)) (w : W) (n : ℕ)
      → n ≤ covers snap
      → H n outstanding w
      → H n
          (snapshot_write key snap ∷ outstanding)
          (raced state cursor lands race outstanding (state.save key snap) w).1
  first-Held key snap outstanding w n hi h =
      let x = snapshot_write key snap in
      race-Held state cursor race snapshot_at cursor_at laws covers position x (state.save key snap)
        outstanding (late state cursor lands outstanding w) n (λ v. refl)
        (land-Held state cursor race snapshot_at cursor_at laws covers position (x ∷ []) outstanding
          (lands w) w n (h.0, (h.1.0, ((hi, tt), h.1.1))))

  commit-Held :
      (self : Checkpointer) (key : K) (snap : S) (c : C) (outstanding : List (Write K S C)) (w : W)
      → position c ≤ covers snap
      → H (position c) outstanding w
      → H
          (position c)
          (left_running state cursor lands race outstanding self key snap c w ++ outstanding)
          (commit state cursor (raced state cursor lands race outstanding) self key snap c w).1.1
  unfolding commit left_running
  commit-Held self key snap c outstanding w hi h =
      elim (Bool-cases (leb self.circuit_threshold self.consecutive_failures)) [
        | inl open' ↦ rw open' h
        | inr shut ↦ rw shut (
            running-Held self key snap c
              (raced state cursor lands race outstanding (state.save key snap) w) outstanding hi
              (race-ok state cursor race snapshot_at cursor_at laws
                (λ v. snapshot_at v key ≡ some snap) (state.save key snap) _
                (laws.save_ok key snap _))
              (first-Held key snap outstanding w (position c) hi h))
      ]

  between-Held :
      (self : Checkpointer) (key : K) (snap : S) (outstanding : List (Write K S C)) (w : W) (n : ℕ)
      → n ≤ covers snap
      → H n outstanding w
      → H n outstanding (between state cursor lands race outstanding self key snap w)
  unfolding between
  between-Held self key snap outstanding w n hi h =
      elim (Bool-cases (leb self.circuit_threshold self.consecutive_failures)) [
        | inl open' ↦ rw open' h
        | inr shut ↦ rw shut (
            drop-Held state cursor race snapshot_at cursor_at laws covers position
              (snapshot_write key snap) outstanding _ n (first-Held key snap outstanding w n hi h))
      ]

  late-Covered :
      (outstanding : List (Write K S C)) (w : W) (n : ℕ)
      → H n outstanding w
      → H n outstanding (late state cursor lands outstanding w)
  late-Covered outstanding w n h =
      land-Held state cursor race snapshot_at cursor_at laws covers position [] outstanding
        (lands w) w n h

  points-Covered :
      (events : List (Event K S C)) (outstanding : List (Write K S C)) (self : Checkpointer) (w : W)
      (b : ℕ)
      → H b outstanding w
      → Orderly state cursor lands race covers position b events outstanding self w
      → All
          (Covered snapshot_at cursor_at covers position)
          (crash_points state cursor lands race events outstanding self w)
  unfolding crash_points
  points-Covered [] outstanding self w b h order = (h.0, ((late-Covered outstanding w b h).0, tt))
  points-Covered (commit_at key snap c ∷ events) outstanding self w b h (lo, (hi, (cov, order))) =
      let n = position c in
      let h' =
        mono-Held state cursor race snapshot_at cursor_at laws covers position b n outstanding w lo
          cov h in
      let middle = between-Held self key snap outstanding w n hi h' in
      (
        h.0,
        (
          (late-Covered outstanding w b h).0,
          (
            middle.0,
            (
              (late-Covered outstanding _ n middle).0,
              points-Covered events _ _ _ n (commit-Held self key snap c outstanding w hi h') order,
            ),
          ),
        ),
      )
  points-Covered (reset ∷ events) outstanding self w b h order =
      (h.0, ((late-Covered outstanding w b h).0, points-Covered events outstanding _ w b h order))
  points-Covered (settle ∷ events) outstanding self w b h order =
      let h' = late-Covered outstanding w b h in
      (h.0, (h'.0, points-Covered events [] self _ b (h'.0, (h'.1.0, tt)) order))

  -- The stores hold, wherever the process crashes, for each cursor a snapshot of the same key that
  -- covers it: before and after each event and between the two writes of each commit, whatever fails and
  -- times out, and whichever writes that timed out land later, at any of these moments and before either
  -- write of a later commit, until the driver has waited for them. This is given that it was so at the
  -- start, that the cursors of the commits do not go back, behind the stored ones or each other, that
  -- each snapshot covers its cursor, and that no commit is made with a cursor that an outstanding
  -- snapshot, of a write that timed out, does not cover.
  pub cursor_never_ahead :
      (events : List (Event K S C)) (self : Checkpointer) (w : W) (b : ℕ)
      → Covered snapshot_at cursor_at covers position w
      → CursorsUpTo snapshot_at cursor_at covers position b w
      → Orderly state cursor lands race covers position b events [] self w
      → All
          (Covered snapshot_at cursor_at covers position)
          (crash_points state cursor lands race events [] self w)
  cursor_never_ahead events self w b cov up order =
      points-Covered events [] self w b (cov, (up, tt)) order
