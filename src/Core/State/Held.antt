-- ===== src/Core/State/Held.antt =====
-- tflo-core/src/state.rs: what each write of the stores keeps, be it in time or late: each cursor has a
-- snapshot that covers it.
use tflo.Prelude.{
  ℕ, ◌≤◌, ◌≡◌, inl, inr, Option, none, some, List, [], ◌∷◌, ◌++◌, get_elem?, All, All-map, All-get,
  All-right, arith, refl, sym, ◌∙◌, subst,
}
use mathlib.Core.Option.{some-injective}
use tflo.Core.State.{Written, AsyncStateStore, AsyncCursorStore}
use tflo.Core.State.Late.{Write, snapshot_write, cursor_write, perform, perform_at, land, Covers}
use tflo.Core.State.Durable.{Laws, race-keeps}

module _ {ℓ} {W K S C : Type ℓ} (snapshot_at : W → K → Option S) (cursor_at : W → K → Option C)
    (covers : S → ℕ) (position : C → ℕ) where
  -- Each durable cursor has a durable snapshot of its key that covers it.
  abbrev pub Covered : W → Type ℓ
  Covered w =
      (k : K) (c : C)
      → cursor_at w k ≡ some c
      → (s : S) × ((snapshot_at w k ≡ some s) × (position c ≤ covers s))

  abbrev pub CursorsUpTo : ℕ → W → Type ℓ
  CursorsUpTo b w = (k : K) (c : C) → cursor_at w k ≡ some c → position c ≤ b

  -- What an outstanding write may be.
  abbrev pub May : ℕ → W → Write K S C → Type ℓ
  May n w (snapshot_write k s) = (n ≤ covers s) × Unit {ℓ}
  May n w (cursor_write k c) =
      (position c ≤ n) × ((s : S) × ((snapshot_at w k ≡ some s) × (position c ≤ covers s)))

  abbrev pub Held : ℕ → List (Write K S C) → W → Type ℓ
  Held n outstanding w = Covered w × (CursorsUpTo n w × All (May n w) outstanding)

module _ {ℓ} {W K S C : Type ℓ} (state : AsyncStateStore W K S) (cursor : AsyncCursorStore W K C)
    (race : (W → Written × W) → W → Option Written × W) (snapshot_at : W → K → Option S)
    (cursor_at : W → K → Option C) (laws : Laws state cursor race snapshot_at cursor_at)
    (covers : S → ℕ) (position : C → ℕ) where
  abbrev pub H : ℕ → List (Write K S C) → W → Type ℓ
  H n outstanding w = Held snapshot_at cursor_at covers position n outstanding w

  abbrev pub M : ℕ → W → Write K S C → Type ℓ
  M n w x = May snapshot_at cursor_at covers position n w x

  -- A snapshot that covers every cursor takes the place of another.
  save-May :
      (key : K) (snap : S) (w : W) (n : ℕ) (x : Write K S C)
      → n ≤ covers snap
      → M n w x
      → M n (state.save key snap w).1 x
  save-May key snap w n (snapshot_write k s) le m = m
  save-May key snap w n (cursor_write k c) le (p, (s, (held, q))) = (
    p,
    elim (laws.save_put key k snap w) [
      | inl same ↦ (s, (same ∙ held, q))
      | inr (_, new) ↦ (snap, (new, omega (arith, p, le)))
    ],
  )

  cursor-May :
      (key : K) (c : C) (w : W) (n : ℕ) (x : Write K S C)
      → M n w x
      → M n (cursor.save_cursor key c w).1 x
  cursor-May key c w n (snapshot_write k s) m = m
  cursor-May key c w n (cursor_write k c') (p, (s, (held, q))) =
      (p, (s, (laws.cursor_snapshots key k c w ∙ held, q)))

  save-Held :
      (key : K) (snap : S) (w : W) (n : ℕ) (outstanding : List (Write K S C))
      → n ≤ covers snap
      → H n outstanding w
      → H n outstanding (state.save key snap w).1
  save-Held key snap w n outstanding le (covered, (up, may)) = (
    λ k c at.
        let at' = sym (laws.save_cursors key k snap w) ∙ at in
        elim (laws.save_put key k snap w) [
          | inl same ↦ let (s, (held, p)) = covered k c at' in (s, (same ∙ held, p))
          | inr (_, new) ↦ (snap, (new, omega (arith, up k c at', le)))
        ],
    (
      λ k c at. up k c (sym (laws.save_cursors key k snap w) ∙ at),
      All-map _ _ outstanding (λ x m. save-May key snap w n x le m) may,
    ),
  )

  cursor-Held :
      (key : K) (c : C) (w : W) (n : ℕ) (outstanding : List (Write K S C))
      → M n w (cursor_write key c)
      → H n outstanding w
      → H n outstanding (cursor.save_cursor key c w).1
  cursor-Held key c w n outstanding (le, (snap, (held, hi))) (covered, (up, may)) =
      let snapshots : (k : K) → snapshot_at (cursor.save_cursor key c w).1 k ≡ snapshot_at w k =
        λ k. laws.cursor_snapshots key k c w in
      (
        λ k c' at. elim (laws.cursor_put key k c w) [
          | inl same ↦
              let (s, (held', p)) = covered k c' (sym same ∙ at) in (s, (snapshots k ∙ held', p))
          | inr (here, new) ↦
              let moved : c ≡ c' = some-injective _ _ (sym new ∙ at) in
              (
                snap,
                (
                  subst (λ k'. snapshot_at (cursor.save_cursor key c w).1 k' ≡ some snap) here
                      (snapshots key ∙ held),
                  subst (λ d. position d ≤ covers snap) moved hi,
                ),
              )
        ],
        (
          λ k c' at. elim (laws.cursor_put key k c w) [
            | inl same ↦ up k c' (sym same ∙ at)
            | inr (here, new) ↦
                let moved : c ≡ c' = some-injective _ _ (sym new ∙ at) in
                subst (λ d. position d ≤ n) moved le
          ],
          All-map _ _ outstanding (λ x m. cursor-May key c w n x m) may,
        ),
      )

  perform-Held :
      (x : Write K S C) (w : W) (n : ℕ) (outstanding : List (Write K S C))
      → M n w x
      → H n outstanding w
      → H n outstanding (perform state cursor x w)
  perform-Held (snapshot_write k s) w n outstanding m h = save-Held k s w n outstanding m.0 h
  perform-Held (cursor_write k c) w n outstanding m h = cursor-Held k c w n outstanding m h

  place-Held :
      (o : Option (Write K S C)) (w : W) (n : ℕ) (outstanding : List (Write K S C))
      → ((x : Write K S C) → o ≡ some x → M n w x)
      → H n outstanding w
      → H n outstanding (perform_at state cursor o w)
  place-Held none w n outstanding m h = h
  place-Held (some x) w n outstanding m h = perform-Held x w n outstanding (m x refl) h

  -- Outstanding writes land, where a call has one more.
  pub land-Held :
      (before outstanding : List (Write K S C)) (places : List ℕ) (w : W) (n : ℕ)
      → H n (before ++ outstanding) w
      → H n (before ++ outstanding) (land state cursor outstanding places w)
  land-Held before outstanding [] w n h = h
  land-Held before outstanding (i ∷ places) w n h = land-Held before outstanding places _ n (
      place-Held (get_elem? outstanding i) w n (before ++ outstanding)
        (λ x e.
          All-get (λ y. M n w y) outstanding i (All-right (λ y. M n w y) before outstanding h.1.1)
            e)
        h)

  pub drop-Held :
      (x : Write K S C) (outstanding : List (Write K S C)) (w : W) (n : ℕ)
      → H n (x ∷ outstanding) w
      → H n outstanding w
  drop-Held x outstanding w n h = (h.0, (h.1.0, h.1.1.1))

  mono-May :
      (a n : ℕ) (w : W) (outstanding : List (Write K S C))
      → a ≤ n
      → All (Covers covers n) outstanding
      → All (λ x. M a w x) outstanding
      → All (λ x. M n w x) outstanding
  mono-May a n w [] le cov m = tt
  mono-May a n w (snapshot_write k s ∷ xs) le cov m = ((cov.0, tt), mono-May a n w xs le cov.1 m.1)
  mono-May a n w (cursor_write k c ∷ xs) le cov m =
      ((omega (arith, le, m.0.0), m.0.1), mono-May a n w xs le cov.1 m.1)

  pub mono-Held :
      (a n : ℕ) (outstanding : List (Write K S C)) (w : W)
      → a ≤ n
      → All (Covers covers n) outstanding
      → H a outstanding w
      → H n outstanding w
  mono-Held a n outstanding w le cov h =
      (h.0, (λ k c at. omega (arith, h.1.0 k c at, le), mono-May a n w outstanding le cov h.1.1))

  -- The head of the outstanding writes is being performed under the deadline.
  pub race-Held :
      (x : Write K S C) (op : W → Written × W) (outstanding : List (Write K S C)) (w : W) (n : ℕ)
      → ((v : W) → (op v).1 ≡ perform state cursor x v)
      → H n (x ∷ outstanding) w
      → H n (x ∷ outstanding) (race op w).1
  race-Held x op outstanding w n same h =
      race-keeps state cursor race snapshot_at cursor_at laws (H n (x ∷ outstanding)) op w h (
        subst (H n (x ∷ outstanding)) (sym (same w))
          (perform-Held x w n (x ∷ outstanding) h.1.1.0 h))
