-- ===== src/Core/State/Tests.antt =====
-- Runs of the checkpointer and the deduplicator over a store in memory.
use native.Mathlib.Decide.{ℕ_discrete}
use tflo.Prelude.{
  ℕ, ◌≡◌, ◌⊎◌, ◌↔◌, ◌≤◌, inl, inr, Option, none, some, List, [], ◌∷◌, ok, err, All, arith, refl,
  ◌==◌, Bool, true, false, if◌then◌else◌, Bool-cases, map, last?, is_some_and,
}
use tflo.Core.State.{
  Written, AsyncStateStore, AsyncCursorStore, manual, commit, timeout, circuit_open, Checkpointer,
}
use tflo.Core.State
use tflo.Core.State.Calls.{Call, commit_at, reset, run}
use tflo.Core.State.Late.{Event, settle, left_running, between, crash_points}
use tflo.Core.State.Late
use tflo.Core.State.Breaker.{tally, nothing, circuit_opens}
use tflo.Core.State.Durable.{Put, Laws, Left, commit_lem}
use tflo.Core.State.Held.{Covered}
use tflo.Core.State.Crash.{cursor_never_ahead}

-- A map from a decidable type of keys, with one entry set.
abbrev pick {ℓ} : {P : Type ℓ} → Dec P → ℕ → Option ℕ → Option ℕ
pick (yes _) s o = some s
pick (no _) s o = o

abbrev set {ℓ} : {K : Type ℓ} → ((a b : K) → Dec (a ≡ b)) → (K → Option ℕ) → K → ℕ → K → Option ℕ
set dec m k s k' = pick (dec k k') s (m k')

pick-yes {ℓ} : {P : Type ℓ} (d : Dec P) (s : ℕ) (o : Option ℕ) → P → pick d s o ≡ some s
pick-yes (yes _) s o p = refl
pick-yes (no n) s o p = absurd (n p)

pick-Put {ℓ} :
    {K : Type ℓ} {k k' : K} (d : Dec (k ≡ k')) (s : ℕ) (o : Option ℕ) → Put o (pick d s o) k k' s
pick-Put (yes e) s o = inr (e, refl)
pick-Put (no _) s o = inl refl

abbrev Maps : Type 0
Maps = (ℕ → Option ℕ) × (ℕ → Option ℕ)

-- A write that a full store refuses.
abbrev saved : Bool → ℕ → ℕ → Maps → Written × Maps
saved true k s w = (err "full", w)
saved false k s w = (ok tt, (set ℕ_discrete w.0 k s, w.1))

saved-ok :
    (full : Bool) (k s : ℕ) (w : Maps)
    → (saved full k s w).0 ≡ ok tt
    → (saved full k s w).1.0 k ≡ some s
saved-ok true k s w done = absurd (cc)
saved-ok false k s w done = pick-yes (ℕ_discrete k k) s (w.0 k) refl

saved-Put : (full : Bool) (k k' s : ℕ) (w : Maps) → Put (w.0 k') ((saved full k s w).1.0 k') k k' s
saved-Put true k k' s w = inl refl
saved-Put false k k' s w = pick-Put (ℕ_discrete k k') s (w.0 k')

saved-cursors : (full : Bool) (k k' s : ℕ) (w : Maps) → (saved full k s w).1.1 k' ≡ w.1 k'
saved-cursors true k k' s w = refl
saved-cursors false k k' s w = refl

-- The store refuses the snapshot 99.
abbrev memory_state : AsyncStateStore Maps ℕ ℕ
memory_state = record { save = λ k s w. saved (s == 99) k s w; load = λ k w. (ok (w.0 k), w) }

abbrev memory_cursors : AsyncCursorStore Maps ℕ ℕ
memory_cursors = record {
  save_cursor = λ k c w. (ok tt, (w.0, set ℕ_discrete w.1 k c));
  load_cursor = λ k w. (ok (w.1 k), w);
}

-- The timer wins, and nothing is written, where the snapshot of the key 0 is 13.
abbrev stuck_at : Option ℕ → Bool
stuck_at none = false
stuck_at (some s) = s == 13

abbrev race : (Maps → Written × Maps) → Maps → Option Written × Maps
race op w = if stuck_at (w.0 0) then (none, w) else (some (op w).0, (op w).1)

race-cases :
    (op : Maps → Written × Maps) (w : Maps)
    → (race op w ≡ (some (op w).0, (op w).1))
      ⊎ ((race op w ≡ (none, w)) ⊎ (race op w ≡ (none, (op w).1)))
race-cases op w = elim (Bool-cases (stuck_at (w.0 0))) [
  | inl late ↦ rw late (inr (inl refl))
  | inr soon ↦ rw soon (inl refl)
]

memory-Laws : Laws memory_state memory_cursors race (λ w. w.0) (λ w. w.1)
memory-Laws = record {
  save_ok = λ k s w done. saved-ok (s == 99) k s w done;
  save_put = λ k k' s w. saved-Put (s == 99) k k' s w;
  save_cursors = λ k k' s w. saved-cursors (s == 99) k k' s w;
  cursor_ok = λ k c w done. pick-yes (ℕ_discrete k k) c (w.1 k) refl;
  cursor_put = λ k k' c w. pick-Put (ℕ_discrete k k') c (w.1 k');
  cursor_snapshots = λ k k' c w. refl;
  race_cases = race-cases;
}

abbrev empty_maps : Maps
empty_maps = (λ k. none, λ k. none)

-- The second commit is refused by the store, the third leaves an orphan snapshot, the fourth times
-- out, and the last is refused by the breaker.
abbrev commits : List (Call ℕ ℕ ℕ)
commits =
    commit_at 0 5 5
    ∷ commit_at 0 99 8
    ∷ reset
    ∷ commit_at 0 13 9
    ∷ commit_at 0 15 15
    ∷ commit_at 0 16 16
    ∷ []

circuit_opens_example :
    let (answers, (self', w')) =
      run memory_state memory_cursors race commits (State.new manual 50 2, empty_maps) in
    let streak = (tally answers nothing).streak in
    (2 ≤ streak) ↔ (
      commit memory_state memory_cursors race self' 0 20 20 w'
      ≡ (err (circuit_open streak), (self', w')))
circuit_opens_example =
    circuit_opens memory_state memory_cursors race 2 (omega arith) manual 50 commits empty_maps 0 20
      20

commit_lem_example :
    Left
      (λ w. w.0)
      (λ w. w.1)
      0
      13
      9
      empty_maps
      (commit memory_state memory_cursors race (State.new manual 50 2) 0 13 9 empty_maps)
commit_lem_example =
    commit_lem memory_state memory_cursors race (λ w. w.0) (λ w. w.1) memory-Laws
      (State.new manual 50 2) 0 13 9 empty_maps

-- The second commit's cursor times out and lands late, the third commit's snapshot times out, and the
-- driver waits before the last.
abbrev events : List (Event ℕ ℕ ℕ)
events =
    Late.commit_at 0 5 5
    ∷ Late.commit_at 0 13 9
    ∷ Late.commit_at 0 15 15
    ∷ settle
    ∷ Late.reset
    ∷ Late.commit_at 0 16 16
    ∷ []

abbrev first_lands : Maps → List ℕ
first_lands w = 0 ∷ []

cursor_never_ahead_example : All (Covered (λ w. w.0) (λ w. w.1) (λ s. s) (λ c. c)) (
    crash_points memory_state memory_cursors first_lands race events []
      (State.new manual 50 2)
      empty_maps)
unfolding commit left_running ℕ_discrete
cursor_never_ahead_example =
    cursor_never_ahead memory_state memory_cursors race (λ w. w.0) (λ w. w.1) memory-Laws (λ s. s)
      (λ c. c) first_lands events (State.new manual 50 2) empty_maps 0 (λ k c e. absurd (cc))
      (λ k c e. absurd (cc))
      (
        omega arith,
        (
          omega arith,
          (
            tt,
            (
              omega arith,
              (
                omega arith,
                (
                  tt,
                  (omega arith, (omega arith, ((tt, tt), (omega arith, (omega arith, (tt, tt)))))),
                ),
              ),
            ),
          ),
        ),
      )

abbrev of_key : Maps → Option ℕ × Option ℕ
of_key w = (w.0 0, w.1 0)

-- Without the wait, a snapshot that timed out takes the place of one that a later cursor needs.
abbrev slow : (Maps → Written × Maps) → Maps → Option Written × Maps
slow op w = if stuck_at ((op w).1.0 0) then (none, w) else (some (op w).0, (op w).1)

abbrev once_ahead : Maps → List ℕ
once_ahead w = if is_some_and (w.1 0) (λ c. c == 15) then 0 ∷ [] else []

stale_snapshot :
    last? (
      map of_key (
        crash_points memory_state memory_cursors once_ahead slow
          (Late.commit_at 0 13 13 ∷ Late.commit_at 0 15 15 ∷ [])
          []
          (State.new manual 50 2)
          empty_maps))
    ≡ some (some 13, some 15)
unfolding crash_points between commit left_running ℕ_discrete
stale_snapshot = refl
