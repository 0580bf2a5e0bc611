-- ===== src/Core/State/Breaker.antt =====
-- tflo-core/src/state.rs: the counters and the circuit breaker of the checkpointer, over any sequence
-- of calls.
use tflo.Prelude.{
  ℕ, ◌+◌, ◌%◌, ◌^◌, ◌≤◌, ◌<◌, ◌≡◌, ◌≢◌, ◌↔◌, Option, none, some, List, [], ◌∷◌, Result, ok, err,
  arith, Bool-cases, inl, inr, leb, refl,
}
use tflo.Core.State.{
  Written, AsyncStateStore, AsyncCursorStore, CheckpointError, timeout, state_store, cursor_store,
  snapshot_capture, circuit_open, Checkpointer, CheckpointPolicy, with_deadline, after_cursor,
  after_save, commit,
}
use tflo.Core.State
use tflo.Core.State.Calls.{Call, commit_at, reset, Answer, committed, was_reset, answer, run}

-- What the answers so far say: the failures since the last success or reset, and the totals.
pub record Tally : Type 0 where
  pub streak : ℕ
  pub commits : ℕ
  pub failures : ℕ
  pub timeouts : ℕ

abbrev pub nothing : Tally
nothing = record { streak = 0; commits = 0; failures = 0; timeouts = 0 }

abbrev pub failed : Tally → Tally
failed t = record t { streak = t.streak + 1; failures = t.failures + 1 }

-- A call that the open breaker has refused counts for nothing.
abbrev pub count : Answer → Tally → Tally
count (committed (ok _)) t = record t { streak = 0; commits = t.commits + 1 }
count (committed (err (timeout _ _))) t = failed (record t { timeouts = t.timeouts + 1 })
count (committed (err (state_store _))) t = failed t
count (committed (err (cursor_store _))) t = failed t
count (committed (err (snapshot_capture _))) t = failed t
count (committed (err (circuit_open _))) t = t
count was_reset t = record t { streak = 0 }

abbrev pub tally : List Answer → Tally → Tally
tally [] t = t
tally (a ∷ answers) t = tally answers (count a t)

-- The counters show the tally; the breaker has not let the streak pass the threshold.
pub record Shows (threshold : ℕ) (self : Checkpointer) (t : Tally) : Type 0 where
  pub same_threshold : self.circuit_threshold ≡ threshold
  pub streak : self.consecutive_failures ≡ t.streak
  pub capped : t.streak ≤ threshold
  pub commits : self.commits_total ≡ t.commits % 2 ^ 64
  pub failures : self.failures_total ≡ t.failures % 2 ^ 64
  pub timeouts : self.timeouts_total ≡ t.timeouts % 2 ^ 64

module _ {ℓ} {W : Type ℓ} (threshold : ℕ) (small : threshold < 2 ^ 32) where
  abbrev AnswerShows : Tally → Result (Unit {0}) CheckpointError × (Checkpointer × W) → Type 0
  AnswerShows t (r, (self, w)) = Shows threshold self (count (committed r) t)

  after_cursor-AnswerShows :
      (self : Checkpointer) (t : Tally) (p : Option Written × W)
      → Shows threshold self t
      → t.streak < threshold
      → AnswerShows t (after_cursor (with_deadline self "cursor.save" p))
  after_cursor-AnswerShows self t (none, w) s lt = ground arith
  after_cursor-AnswerShows self t (some (ok _), w) s lt = ground arith
  after_cursor-AnswerShows self t (some (err e), w) s lt = ground arith

  after_save-AnswerShows :
      (self : Checkpointer) (t : Tally) (write : W → Option Written × W) (p : Option Written × W)
      → Shows threshold self t
      → t.streak < threshold
      → AnswerShows t (after_save write (with_deadline self "state.save" p))
  after_save-AnswerShows self t write (none, w) s lt = ground arith
  after_save-AnswerShows self t write (some (ok _), w) s lt =
      after_cursor-AnswerShows self t (write w) s lt
  after_save-AnswerShows self t write (some (err e), w) s lt = ground arith

  after_cursor-tried :
      (self : Checkpointer) (p : Option Written × W) (n : ℕ) (s : Checkpointer × W)
      → after_cursor (with_deadline self "cursor.save" p) ≢ (err (circuit_open n), s)
  after_cursor-tried self (none, w) n s = ground arith
  after_cursor-tried self (some (ok _), w) n s = ground arith
  after_cursor-tried self (some (err e), w) n s = ground arith

  after_save-tried :
      (self : Checkpointer) (write : W → Option Written × W) (p : Option Written × W) (n : ℕ)
      (s : Checkpointer × W)
      → after_save write (with_deadline self "state.save" p) ≢ (err (circuit_open n), s)
  after_save-tried self write (none, w) n s = ground arith
  after_save-tried self write (some (ok _), w) n s = after_cursor-tried self (write w) n s
  after_save-tried self write (some (err e), w) n s = ground arith

module _ {ℓ κ μ ν} {W : Type ℓ} {K : Type κ} {S : Type μ} {C : Type ν}
    (state : AsyncStateStore W K S) (cursor : AsyncCursorStore W K C)
    (race : (W → Written × W) → W → Option Written × W) (threshold : ℕ)
    (small : threshold < 2 ^ 32) where
  answer-Shows :
      (call : Call K S C) (self : Checkpointer) (w : W) (t : Tally)
      → Shows threshold self t
      → let (a, (self', w')) = answer state cursor race call (self, w) in
        Shows threshold self' (count a t)
  unfolding answer commit
  answer-Shows (commit_at key snap c) self w t s =
      elim (Bool-cases (leb self.circuit_threshold self.consecutive_failures)) [
        | inl open' ↦ rw open' s
        | inr shut ↦ rw shut (
            after_save-AnswerShows threshold small self t _ (race (state.save key snap) w) s
              (ground arith))
      ]
  answer-Shows reset self w t s = ground arith

  run-Shows :
      (calls : List (Call K S C)) (self : Checkpointer) (w : W) (t : Tally)
      → Shows threshold self t
      → let (answers, (self', w')) = run state cursor race calls (self, w) in
        Shows threshold self' (tally answers t)
  unfolding run
  run-Shows [] self w t s = s
  run-Shows (call ∷ calls) self w t s =
      let (a, (self', w')) = answer state cursor race call (self, w) in
      run-Shows calls self' w' (count a t) (answer-Shows call self w t s)

  -- After any calls of a fresh checkpointer whose threshold fits a `u32`, whatever the stores and the
  -- timer have done, its counters show the tally of the answers: the failures since the last success
  -- or reset, never more than the threshold, and modulo 2 ^ 64 the totals of the commits, the
  -- failures and the timeouts.
  pub run_counts :
      (policy : CheckpointPolicy) (deadline : ℕ) (calls : List (Call K S C)) (w : W)
      → let (answers, (self', w')) =
          run state cursor race calls (State.new policy deadline threshold, w) in
        Shows threshold self' (tally answers nothing)
  run_counts policy deadline calls w =
      run-Shows calls (State.new policy deadline threshold) w nothing (ground arith)

  commit-refused :
      (self : Checkpointer) (w : W) (t : Tally) (key : K) (snap : S) (c : C)
      → Shows threshold self t
      → (threshold ≤ t.streak)
        ↔ (commit state cursor race self key snap c w ≡ (err (circuit_open t.streak), (self, w)))
  unfolding commit
  commit-refused self w t key snap c s =
      elim (Bool-cases (leb self.circuit_threshold self.consecutive_failures)) [
        | inl open' ↦ rw (open', s.streak) (λ _. refl, λ _. ground arith)
        | inr shut ↦ rw shut (
          λ le. ground arith,
          λ e.
              absurd (after_save-tried threshold small self _ (race (state.save key snap) w) _ _ e),
        )
      ]

  -- After any calls of a fresh checkpointer whose threshold fits a `u32`, the next commit is refused
  -- with `CircuitOpen`, and neither writes nor counts anything, exactly when the failures since the
  -- last success or reset are at least the threshold.
  pub circuit_opens :
      (policy : CheckpointPolicy) (deadline : ℕ) (calls : List (Call K S C)) (w : W) (key : K)
      (snap : S) (c : C)
      → let (answers, (self', w')) =
          run state cursor race calls (State.new policy deadline threshold, w) in
        let streak = (tally answers nothing).streak in
        (threshold ≤ streak)
        ↔ (commit state cursor race self' key snap c w' ≡ (err (circuit_open streak), (self', w')))
  circuit_opens policy deadline calls w key snap c =
      let (answers, (self', w')) =
        run state cursor race calls (State.new policy deadline threshold, w) in
      commit-refused self' w' (tally answers nothing) key snap c
        (run_counts policy deadline calls w)
