-- ===== src/Core/State.antt =====
-- tflo-core/src/state.rs: the store interfaces and the checkpointer; tflo-core/src/adapter.rs: the
-- policy of a checkpoint. `W` is what the backends hold, and a call of a backend takes it and returns
-- it. `race` is the `select!` of a call with the timer: `none` is the timer's arm, and what the dropped
-- call has then written is in the `W` that it returns. The atomic counters wrap around.
pub mod Calls
pub mod Breaker
pub mod Durable
pub mod Late
pub mod Held
pub mod Crash
mod Tests
use tflo.Prelude.{
  ℕ, ◌+◌, ◌%◌, ◌^◌, String, Bool, false, ◌||◌, leb, if◌then◌else◌, Option, none, some, List, [],
  ◌∷◌, Result, ok, err,
}
use tflo.Prelude.Int.{ℤ, leb_ℤ}

-- What a backend's write returns.
abbrev pub Written : Type 0
Written = Result (Unit {0}) String

pub record AsyncStateStore {ℓ κ μ} (W : Type ℓ) (K : Type κ) (S : Type μ) : Type (ℓ ⊔ κ ⊔ μ) where
  pub save : K → S → W → Written × W
  pub load : K → W → Result (Option S) String × W

pub record AsyncCursorStore {ℓ κ μ} (W : Type ℓ) (K : Type κ) (C : Type μ) : Type (ℓ ⊔ κ ⊔ μ) where
  pub save_cursor : K → C → W → Written × W
  pub load_cursor : K → W → Result (Option C) String × W

module _ {ℓ} {W : Type ℓ} where
  -- The loop of `save_batch`: the first error ends it.
  abbrev and_then : Written × W → (W → Written × W) → Written × W
  and_then (ok _, w) rest = rest w
  and_then (err e, w) rest = (err e, w)

module _ {ℓ κ μ} {W : Type ℓ} {K : Type κ} {S : Type μ} where
  abbrev pub save_batch : AsyncStateStore W K S → List (K × S) → W → Written × W
  save_batch store [] w = (ok tt, w)
  save_batch store ((key, snap) ∷ items) w =
      and_then (store.save key snap w) (λ w'. save_batch store items w')

pub data CheckpointError : Type 0 where
  timeout : String → ℕ → CheckpointError
  state_store cursor_store snapshot_capture : String → CheckpointError
  circuit_open : ℕ → CheckpointError

pub data CheckpointPolicy : Type 0 where
  every_n_records : ℕ → CheckpointPolicy
  every_n_ms : ℤ → CheckpointPolicy
  manual : CheckpointPolicy
  both : ℕ → ℤ → CheckpointPolicy

abbrev pub should_checkpoint : CheckpointPolicy → ℕ → ℤ → Bool
should_checkpoint (every_n_records n) records ms = leb n records
should_checkpoint (every_n_ms every) records ms = leb_ℤ every ms
should_checkpoint manual records ms = false
should_checkpoint (both n every) records ms = leb n records || leb_ℤ every ms

-- The stores are arguments of the methods that call them.
pub record Checkpointer : Type 0 where
  pub policy : CheckpointPolicy
  pub deadline : ℕ
  pub circuit_threshold : ℕ
  pub consecutive_failures : ℕ
  pub commits_total : ℕ
  pub failures_total : ℕ
  pub timeouts_total : ℕ

abbrev pub new : CheckpointPolicy → ℕ → ℕ → Checkpointer
new policy deadline circuit_threshold = record {
  policy = policy;
  deadline = deadline;
  circuit_threshold = circuit_threshold;
  consecutive_failures = 0;
  commits_total = 0;
  failures_total = 0;
  timeouts_total = 0;
}

abbrev pub reset_circuit : Checkpointer → Checkpointer
reset_circuit self = record self { consecutive_failures = 0 }

abbrev pub record_failure : Checkpointer → Checkpointer
record_failure self = record self {
  consecutive_failures = (self.consecutive_failures + 1) % 2 ^ 32;
  failures_total = (self.failures_total + 1) % 2 ^ 64;
}

-- The two arms of the `select!`.
abbrev pub with_deadline {ℓ} :
    {W : Type ℓ}
    → Checkpointer
    → String
    → Option Written × W
    → Result Written CheckpointError × (Checkpointer × W)
with_deadline self stage (some res, w) = (ok res, (self, w))
with_deadline self stage (none, w) = (
  err (timeout stage self.deadline),
  (record_failure (record self { timeouts_total = (self.timeouts_total + 1) % 2 ^ 64 }), w),
)

module _ {ℓ} {W : Type ℓ} where
  -- The end of `commit`, from the result of the cursor's write.
  abbrev pub after_cursor :
      Result Written CheckpointError × (Checkpointer × W)
      → Result (Unit {0}) CheckpointError × (Checkpointer × W)
  after_cursor (err e, (self, w)) = (err e, (self, w))
  after_cursor (ok (err e), (self, w)) = (err (cursor_store e), (record_failure self, w))
  after_cursor (ok (ok _), (self, w)) = (
    ok tt,
    (
      record self { consecutive_failures = 0; commits_total = (self.commits_total + 1) % 2 ^ 64 },
      w,
    ),
  )

  -- The rest of `commit`, from the result of the snapshot's write; `write_cursor` is the second write.
  abbrev pub after_save :
      (W → Option Written × W)
      → Result Written CheckpointError × (Checkpointer × W)
      → Result (Unit {0}) CheckpointError × (Checkpointer × W)
  after_save write_cursor (err e, (self, w)) = (err e, (self, w))
  after_save write_cursor (ok (err e), (self, w)) = (err (state_store e), (record_failure self, w))
  after_save write_cursor (ok (ok _), (self, w)) =
      after_cursor (with_deadline self "cursor.save" (write_cursor w))

module _ {ℓ κ μ ν} {W : Type ℓ} {K : Type κ} {S : Type μ} {C : Type ν} where
  unfoldable pub commit :
      AsyncStateStore W K S
      → AsyncCursorStore W K C
      → ((W → Written × W) → W → Option Written × W)
      → Checkpointer
      → K
      → S
      → C
      → W
      → Result (Unit {0}) CheckpointError × (Checkpointer × W)
  commit state cursor race self key snapshot c w =
      if leb self.circuit_threshold self.consecutive_failures
      then (err (circuit_open self.consecutive_failures), (self, w))
      else after_save (race (cursor.save_cursor key c))
          (with_deadline self "state.save" (race (state.save key snapshot) w))
