-- ===== src/Core/State/Calls.antt =====
-- tflo-core/src/state.rs: sequences of calls of one checkpointer.
use tflo.Prelude.{Option, List, [], ◌∷◌, Result}
use tflo.Core.State.{
  Written, AsyncStateStore, AsyncCursorStore, Checkpointer, CheckpointError, reset_circuit, commit,
}

pub data Call {ℓ κ μ} (K : Type ℓ) (S : Type κ) (C : Type μ) : Type (ℓ ⊔ κ ⊔ μ) where
  commit_at : K → S → C → Call K S C
  reset : Call K S C

-- What a call has answered.
pub data Answer : Type 0 where
  committed : Result (Unit {0}) CheckpointError → Answer
  was_reset : Answer

abbrev pub answered {ℓ} :
    {W : Type ℓ}
    → Result (Unit {0}) CheckpointError × (Checkpointer × W)
    → Answer × (Checkpointer × W)
answered (r, s) = (committed r, s)

module _ {ℓ κ μ ν} {W : Type ℓ} {K : Type κ} {S : Type μ} {C : Type ν} where
  unfoldable pub answer :
      AsyncStateStore W K S
      → AsyncCursorStore W K C
      → ((W → Written × W) → W → Option Written × W)
      → Call K S C
      → Checkpointer × W
      → Answer × (Checkpointer × W)
  answer state cursor race (commit_at key snap c) (self, w) =
      answered (commit state cursor race self key snap c w)
  answer state cursor race reset (self, w) = (was_reset, (reset_circuit self, w))

  unfoldable pub run :
      AsyncStateStore W K S
      → AsyncCursorStore W K C
      → ((W → Written × W) → W → Option Written × W)
      → List (Call K S C)
      → Checkpointer × W
      → List Answer × (Checkpointer × W)
  run state cursor race [] s = ([], s)
  run state cursor race (call ∷ calls) s =
      let (a, s') = answer state cursor race call s in
      let (answers, s'') = run state cursor race calls s' in (a ∷ answers, s'')
