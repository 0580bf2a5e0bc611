-- ===== src/Cep/Iter.antt =====
-- tflo-cep/src/runtime.rs: the iterator adapter. The underlying iterator is the list of the events
-- that it has left, and `none` is a panic of the engine.
pub mod Collect
use tflo.Prelude.{
  ℕ, zero, suc, Bool, true, false, not, Option, none, some, List, [], ◌∷◌, ◌++◌, if◌then◌else◌,
  ◌>>=◌,
}
use tflo.Cep.Step.{Compiled}
use tflo.Cep.Runtime.{Runtime, new as new_runtime}
use tflo.Cep.Engine.{push, flush}
use tflo.Cep.Match.{Match}
use tflo.Cep.Pattern.{Pattern}

pub record MatchPatternIter {ℓ} (E M : Type ℓ) : Type ℓ where
  pub inner : List E
  pub engine : Runtime E M
  pub pending : List M
  pub exhausted : Bool
  pub drained_negatives : Bool

-- What one turn of the loop does: it goes round again, or returns.
pub data Turn {ℓ} (E M : Type ℓ) : Type ℓ where
  again : MatchPatternIter E M → Turn E M
  return : Option M → MatchPatternIter E M → Turn E M

module _ {ℓ} {E M : Type ℓ} where
  abbrev pub new : List E → Compiled E M → MatchPatternIter E M
  new inner compiled = record {
    inner = inner;
    engine = new_runtime compiled;
    pending = [];
    exhausted = false;
    drained_negatives = false;
  }

  unfoldable pub drained : MatchPatternIter E M → Option (Turn E M)
  drained it = do
    (rt, ms) ← flush it.engine
    some (again (record it { engine = rt; pending = it.pending ++ ms; drained_negatives = true }))

  unfoldable pub pulled : MatchPatternIter E M → List E → Option (Turn E M)
  pulled it [] = some (again (record it { exhausted = true }))
  pulled it (event ∷ rest) = do
    (rt, ms) ← push it.engine event
    some (again (record it { inner = rest; engine = rt; pending = it.pending ++ ms }))

  -- The body of the loop of `next`.
  unfoldable pub turn : MatchPatternIter E M → List M → Option (Turn E M)
  turn it (out ∷ rest) = some (return (some out) (record it { pending = rest }))
  turn it [] =
      if it.exhausted
      then if not it.drained_negatives then drained it else some (return none it)
      else pulled it it.inner

  -- `next`, with at most `fuel` turns.
  unfoldable pub next : ℕ → MatchPatternIter E M → Option (Option M × MatchPatternIter E M)
  next zero it = none
  next (suc fuel) it = turn it it.pending >>= λ t. elim t [
    | again it' ↦ next fuel it'
    | return out it' ↦ some (out, it')
  ]

  -- `match_pattern`; `none` is the panic on a pattern that is not finalized.
  abbrev pub match_pattern : List E → Pattern E M → Option (MatchPatternIter E M)
  match_pattern events pattern = elim pattern.compiled [
    | none ↦ none
    | some compiled ↦ some (new events compiled)
  ]
