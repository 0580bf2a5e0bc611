-- ===== src/Cep/Language.antt =====
-- Which captures a pattern accepts, stated apart from the matcher. The captures are built event by
-- event, in the order of capture, and each event must satisfy the predicate of its step in the
-- context of the captures before it.
use tflo.Prelude.{ℕ, suc, ◌≤◌, ◌<◌, ◌≡◌, true, false, none, some, [], ◌∷◌, ◌++◌, length, get_elem?}
use tflo.Cep.Match.{Captures}
use tflo.Cep.Step.{RepeatSpec, Step, Compiled}

-- `Captured c k r caps`: the steps before `k` have captured `caps`, the last `r` of them at step `k`.
pub data Captured {ℓ} {E M : Type ℓ} (c : Compiled E M) : ℕ → ℕ → Captures E → Type ℓ where
  start :
      (step : Step E) (e : E)
      → get_elem? c.steps 0 ≡ some step
      → step.predicate.evaluate e ≡ true
      → Captured c 1 0 ((step.name, e) ∷ [])
  once :
      {k r : ℕ} {caps : Captures E} (step : Step E) (e : E)
      → Captured c k r caps
      → get_elem? c.steps k ≡ some step
      → step.is_negative ≡ false
      → step.repeat ≡ none
      → step.predicate.evaluate_in_context e caps ≡ true
      → Captured c (suc k) 0 (caps ++ ((step.name, e) ∷ []))
  more :
      {k r : ℕ} {caps : Captures E} (step : Step E) (spec : RepeatSpec) (e : E)
      → Captured c k r caps
      → get_elem? c.steps k ≡ some step
      → step.is_negative ≡ false
      → step.repeat ≡ some spec
      → r < spec.max
      → step.predicate.evaluate_in_context e caps ≡ true
      → Captured c k (suc r) (caps ++ ((step.name, e) ∷ []))
  leave :
      {k r : ℕ} {caps : Captures E} (step : Step E) (spec : RepeatSpec)
      → Captured c k r caps
      → get_elem? c.steps k ≡ some step
      → step.is_negative ≡ false
      → step.repeat ≡ some spec
      → spec.min ≤ r
      → Captured c (suc k) 0 caps

-- The captures of a whole pattern: all steps are done, or a negative step is what remains.
pub data Accepted {ℓ} {E M : Type ℓ} (c : Compiled E M) (caps : Captures E) : Type ℓ where
  all_steps : {k r : ℕ} → Captured c k r caps → length c.steps ≤ k → Accepted c caps
  absent :
      {k r : ℕ} (step : Step E)
      → Captured c k r caps
      → get_elem? c.steps k ≡ some step
      → step.is_negative ≡ true
      → Accepted c caps
