-- ===== src/Cep/Pattern.antt =====
-- tflo-cep/src/pattern.rs: the builder of a pattern. A method that takes `mut self` returns the new
-- builder.
pub mod Cel
pub mod Checks
pub mod Steps
pub mod Build
pub mod Lone
use mathlib.Core.Option
use tflo.Prelude.{
  ℕ, zero, suc, String, Bool, true, false, ◌-◌, Option, none, some, List, [], ◌∷◌, ◌++◌, map,
  length, if◌then◌else◌, ltb, ◌==◌, min, not,
}
use tflo.Prelude.Int.{ℤ, pos}
use tflo.Prelude.Decimal.{numbered}
use tflo.Cep.Match.{Captures, Match}
use tflo.Cep.Step
use tflo.Cep.Step.{Predicate, Contiguity, eventually, RepeatSpec, Step, Compiled}
use tflo.Cep.Runtime.{Runtime, new as new_runtime}

-- `ArcPredicate`: a closure over the event and the captures, with its two methods.
abbrev pub ArcPredicate {ℓ} : Type ℓ → Type ℓ
ArcPredicate E = E → Captures E → Bool

module _ {ℓ} {E : Type ℓ} where
  abbrev pub from_fn : (E → Bool) → ArcPredicate E
  from_fn p event captures = p event

  abbrev pub as_predicate : ArcPredicate E → Predicate E
  as_predicate f = record { evaluate = λ e. f e []; evaluate_in_context = f }

pub data PatternError : Type 0 where
  no_when_step : PatternError
  not_then_missing_within : String → PatternError
  not_then_not_terminal : String → PatternError
  cel_compile : String → String → PatternError

-- `Result`
pub data Result {ℓ κ} (A : Type ℓ) (B : Type κ) : Type (ℓ ⊔ κ) where
  ok : A → Result A B
  err : B → Result A B

-- `name predicate within_ms contiguity repeat forbidden`, and `name predicate within_ms`.
pub data BuilderStep {ℓ} (E : Type ℓ) : Type ℓ where
  positive :
      String
      → ArcPredicate E
      → Option ℤ
      → Contiguity
      → Option RepeatSpec
      → Option (ArcPredicate E)
      → BuilderStep E
  negative : String → ArcPredicate E → Option ℤ → BuilderStep E

module _ {ℓ} {E : Type ℓ} where
  abbrev pub name_of : BuilderStep E → String
  name_of (positive n p w c r f) = n
  name_of (negative n p w) = n

  abbrev pub set_within : ℤ → BuilderStep E → BuilderStep E
  set_within ms (positive n p w c r f) = positive n p (some ms) c r f
  set_within ms (negative n p w) = negative n p (some ms)

  abbrev pub set_contiguity : Contiguity → BuilderStep E → BuilderStep E
  set_contiguity k (positive n p w c r f) = positive n p w k r f
  set_contiguity k (negative n p w) = negative n p w

  abbrev pub set_repeat : RepeatSpec → BuilderStep E → BuilderStep E
  set_repeat spec (positive n p w c r f) = positive n p w c (some spec) f
  set_repeat spec (negative n p w) = negative n p w

  abbrev pub is_negative : BuilderStep E → Bool
  is_negative (positive n p w c r f) = false
  is_negative (negative n p w) = true

  abbrev pub within_of : BuilderStep E → Option ℤ
  within_of (positive n p w c r f) = w
  within_of (negative n p w) = w

  -- `if let Some(last) = self.steps.last_mut()`
  abbrev pub change_last :
      (BuilderStep E → BuilderStep E) → List (BuilderStep E) → List (BuilderStep E)
  change_last f [] = []
  change_last f (s ∷ []) = f s ∷ []
  change_last f (s ∷ t ∷ r) = s ∷ change_last f (t ∷ r)

  -- `if let Some(first) = self.steps.first_mut() { *first = step } else { push }`
  abbrev pub put_first : BuilderStep E → List (BuilderStep E) → List (BuilderStep E)
  put_first s [] = s ∷ []
  put_first s (_ ∷ r) = s ∷ r

pub record Pattern {ℓ} (E M : Type ℓ) : Type ℓ where
  pub name : String
  pub timestamp_fn : Option (E → ℤ)
  pub steps : List (BuilderStep E)
  pub compiled : Option (Compiled E M)
  pub pending_error : Option PatternError
  pub pending_forbidden : Option (ArcPredicate E)

-- The `for` loop of `emit`, from position `i` of `total` steps: the first error, if there is one.
unfoldable pub check_steps {ℓ} : {E : Type ℓ} → ℕ → ℕ → List (BuilderStep E) → Option PatternError
check_steps total i [] = none
check_steps total i (s ∷ r) =
    let rest = check_steps total (suc i) r in
    if is_negative s
    then elim (within_of s) [
      | none ↦ some (not_then_missing_within (name_of s))
      | some _ ↦ if not (i == total - 1) then some (not_then_not_terminal (name_of s)) else rest
    ]
    else rest

-- The closure that converts a builder step into an engine step.
abbrev pub engine_step {ℓ} : {E : Type ℓ} → BuilderStep E → Step E
engine_step {E} (positive n p w c r f) =
    let s₀ = Step.with_contiguity (Step.positive n (as_predicate p) w) c in
    let s₁ : Step E = elim r [ none ↦ s₀ | some spec ↦ Step.with_repeat s₀ spec ] in
    elim f [ none ↦ s₁ | some guard ↦ Step.with_forbidden s₁ (as_predicate guard) ]
engine_step (negative n p w) = Step.negative n (as_predicate p) w

module _ {ℓ} {E M : Type ℓ} where
  abbrev pub new : String → Pattern E M
  new name = record {
    name = name;
    timestamp_fn = none;
    steps = [];
    compiled = none;
    pending_error = none;
    pending_forbidden = none;
  }

  abbrev pub timestamp : Pattern E M → (E → ℤ) → Pattern E M
  timestamp p f = record p { timestamp_fn = some f }

  unfoldable pub when : Pattern E M → (E → Bool) → Pattern E M
  when p f =
      let name = numbered "when_" (length p.steps) in
      record p { steps = put_first (positive name (from_fn f) none eventually none none) p.steps }

  unfoldable pub not_between : Pattern E M → (E → Bool) → Pattern E M
  not_between p f = record p { pending_forbidden = some (from_fn f) }

  unfoldable pub then_named : Pattern E M → String → (E → Bool) → Pattern E M
  then_named p name f = record p {
    steps = p.steps ++ (positive name (from_fn f) none eventually none p.pending_forbidden ∷ []);
    pending_forbidden = none;
  }

  unfoldable pub then_ : Pattern E M → (E → Bool) → Pattern E M
  unfolding then_named
  then_ p f = then_named p (numbered "then_" (length p.steps)) f

  unfoldable pub not_then_named : Pattern E M → String → (E → Bool) → Pattern E M
  not_then_named p name f = record p { steps = p.steps ++ (negative name (from_fn f) none ∷ []) }

  unfoldable pub not_then : Pattern E M → (E → Bool) → Pattern E M
  unfolding not_then_named
  not_then p f = not_then_named p (numbered "not_then_" (length p.steps)) f

  -- The duration in milliseconds, at most `i64::MAX`.
  unfoldable pub within : Pattern E M → ℕ → Pattern E M
  within p millis = record p {
    steps = change_last (set_within (pos (min millis 9223372036854775807))) p.steps;
  }

  unfoldable pub next : Pattern E M → Pattern E M
  next p = record p { steps = change_last (set_contiguity Contiguity.next) p.steps }

  unfoldable pub times : Pattern E M → ℕ → ℕ → Pattern E M
  times p low high =
      let low' = if ltb low 1 then 1 else low in
      let high' = if ltb high low' then low' else high in
      record p { steps = change_last (set_repeat (record { min = low'; max = high' })) p.steps }

  -- The `Compiled` that `emit` makes.
  abbrev pub compile : Pattern E M → {N : Type ℓ} → (Match E → N) → Compiled E N
  compile p f = record {
    name = p.name;
    steps = map engine_step p.steps;
    emit_fn = f;
    timestamp_fn = p.timestamp_fn;
  }

  -- What `emit` returns when the checks pass.
  abbrev pub finalized : Pattern E M → {N : Type ℓ} → (Match E → N) → Pattern E N
  finalized p f = record {
    name = p.name;
    timestamp_fn = none;
    steps = [];
    compiled = some (compile p f);
    pending_error = none;
    pending_forbidden = none;
  }

  -- The pending error, then the two checks, then the compiled pattern.
  unfoldable pub emit :
      Pattern E M → {N : Type ℓ} → (Match E → N) → Result (Pattern E N) PatternError
  emit p f = elim p.pending_error [
    | some e ↦ err e
    | none ↦ elim p.steps [
      | [] ↦ err no_when_step
      | _ ∷ _ ↦ elim (check_steps (length p.steps) 0 p.steps) [
        | some e ↦ err e
        | none ↦ ok (finalized p f)
      ]
    ]
  ]

  abbrev pub into_runtime : Pattern E M → Option (Runtime E M)
  into_runtime p = Option.map new_runtime p.compiled
