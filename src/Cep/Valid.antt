-- ===== src/Cep/Valid.antt =====
-- What the engine relies on of a compiled pattern (the builder of Cep/Pattern establishes it), and the
-- bounds on `next_step` that make its indexing safe.
use tflo.Prelude.{◌^◌, ◌≤◌, ◌<◌, Option, none, some, length, All}
use tflo.Prelude.I64.{u64_max}
use tflo.Cep.Step.{RepeatSpec, PartialMatch, Compiled}

-- `1 <= min <= max`, within `usize`.
abbrev pub RepeatOk : Option RepeatSpec → Type 0
RepeatOk none = Unit
RepeatOk (some spec) = (1 ≤ spec.min) × (spec.min ≤ spec.max) × (spec.max ≤ u64_max)

module _ {ℓ} {E M : Type ℓ} where
  -- `fits`: a vector has at most `isize::MAX` items.
  pub record IsValid (c : Compiled E M) : Type 0 where
    pub nonempty : 0 < length c.steps
    pub fits : length c.steps < 2 ^ 63
    pub repeats : All (λ s. RepeatOk s.repeat) c.steps

  -- A partial that waits for a step of the pattern, and not for the first.
  abbrev pub IsWaiting : Compiled E M → PartialMatch E → Type 0
  IsWaiting c pm = (1 ≤ pm.next_step) × (pm.next_step < length c.steps)
