-- ===== src/Cep/Step.antt =====
-- tflo-cep/src/engine.rs: the data of a compiled pattern. Strings, events and emitted values are
-- moved and never computed with; a predicate is the pair of its two methods.
use tflo.Prelude.{ℕ, String, Bool, true, false, Option, none, some, List}
use tflo.Prelude.Int.{ℤ}
use tflo.Cep.Match.{Captures, Match}

-- Why a partial match was discarded.
pub data DropReason : Type 0 where
  max_in_flight deadline late : DropReason

pub record Predicate {ℓ} (E : Type ℓ) : Type ℓ where
  pub evaluate : E → Bool
  pub evaluate_in_context : E → Captures E → Bool

pub data Contiguity : Type 0 where
  eventually next : Contiguity

abbrev pub is_next : Contiguity → Bool
is_next eventually = false
is_next next = true

pub record RepeatSpec : Type 0 where
  pub min : ℕ
  pub max : ℕ

pub record Step {ℓ} (E : Type ℓ) : Type ℓ where
  pub name : String
  pub predicate : Predicate E
  pub within_ms : Option ℤ
  pub is_negative : Bool
  pub contiguity : Contiguity
  pub repeat : Option RepeatSpec
  pub forbidden : Option (Predicate E)

module _ {ℓ} {E : Type ℓ} where
  abbrev pub positive : String → Predicate E → Option ℤ → Step E
  positive name predicate within_ms = record {
    name = name;
    predicate = predicate;
    within_ms = within_ms;
    is_negative = false;
    contiguity = eventually;
    repeat = none;
    forbidden = none;
  }

  abbrev pub negative : String → Predicate E → Option ℤ → Step E
  negative name predicate within_ms = record {
    name = name;
    predicate = predicate;
    within_ms = within_ms;
    is_negative = true;
    contiguity = eventually;
    repeat = none;
    forbidden = none;
  }

  abbrev pub with_contiguity : Step E → Contiguity → Step E
  with_contiguity s c = record s { contiguity = c }

  abbrev pub with_repeat : Step E → RepeatSpec → Step E
  with_repeat s spec = record s { repeat = some spec }

  abbrev pub with_forbidden : Step E → Predicate E → Step E
  with_forbidden s p = record s { forbidden = some p }

pub record PartialMatch {ℓ} (E : Type ℓ) : Type ℓ where
  pub captures : Captures E
  pub next_step : ℕ
  pub deadline_ts : Option ℤ
  pub repeat_count : ℕ

pub data Disposition : Type 0 where
  keep remove complete : Disposition

pub record Compiled {ℓ} (E M : Type ℓ) : Type ℓ where
  pub name : String
  pub steps : List (Step E)
  pub emit_fn : Match E → M
  pub timestamp_fn : Option (E → ℤ)
