-- ===== src/Cep/Match.antt =====
-- tflo-cep/src/matched.rs: what an emit callback receives. `none` is a panic where the source
-- indexes a vector.
use text.Mathlib.Text.{◌==◌ as str_eq}
use tflo.Prelude.{
  ℕ, String, Bool, true, false, Option, none, some, List, [], ◌∷◌, map, if◌then◌else◌, length,
  get_elem?, last?,
}

-- The captured events with the names of their steps, in the order of capture.
abbrev pub Captures {ℓ} : Type ℓ → Type ℓ
Captures E = List (String × E)

pub record Match {ℓ} (E : Type ℓ) : Type ℓ where
  pub name : String
  pub events : Captures E

module _ {ℓ} {E : Type ℓ} where
  abbrev pub new : String → Captures E → Match E
  new pattern_name captures = record { name = pattern_name; events = captures }

  abbrev pub pattern_name : Match E → String
  pattern_name m = m.name

  event_of : Option (String × E) → Option E
  event_of none = none
  event_of (some (_, e)) = some e

  pub first : Match E → Option E
  unfolding event_of
  first m = event_of (get_elem? m.events 0)

  pub last : Match E → Option E
  unfolding event_of
  last m = event_of (last? m.events)

  abbrev pub all : Match E → List E
  all m = map (λ p. p.1) m.events

  pub find : String → Captures E → Option E
  find step_name [] = none
  find step_name ((n, e) ∷ r) = if str_eq n step_name then some e else find step_name r

  pub at : Match E → String → Option E
  unfolding find
  at m step_name = find step_name m.events

  pub index : Match E → ℕ → Option E
  unfolding event_of
  index m idx = event_of (get_elem? m.events idx)

  abbrev pub len : Match E → ℕ
  len m = length m.events

  pub is_empty : Match E → Bool
  is_empty m = elim m.events [ [] ↦ true | _ ∷ _ ↦ false ]
