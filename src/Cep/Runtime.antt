-- ===== src/Cep/Runtime.antt =====
-- tflo-cep/src/engine.rs: the state of the streaming matcher, and the methods that read or set one
-- field. A method that mutates `self` returns the new runtime; the vector `out` that it appends to is
-- passed and returned. `none` is a panic: an index out of range.
use mathlib.Core.Option
use tflo.Prelude.{
  ℕ, Option, none, some, List, [], ◌∷◌, ◌++◌, length, get_elem?, if◌then◌else◌, leb, ltb,
}
use tflo.Prelude.Int.{ℤ, min_ℤ}
use tflo.Prelude.I64.{sat_add, sat_add_u64}
use tflo.Core.Reorder
use tflo.Core.Reorder.{ReorderBuffer}
use tflo.Cep.Match
use tflo.Cep.Step.{DropReason, max_in_flight, PartialMatch, Compiled}

abbrev pub max_partials : ℕ
max_partials = 1024

-- `on_drop` is the list of the calls that the drop handler has received, if one is set.
pub record Runtime {ℓ} (E M : Type ℓ) : Type ℓ where
  pub compiled : Compiled E M
  pub in_flight : List (PartialMatch E)
  pub on_drop : Option (List DropReason)
  pub dropped : ℕ
  pub reorder : Option (ReorderBuffer E)

module _ {ℓ} {E M : Type ℓ} where
  unfoldable pub new : Compiled E M → Runtime E M
  new compiled = record {
    compiled = compiled;
    in_flight = [];
    on_drop = none;
    dropped = 0;
    reorder = none;
  }

  abbrev pub with_reorder : Runtime E M → ℤ → Runtime E M
  with_reorder rt max_lateness_ms = record rt { reorder = some (Reorder.new max_lateness_ms) }

  abbrev pub reset : Runtime E M → Runtime E M
  reset rt = record rt { in_flight = [] }

  abbrev pub set_drop_handler : Runtime E M → Runtime E M
  set_drop_handler rt = record rt { on_drop = some [] }

  abbrev pub note_drop : Runtime E M → DropReason → Runtime E M
  note_drop rt reason = record rt {
    dropped = sat_add_u64 rt.dropped 1;
    on_drop = Option.map (λ calls. calls ++ (reason ∷ [])) rt.on_drop;
  }

  -- `complete`: emit the match of the captures.
  abbrev pub emit : Compiled E M → PartialMatch E → List M → List M
  emit c pm out = out ++ (c.emit_fn (Match.new c.name pm.captures) ∷ [])

  unfoldable pub next_deadline_for : Compiled E M → ℕ → ℤ → Option ℤ
  next_deadline_for c step_idx ref_ts =
      if leb (length c.steps) step_idx then none else elim (get_elem? c.steps step_idx) [
        | none ↦ none
        | some step ↦ Option.map (λ ms. sat_add ref_ts ms) step.within_ms
      ]

  -- `push` on `in_flight`, with the eviction of the oldest.
  unfoldable pub open_partial : Runtime E M → PartialMatch E → Runtime E M
  open_partial rt pm =
      let rt' = record rt { in_flight = rt.in_flight ++ (pm ∷ []) } in
      if ltb max_partials (length rt'.in_flight)
      then note_drop (record rt' { in_flight = elim rt'.in_flight [ [] ↦ [] | _ ∷ rest ↦ rest ] })
          max_in_flight
      else rt'

  abbrev pub dropped_count : Runtime E M → ℕ
  dropped_count rt = rt.dropped

-- `Option::or` where one side is missing, the smaller where both are there.
abbrev pub earlier : Option ℤ → Option ℤ → Option ℤ
earlier (some a) (some b) = some (min_ℤ a b)
earlier (some a) none = some a
earlier none b = b

module _ {ℓ} {E : Type ℓ} where
  abbrev pub min_deadline : List (PartialMatch E) → Option ℤ
  min_deadline [] = none
  min_deadline (pm ∷ pms) = earlier pm.deadline_ts (min_deadline pms)

module _ {ℓ} {E M : Type ℓ} where
  unfoldable pub next_deadline : Runtime E M → Option ℤ
  next_deadline rt =
      earlier (min_deadline rt.in_flight)
        (elim rt.reorder [ none ↦ none | some buf ↦ Reorder.next_release_clock buf ])
