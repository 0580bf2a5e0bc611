-- ===== src/Cep/Engine.antt =====
-- tflo-cep/src/engine.rs: the calls that a host makes on a runtime, `push`, `push_at`, `flush` and
-- `tick`.
pub mod Calls
pub mod Safe
pub mod Deadlines
pub mod Wake
pub mod Lives
pub mod Independent
use tflo.Prelude.{
  not, ◌&&◌, ◌||◌, Option, none, some, List, [], ◌∷◌, ◌++◌, length, get_elem?, if◌then◌else◌,
  is_some_and, ◌>>=◌, leb,
}
use tflo.Prelude.Int.{ℤ, pos}
use tflo.Prelude.I64.{sat_add_u64}
use tflo.Core.Reorder
use tflo.Core.Reorder.{ReorderBuffer}
use tflo.Cep.Step.{PartialMatch}
use tflo.Cep.Runtime.{Runtime, emit}
use tflo.Cep.Sweep.{match_one, match_all, note_late, advance_deadlines}

module _ {ℓ} {E M : Type ℓ} where
  -- `push_at` by the match on the reorder buffer.
  unfoldable pub push_through :
      Option (ReorderBuffer E) → Runtime E M → E → ℤ → Option (Runtime E M × List M)
  push_through none rt event ts = match_one rt event ts []
  push_through (some buf) rt event ts =
      let (buf₁, released) = Reorder.step buf ts event in
      let (buf₂, late_events) = Reorder.take_late buf₁ in
      match_all (note_late (record rt { reorder = some buf₂ }) late_events) released []

  unfoldable pub push_at : Runtime E M → E → ℤ → Option (Runtime E M × List M)
  unfolding push_through
  push_at rt event ts = push_through rt.reorder rt event ts

  unfoldable pub push : Runtime E M → E → Option (Runtime E M × List M)
  push rt event =
      push_at rt event (elim rt.compiled.timestamp_fn [ none ↦ pos 0 | some f ↦ f event ])

  -- One partial of the sweep at the end of the stream.
  unfoldable pub flush_one : Runtime E M → PartialMatch E → List M → Option (Runtime E M × List M)
  flush_one rt pm out = elim (get_elem? rt.compiled.steps pm.next_step) [
    | none ↦ none
    | some step ↦
        let is_last = leb (length rt.compiled.steps) (sat_add_u64 pm.next_step 1) in
        let satisfied_repeat =
          not step.is_negative
          && (is_last && is_some_and step.repeat (λ spec. leb spec.min pm.repeat_count)) in
        some (
          if step.is_negative || satisfied_repeat
          then (rt, emit rt.compiled pm out)
          else (record rt { in_flight = rt.in_flight ++ (pm ∷ []) }, out))
  ]

  unfoldable pub flush_from :
      Runtime E M → List (PartialMatch E) → List M → Option (Runtime E M × List M)
  flush_from rt [] out = some (rt, out)
  flush_from rt (pm ∷ pms) out = do (rt', out') ← flush_one rt pm out; flush_from rt' pms out'

  -- The events that `flush` and `tick` take out of the reorder buffer first.
  unfoldable pub drain_reorder :
      (ReorderBuffer E → ReorderBuffer E × List (ℤ × E))
      → Option (ReorderBuffer E)
      → Runtime E M
      → Option (Runtime E M × List M)
  drain_reorder take none rt = some (rt, [])
  drain_reorder take (some buf) rt =
      let (buf', released) = take buf in match_all (record rt { reorder = some buf' }) released []

  unfoldable pub flush : Runtime E M → Option (Runtime E M × List M)
  flush rt = do
    (rt', out) ← drain_reorder Reorder.flush rt.reorder rt
    flush_from (record rt' { in_flight = [] }) rt'.in_flight out

  unfoldable pub tick : Runtime E M → ℤ → Option (Runtime E M × List M)
  tick rt now = do
    (rt', out) ← drain_reorder (λ buf. Reorder.advance_watermark buf now) rt.reorder rt
    advance_deadlines rt' now out
