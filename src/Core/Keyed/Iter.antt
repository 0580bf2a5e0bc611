-- ===== src/Core/Keyed/Iter.antt =====
-- tflo-core/src/keyed.rs: `TFloKeyedIter`, which routes the records of one stream to the states of their
-- keys. The callbacks and the equality of keys are parameters, and so is the state that the closure of
-- `or_insert_with` builds for a new key. The hash map is a list with one entry for each key; the order in
-- which it is walked is a function of its keys. The iterator is the list of the records it has left.
pub mod Visits
pub mod Interleaved
pub mod Yielded
mod Tests
use tflo.Prelude.{
  ℕ, zero, suc, String, Bool, true, false, Option, none, some, List, [], ◌∷◌, ◌++◌, map,
  if◌then◌else◌, Result, ok, err,
}
use tflo.Prelude.Int.{ℤ}
use tflo.Core.Keyed.{ComputeError, PipelineItem, Graph, KeyedGraphState, Items, step, flush}
use tflo.Core.Keyed

pub data TFloError : Type 0 where
  missing_timestamp division_by_zero cycle_detected nan infinite : TFloError
  out_of_order_timestamp : ℤ → ℤ → TFloError
  timestamp_gap_exceeded : ℤ → ℤ → ℤ → TFloError
  invalid_window configuration negative_value : String → TFloError
  node_not_found : ℕ → TFloError
  insufficient_data : ℕ → ℕ → TFloError
  compute : ComputeError → TFloError

-- What the iterator yields.
abbrev pub Yield {ℓ} : Type ℓ → Type ℓ → Type ℓ
Yield K O = Result (PipelineItem K O) TFloError

pub record TFloKeyedIter {ℓ} (G R K O : Type ℓ) : Type ℓ where
  pub iter : List R
  pub graphs : List (K × KeyedGraphState G R)
  pub ready_queue : List (Yield K O)
  pub flushed : Bool

-- What a call on the state of a key adds to the queue.
abbrev pub emitted {ℓ} : {K O : Type ℓ} → Items K O → List (Yield K O)
emitted (ok items) = map (λ i. ok i) items
emitted (err e) = err (compute e) ∷ []

module _ {ℓ} {K S : Type ℓ} (same_key : K → K → Bool) where
  -- `get_mut` of the hash map.
  abbrev pub find : K → List (K × S) → Option (S)
  find key [] = none
  find key ((k, s) ∷ graphs) = let rest = find key graphs in if same_key key k then some s else rest

  -- The state of a key is replaced, or entered where there is none.
  abbrev pub put : K → S → List (K × S) → List (K × S)
  put key s [] = (key, s) ∷ []
  put key s ((k, s') ∷ graphs) =
      let rest = put key s graphs in if same_key key k then (k, s) ∷ graphs else (k, s') ∷ rest

  -- `entry(key).or_insert_with(…)`
  abbrev pub entry : S → K → List (K × S) → S
  entry fresh key graphs = elim (find key graphs) [ none ↦ fresh | some s ↦ s ]

-- `HashMap::keys`
abbrev pub keys {ℓ} : {K S : Type ℓ} → List (K × S) → List K
keys graphs = map (λ x. x.0) graphs

module _ {ℓ} {G R K O : Type ℓ} (g : Graph G R K O) (same_key : K → K → Bool) where
  abbrev pub queued :
      K → Items K O × KeyedGraphState G R → TFloKeyedIter G R K O → TFloKeyedIter G R K O
  queued key (items, s) it = record it {
    graphs = put same_key key s it.graphs;
    ready_queue = it.ready_queue ++ emitted items;
  }

  -- The loop of `take_late_records`, over the keys left.
  abbrev pub late_from : List K → TFloKeyedIter G R K O → List (K × (ℤ × R)) × TFloKeyedIter G R K O
  late_from [] it = ([], it)
  late_from (key ∷ ks) it = elim (find same_key key it.graphs) [
    | none ↦ late_from ks it
    | some state ↦
        let (s, late) = Keyed.take_late_records state in
        let (out, it') = late_from ks (record it { graphs = put same_key key s it.graphs }) in
        (map (λ x. (key, x)) late ++ out, it')
  ]

  -- The `?` in the loop of `advance_event_time_watermark`, and the rest of the loop.
  abbrev pub advanced :
      K
      → Items K O × KeyedGraphState G R
      → TFloKeyedIter G R K O
      → (TFloKeyedIter G R K O → Result (Unit {0}) ComputeError × TFloKeyedIter G R K O)
      → Result (Unit {0}) ComputeError × TFloKeyedIter G R K O
  advanced key (ok items, s) it rest = rest (queued key (ok items, s) it)
  advanced key (err e, s) it rest = (err e, record it { graphs = put same_key key s it.graphs })

  -- The loop, over the keys left.
  abbrev pub advance_from :
      ℤ → List K → TFloKeyedIter G R K O → Result (Unit {0}) ComputeError × TFloKeyedIter G R K O
  advance_from ts [] it = (ok tt, it)
  advance_from ts (key ∷ ks) it = elim (find same_key key it.graphs) [
    | none ↦ advance_from ts ks it
    | some state ↦
        advanced key (Keyed.advance_event_time_watermark g state ts key) it
          (λ it'. advance_from ts ks it')
  ]

  abbrev pub flush_key : K → TFloKeyedIter G R K O → TFloKeyedIter G R K O
  flush_key key it = elim (find same_key key it.graphs) [
    | none ↦ it
    | some state ↦ queued key (flush g state key) it
  ]

  -- The loop that flushes each key, over the keys left.
  abbrev pub flush_from : List K → TFloKeyedIter G R K O → TFloKeyedIter G R K O
  flush_from [] it = it
  flush_from (key ∷ ks) it = flush_from ks (flush_key key it)

  module _ (order : List K → List K) where
    unfoldable pub take_late_records :
        TFloKeyedIter G R K O → List (K × (ℤ × R)) × TFloKeyedIter G R K O
    take_late_records it = late_from (order (keys it.graphs)) it

    unfoldable pub advance_event_time_watermark :
        TFloKeyedIter G R K O → ℤ → Result (Unit {0}) ComputeError × TFloKeyedIter G R K O
    advance_event_time_watermark it ts = advance_from ts (order (keys it.graphs)) it

    module _ (timestamp_fn : R → ℤ) (key_fn : R → K) (fresh : KeyedGraphState G R) where
      abbrev pub make : List R → TFloKeyedIter G R K O
      make iter = record { iter = iter; graphs = []; ready_queue = []; flushed = false }

      -- What the loop of `next` does with a record.
      unfoldable pub routed : R → TFloKeyedIter G R K O → TFloKeyedIter G R K O
      unfolding step
      routed rec it =
          let key = key_fn rec in
          queued key (step g (entry same_key fresh key it.graphs) rec (timestamp_fn rec) key) it

      -- `pop_front`, and the rest of the loop where the queue is empty.
      abbrev pub pop_or :
          Option (Yield K O) × TFloKeyedIter G R K O
          → TFloKeyedIter G R K O
          → Option (Yield K O) × TFloKeyedIter G R K O
      pop_or rest it = elim it.ready_queue [
        | [] ↦ rest
        | y ∷ queue ↦ (some y, record it { ready_queue = queue })
      ]

      -- The turn of the loop at the end of the input, and the one after it.
      unfoldable pub at_end : TFloKeyedIter G R K O → Option (Yield K O) × TFloKeyedIter G R K O
      at_end it =
          if it.flushed
          then (none, it)
          else let it' = flush_from (order (keys it.graphs)) (record it { flushed = true }) in
            pop_or (none, it') it'

      -- The turns of the loop, over the records left.
      unfoldable pub next_from :
          List R → TFloKeyedIter G R K O → Option (Yield K O) × TFloKeyedIter G R K O
      unfolding routed at_end
      next_from [] it = pop_or (at_end it) it
      next_from (rec ∷ iter) it =
          pop_or (next_from iter (routed rec (record it { iter = iter }))) it

      unfoldable pub next : TFloKeyedIter G R K O → Option (Yield K O) × TFloKeyedIter G R K O
      unfolding next_from
      next it = next_from it.iter it

      abbrev pub take_item :
          (TFloKeyedIter G R K O → Option (List (Yield K O)))
          → Option (Yield K O) × TFloKeyedIter G R K O
          → Option (List (Yield K O))
      take_item rest (none, it) = some []
      take_item rest (some y, it) = elim (rest it) [ none ↦ none | some ys ↦ some (y ∷ ys) ]

      -- What `next` yields until it ends; `none` if the fuel ends first.
      unfoldable pub collect : ℕ → TFloKeyedIter G R K O → Option (List (Yield K O))
      unfolding next
      collect zero it = none
      collect (suc fuel) it = take_item (λ it'. collect fuel it') (next it)
