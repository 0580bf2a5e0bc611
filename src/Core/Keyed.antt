-- ===== src/Core/Keyed.antt =====
-- tflo-core/src/keyed.rs: the state of one key, which puts the records in order by a policy, fires the
-- timers that are due and steps the compute graph. The graph is an interface: the two methods of
-- `CompiledGraph` that the executor calls, on a state `G`. The heap of the pending records is the list
-- of its entries in the order of `pop`; its entry is that of Core/Reorder.
pub mod Buffer
pub mod Kept
pub mod Frontier
pub mod Iter
mod Tests
use tflo.Prelude.{
  ℕ, String, Bool, not, ◌&&◌, Option, none, some, List, [], ◌∷◌, ◌++◌, map, if◌then◌else◌,
  is_some_and, Result, ok, err,
}
use tflo.Prelude.Int.{ℤ, pos, ltb_ℤ, leb_ℤ}
use tflo.Prelude.I64.{sat_sub, sat_add_u64}
use tflo.Prelude.Heap.{push_heap}
use tflo.Core.Reorder
use tflo.Core.Reorder.{PendingEntry, raise}
use tflo.Core.Timer.{TimerService, TimerEntry}
use tflo.Core.Timer

-- 24 hours.
abbrev pub max_lateness_ms : ℤ
max_lateness_ms = pos 86400000

pub data ComputeError : Type 0 where
  division_by_zero nan infinite : ComputeError
  invalid_input : String → ComputeError
  decode : String → String → ComputeError
  non_monotonic_watermark : ℤ → ℤ → ComputeError
  incompatible_snapshot_version : ℕ → ℕ → String → ComputeError

pub data OutOfOrderPolicy : Type 0 where
  error drop : OutOfOrderPolicy
  buffer : ℤ → OutOfOrderPolicy

-- `KeyedTimestamped`
pub record Context {ℓ} (K : Type ℓ) : Type ℓ where
  pub ts : ℤ
  pub key : K

pub record PipelineItem {ℓ} (K O : Type ℓ) : Type ℓ where
  pub ctx : Context K
  pub value : O

pub data StepResult {ℓ} (K O : Type ℓ) : Type ℓ where
  ready : PipelineItem K O → StepResult K O
  warming_up : ℕ → StepResult K O
  failed : ComputeError → StepResult K O

pub record Graph {ℓ} (G R K O : Type ℓ) : Type ℓ where
  pub fire_due_timers : G → TimerService → ℤ → List (ℤ × O) × (G × TimerService)
  pub step_with_context_and_timers :
      G → R → ℤ → Context K → TimerService → StepResult K O × (G × TimerService)

pub record KeyedGraphState {ℓ} (G R : Type ℓ) : Type ℓ where
  pub graph : G
  pub last_ts : Option ℤ
  pub policy : OutOfOrderPolicy
  pub pending : List (PendingEntry R)
  pub pending_seq : ℕ
  pub max_ts_seen : Option ℤ
  pub timer_service : TimerService
  pub late_records : List (ℤ × R)

-- What a method returns beside the state.
abbrev pub Items {ℓ} : Type ℓ → Type ℓ → Type ℓ
Items K O = Result (List (PipelineItem K O)) ComputeError

module _ {ℓ} {K O : Type ℓ} where
  abbrev pub item : K → ℤ × O → PipelineItem K O
  item key (ts, value) = record { ctx = record { ts = ts; key = key }; value = value }

  -- The match on the graph's result in `run_one`, after the items of the timers.
  abbrev pub outcome : List (PipelineItem K O) → StepResult K O → Items K O
  outcome out (ready i) = ok (out ++ (i ∷ []))
  outcome out (warming_up remaining) = ok out
  outcome out (failed e) = err e

  abbrev pub extend {κ} : {S : Type κ} → List (PipelineItem K O) → Items K O × S → Items K O × S
  extend released (ok more, s) = (ok (released ++ more), s)
  extend released (err e, s) = (err e, s)

  -- `released.extend(…?)`, and the rest of the loop.
  abbrev pub and_then {κ} : {S : Type κ} → Items K O × S → (S → Items K O × S) → Items K O × S
  and_then (ok released, s) rest = extend released (rest s)
  and_then (err e, s) rest = (err e, s)

-- The items of fired timers move `last_ts` forward.
abbrev pub raise_all {ℓ} : {O : Type ℓ} → Option ℤ → List (ℤ × O) → Option ℤ
raise_all last [] = last
raise_all last ((fire_ts, value) ∷ fired) = raise_all (some (raise last fire_ts)) fired

module _ {ℓ} {G R : Type ℓ} where
  abbrev pub new : G → OutOfOrderPolicy → KeyedGraphState G R
  new graph policy = record {
    graph = graph;
    last_ts = none;
    policy = policy;
    pending = [];
    pending_seq = 0;
    max_ts_seen = none;
    timer_service = Timer.default;
    late_records = [];
  }

  abbrev pub take_late_records : KeyedGraphState G R → KeyedGraphState G R × List (ℤ × R)
  take_late_records s = (record s { late_records = [] }, s.late_records)

  -- `self.last_ts.is_some_and(|last| ts < last)`
  abbrev pub is_late : KeyedGraphState G R → ℤ → Bool
  is_late s ts = is_some_and s.last_ts (λ last. ltb_ℤ ts last)

module _ {ℓ} {G R K O : Type ℓ} (g : Graph G R K O) where
  unfoldable pub run_one : KeyedGraphState G R → R → ℤ → K → Items K O × KeyedGraphState G R
  run_one s rec ts key =
      let (due, (graph, timers)) = g.fire_due_timers s.graph s.timer_service ts in
      let (r, (graph', timers')) =
        g.step_with_context_and_timers graph rec ts (record { ts = ts; key = key }) timers in
      (outcome (map (item key) due) r, record s { graph = graph'; timer_service = timers' })

  -- The loop of `drain_until` over the heap.
  unfoldable pub drain_from :
      ℤ → K → List (PendingEntry R) → KeyedGraphState G R → Items K O × KeyedGraphState G R
  drain_from watermark key [] s = (ok [], record s { pending = [] })
  drain_from watermark key (e ∷ es) s =
      if leb_ℤ e.ts watermark
      then and_then (run_one (record s { last_ts = some e.ts; pending = es }) e.event e.ts key)
          (λ s'. drain_from watermark key es s')
      else (ok [], record s { pending = e ∷ es })

  abbrev pub drain_until : KeyedGraphState G R → ℤ → K → Items K O × KeyedGraphState G R
  unfolding drain_from
  drain_until s watermark key = drain_from watermark key s.pending s

  -- The three arms of the match on the policy in `step`.
  unfoldable pub step_by :
      OutOfOrderPolicy → KeyedGraphState G R → R → ℤ → K → Items K O × KeyedGraphState G R
  step_by error s rec ts key =
      if is_late s ts
      then (err (invalid_input "out-of-order timestamp"), s)
      else run_one (record s { last_ts = some ts }) rec ts key
  step_by drop s rec ts key =
      if is_late s ts
      then (ok [], record s { late_records = s.late_records ++ ((ts, rec) ∷ []) })
      else run_one (record s { last_ts = some ts }) rec ts key
  step_by (buffer lateness) s rec ts key =
      if not (leb_ℤ (pos 0) lateness && leb_ℤ lateness max_lateness_ms)
      then (
        err (
            invalid_input
              "max_lateness_ms must be in [0, 24h]; use OutOfOrderPolicy::Drop for looser semantics"),
        s,
      )
      else if is_late s ts
      then (ok [], record s { late_records = s.late_records ++ ((ts, rec) ∷ []) })
      else let s' = record s {
        pending =
            push_heap Reorder.cmp (record { ts = ts; seq = s.pending_seq; event = rec }) s.pending;
        pending_seq = sat_add_u64 s.pending_seq 1;
        max_ts_seen = some (raise s.max_ts_seen ts);
      } in
        drain_from (sat_sub (raise s.max_ts_seen ts) lateness) key s'.pending s'

  unfoldable pub step : KeyedGraphState G R → R → ℤ → K → Items K O × KeyedGraphState G R
  unfolding step_by
  step s rec ts key = step_by s.policy s rec ts key

  -- The first loop of `flush`.
  unfoldable pub flush_from :
      K → List (PendingEntry R) → KeyedGraphState G R → Items K O × KeyedGraphState G R
  flush_from key [] s = (ok [], s)
  flush_from key (e ∷ es) s =
      and_then (run_one (record s { last_ts = some e.ts }) e.event e.ts key)
        (λ s'. flush_from key es s')

  -- The second loop of `flush`, over the timers that `drain_all` has returned.
  unfoldable pub flush_timers :
      K → List TimerEntry → KeyedGraphState G R → Items K O × KeyedGraphState G R
  flush_timers key [] s = (ok [], s)
  flush_timers key (e ∷ es) s =
      let (fired, (graph, timers)) =
        g.fire_due_timers s.graph (Timer.register s.timer_service e.fire_ts e.node_id) e.fire_ts in
      extend (map (item key) fired) (
        flush_timers key es
          (record s { graph = graph; timer_service = timers; last_ts = raise_all s.last_ts fired }))

  unfoldable pub flush : KeyedGraphState G R → K → Items K O × KeyedGraphState G R
  unfolding flush_from flush_timers
  flush s key = and_then (flush_from key s.pending (record s { pending = [] })) (λ s'.
      let (remaining, timers) = Timer.drain_all s'.timer_service in
      flush_timers key remaining (record s' { timer_service = timers }))

  -- The body of `advance_event_time_watermark` after the guard.
  unfoldable pub watermark_moved : KeyedGraphState G R → ℤ → K → Items K O × KeyedGraphState G R
  watermark_moved s ts key =
      let (due, (graph, timers)) = g.fire_due_timers s.graph s.timer_service ts in
      (
        ok (map (item key) due),
        record s {
          last_ts = some ts;
          max_ts_seen = some (raise s.max_ts_seen ts);
          graph = graph;
          timer_service = timers;
        },
      )

  unfoldable pub advance_event_time_watermark :
      KeyedGraphState G R → ℤ → K → Items K O × KeyedGraphState G R
  unfolding watermark_moved
  advance_event_time_watermark s ts key = elim s.last_ts [
    | none ↦ watermark_moved s ts key
    | some last ↦
        if ltb_ℤ ts last
        then (err (non_monotonic_watermark last ts), s)
        else watermark_moved s ts key
  ]
