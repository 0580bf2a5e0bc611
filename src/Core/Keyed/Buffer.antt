-- ===== src/Core/Keyed/Buffer.antt =====
-- tflo-core/src/keyed.rs: under the policy `Buffer` the state of a key is the reorder buffer of
-- tflo-core/src/reorder.rs in front of the graph.
use tflo.Prelude.{◌≡◌, refl, sym, subst, true, some, List, [], ◌∷◌, ok, err, Bool-cases, inl, inr}
use tflo.Prelude.Int.{ℤ, pos, leb_ℤ}
use tflo.Prelude.I64.{sat_sub, sat_add_u64}
use tflo.Prelude.Heap.{push_heap}
use tflo.Core.Reorder.{PendingEntry, ReorderBuffer}
use tflo.Core.Reorder
use tflo.Core.Keyed.{
  buffer, PipelineItem, Graph, KeyedGraphState, Items, extend, and_then, is_late, run_one,
  drain_from, step_by, step, max_lateness_ms,
}

module _ {ℓ} {G R : Type ℓ} where
  -- The reorder buffer of the state.
  abbrev pub buffer_of : ℤ → KeyedGraphState G R → ReorderBuffer R
  buffer_of lateness s = record {
    pending = s.pending;
    pending_seq = s.pending_seq;
    last_ts = s.last_ts;
    max_ts_seen = s.max_ts_seen;
    max_lateness_ms = lateness;
    late = s.late_records;
  }

  -- The state with the counters and the late records of a buffer.
  abbrev pub counted : ReorderBuffer R → KeyedGraphState G R → KeyedGraphState G R
  counted b s = record s {
    pending = [];
    pending_seq = b.pending_seq;
    max_ts_seen = b.max_ts_seen;
    late_records = b.late;
  }

module _ {ℓ} {G R K O : Type ℓ} where
  -- What a call answers and leaves, by what the graph makes of the released records: the same items
  -- and the buffer `b`, or the same error, after the same record.
  abbrev pub Runs :
      ReorderBuffer R
      → ℤ
      → Items K O × KeyedGraphState G R
      → Items K O × KeyedGraphState G R
      → Type ℓ
  Runs b lateness (ok items, s) (res, s') =
      (res ≡ ok items)
      × ((buffer_of lateness s' ≡ b)
          × ((s'.graph ≡ s.graph) × (s'.timer_service ≡ s.timer_service)))
  Runs b lateness (err e, s) (res, s') =
      (res ≡ err e)
      × ((s'.last_ts ≡ s.last_ts) × ((s'.graph ≡ s.graph) × (s'.timer_service ≡ s.timer_service)))

module _ {ℓ} {G R K O : Type ℓ} (g : Graph G R K O) where
  -- The graph runs the released records, one after the other, until one fails.
  unfoldable pub run_all : K → List (ℤ × R) → KeyedGraphState G R → Items K O × KeyedGraphState G R
  run_all key [] s = (ok [], s)
  run_all key ((ts, rec) ∷ released) s =
      and_then (run_one g (record s { last_ts = some ts }) rec ts key)
        (λ s'. run_all key released s')

  extend-Runs :
      (b : ReorderBuffer R) (lateness : ℤ) (items : List (PipelineItem K O))
      (x y : Items K O × KeyedGraphState G R)
      → Runs b lateness x y
      → Runs b lateness (extend items x) (extend items y)
  extend-Runs b lateness items (ok more, s) (ok more', s') (same, rest) = (cc, rest)
  extend-Runs b lateness items (ok more, s) (err e', s') (same, rest) = absurd (cc)
  extend-Runs b lateness items (err e, s) (ok more', s') (same, rest) = absurd (cc)
  extend-Runs b lateness items (err e, s) (err e', s') h = h

  after-Runs :
      (b : ReorderBuffer R) (lateness : ℤ) (res : Items K O) (s : KeyedGraphState G R)
      (es : List (PendingEntry R)) (f h : KeyedGraphState G R → Items K O × KeyedGraphState G R)
      → Runs b lateness (f s) (h (record s { pending = es }))
      → Runs b lateness (and_then (res, s) f) (and_then (res, record s { pending = es }) h)
  after-Runs b lateness (ok items) s es f h r = extend-Runs b lateness items (f s) _ r
  after-Runs b lateness (err e) s es f h r = (refl, (refl, (refl, refl)))

  drain_from-Runs :
      (lateness watermark : ℤ) (key : K) (es : List (PendingEntry R)) (s : KeyedGraphState G R)
      → let (left, last, released) = Reorder.drain_from watermark es s.last_ts in
        Runs
          (record (buffer_of lateness s) { pending = left; last_ts = last })
          lateness
          (run_all key released (record s { pending = [] }))
          (drain_from g watermark key es s)
  unfolding drain_from run_all run_one Reorder.drain_from
  drain_from-Runs lateness watermark key [] s = (refl, (refl, (refl, refl)))
  drain_from-Runs lateness watermark key (e ∷ es) s = elim (Bool-cases (leb_ℤ e.ts watermark)) [
    | inr later ↦ rw later (refl, (refl, (refl, refl)))
    | inl now ↦
        let s₀ = record s { last_ts = some e.ts; pending = [] } in
        let (left, last, released) = Reorder.drain_from watermark es (some e.ts) in
        let (res, s₁) = run_one g s₀ e.event e.ts key in
        rw now (
          after-Runs _ lateness res s₁ es (run_all key released) (drain_from g watermark key es)
            (drain_from-Runs lateness watermark key es (record s₁ { pending = es })))
  ]

  step_by-Runs :
      (s : KeyedGraphState G R) (rec : R) (ts lateness : ℤ) (key : K)
      → leb_ℤ (pos 0) lateness ≡ true
      → leb_ℤ lateness max_lateness_ms ≡ true
      → let (b, released) = Reorder.step (buffer_of lateness s) ts rec in
        Runs b lateness
          (run_all key released (counted b s))
          (step_by g (buffer lateness) s rec ts key)
  unfolding step_by Reorder.step Reorder.drain_until Reorder.enqueue run_all
  step_by-Runs s rec ts lateness key lo hi =
      rw (lo, hi, step_by)
        (elim (Bool-cases (is_late s ts)) [
          | inl late ↦ rw (late, Reorder.step) (refl, (refl, (refl, refl)))
          | inr soon ↦
              let entry : PendingEntry R = record { ts = ts; seq = s.pending_seq; event = rec } in
              let es = push_heap Reorder.cmp entry s.pending in
              rw (soon, Reorder.step)
                (drain_from-Runs lateness (sat_sub (Reorder.raise s.max_ts_seen ts) lateness) key es
                  (record s {
                    pending = es;
                    pending_seq = sat_add_u64 s.pending_seq 1;
                    max_ts_seen = some (Reorder.raise s.max_ts_seen ts);
                  }))
        ])

  -- A step under `Buffer`, with a lateness in [0, 24 h], is a step of the reorder buffer followed by
  -- the graph's run of the records that it releases. While none fails, the step answers the items of
  -- all of them and leaves that buffer; else it answers the error of the first that fails, and leaves
  -- the graph, the timers and `last_ts` as they are after that record.
  pub buffer_step_lem :
      (s : KeyedGraphState G R) (rec : R) (ts lateness : ℤ) (key : K)
      → s.policy ≡ buffer lateness
      → leb_ℤ (pos 0) lateness ≡ true
      → leb_ℤ lateness max_lateness_ms ≡ true
      → let (b, released) = Reorder.step (buffer_of lateness s) ts rec in
        Runs b lateness (run_all key released (counted b s)) (step g s rec ts key)
  unfolding step
  buffer_step_lem s rec ts lateness key policy lo hi =
      let (b, released) = Reorder.step (buffer_of lateness s) ts rec in
      subst (λ p. Runs b lateness (run_all key released (counted b s)) (step_by g p s rec ts key))
        (sym policy) (step_by-Runs s rec ts lateness key lo hi)
