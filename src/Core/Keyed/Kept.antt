-- ===== src/Core/Keyed/Kept.antt =====
-- tflo-core/src/keyed.rs: what each method keeps of `last_ts`, the event time of one key, and of the
-- records that wait.
use tflo.Prelude.{
  ◌≡◌, refl, sym, subst, ◌&&◌, Option, none, some, List, [], ◌∷◌, map, ok, err, Bool-cases, inl,
  inr, arith,
}
use tflo.Prelude.Int.{ℤ, pos, leb_ℤ, ◌≤ℤ◌}
use tflo.Prelude.I64.{sat_add_u64}
use tflo.Prelude.Heap.{push_heap}
use tflo.Core.Reorder.{PendingEntry, raise}
use tflo.Core.Reorder
use tflo.Core.Reorder.Order.{NotBehind, IsSortedFrom, times, not_behind, push_heap-IsSortedFrom}
use tflo.Core.Timer.{TimerService, TimerEntry}
use tflo.Core.Timer
use tflo.Core.Keyed.{
  OutOfOrderPolicy, error, drop, buffer, PipelineItem, Graph, KeyedGraphState, Items, item, extend,
  and_then, is_late, run_one, drain_from, step_by, flush_from, flush_timers, flush, raise_all,
  max_lateness_ms,
}

-- The time has not gone back.
abbrev pub Forward : Option ℤ → Option ℤ → Type 0
Forward none later = Unit
Forward (some l) none = ⊥
Forward (some l) (some m) = l ≤ℤ m

pub Forward-refl : (o : Option ℤ) → Forward o o
Forward-refl none = tt
Forward-refl (some l) = omega arith

pub Forward-trans : (a b c : Option ℤ) → Forward a b → Forward b c → Forward a c
Forward-trans none b c p q = tt
Forward-trans (some l) none c p q = absurd p
Forward-trans (some l) (some m) none p q = absurd q
Forward-trans (some l) (some m) (some n) p q = omega arith

Forward-some : (o : Option ℤ) (x : ℤ) → NotBehind o x → Forward o (some x)
Forward-some none x h = tt
Forward-some (some l) x h = h

-- What waits: nothing, or under `Buffer` records in order from the time of the key on.
abbrev pub Waits : OutOfOrderPolicy → Option ℤ → List ℤ → Type 0
Waits error last ts = ts ≡ []
Waits drop last ts = ts ≡ []
Waits (buffer lateness) last ts = IsSortedFrom last ts

pub none_wait : (p : OutOfOrderPolicy) (last : Option ℤ) (ts : List ℤ) → ts ≡ [] → Waits p last ts
none_wait error last ts e = e
none_wait drop last ts e = e
none_wait (buffer lateness) last ts e = subst (IsSortedFrom last) (sym e) tt

sorted :
    (p : OutOfOrderPolicy) (last : Option ℤ) (ts : List ℤ) → Waits p last ts → IsSortedFrom last ts
sorted error last ts e = subst (IsSortedFrom last) (sym e) tt
sorted drop last ts e = subst (IsSortedFrom last) (sym e) tt
sorted (buffer lateness) last ts h = h

-- A timer that fires late does not move the time back.
raise-Forward : (o : Option ℤ) (x : ℤ) → Forward o (some (raise o x))
raise-Forward none x = tt
raise-Forward (some l) x = ground arith

raise_all-Forward {ℓ} :
    {O : Type ℓ} (o : Option ℤ) (fired : List (ℤ × O)) → Forward o (raise_all o fired)
raise_all-Forward o [] = Forward-refl o
raise_all-Forward o ((x, v) ∷ fired) =
    Forward-trans o _ _ (raise-Forward o x) (raise_all-Forward (some (raise o x)) fired)

module _ {ℓ} {G R : Type ℓ} where
  pub record Kept (p : OutOfOrderPolicy) (lo : Option ℤ) (s : KeyedGraphState G R) : Type ℓ where
    pub policy : s.policy ≡ p
    pub forward : Forward lo s.last_ts
    pub waits : Waits p s.last_ts (times s.pending)

  -- The same, with nothing that waits.
  record Empty (p : OutOfOrderPolicy) (lo : Option ℤ) (s : KeyedGraphState G R) : Type ℓ where
    policy : s.policy ≡ p
    forward : Forward lo s.last_ts
    empty : times s.pending ≡ []

module _ {ℓ} {K O : Type ℓ} where
  extend_state {κ} :
      {S : Type κ} (items : List (PipelineItem K O)) (y : Items K O × S) → (extend items y).1 ≡ y.1
  extend_state items (ok more, s) = refl
  extend_state items (err e, s) = refl

module _ {ℓ} {G R K O : Type ℓ} where
  after_state :
      (P : KeyedGraphState G R → Type ℓ) (res : Items K O) (s : KeyedGraphState G R)
      (rest : KeyedGraphState G R → Items K O × KeyedGraphState G R)
      → P s
      → P (rest s).1
      → P (and_then (res, s) rest).1
  after_state P (ok items) s rest h k = subst P (sym (extend_state items (rest s))) k
  after_state P (err e) s rest h k = h

module _ {ℓ} {G R K O : Type ℓ} (g : Graph G R K O) where
  drain_from-Kept :
      (w : ℤ) (key : K) (es : List (PendingEntry R)) (s : KeyedGraphState G R) (lateness : ℤ)
      (lo : Option ℤ)
      → s.policy ≡ buffer lateness
      → Forward lo s.last_ts
      → IsSortedFrom s.last_ts (times es)
      → Kept (buffer lateness) lo (drain_from g w key es s).1
  unfolding drain_from run_one
  drain_from-Kept w key [] s lateness lo same f h = record {
    policy = same;
    forward = f;
    waits = tt;
  }
  drain_from-Kept w key (e ∷ es) s lateness lo same f h = elim (Bool-cases (leb_ℤ e.ts w)) [
    | inr later ↦ rw later (record { policy = same; forward = f; waits = h })
    | inl now ↦
        let (res, s₁) =
          run_one g (record s { last_ts = some e.ts; pending = es }) e.event e.ts key in
        let f' = Forward-trans lo s.last_ts (some e.ts) f (Forward-some s.last_ts e.ts h.0) in
        rw now (
          after_state (Kept (buffer lateness) lo) res s₁ (drain_from g w key es)
            (record { policy = same; forward = f'; waits = h.1 })
            (drain_from-Kept w key es s₁ lateness lo same f' h.1))
  ]

  flush_from-Empty :
      (key : K) (es : List (PendingEntry R)) (s : KeyedGraphState G R) (p : OutOfOrderPolicy)
      (lo : Option ℤ)
      → Empty p lo s
      → IsSortedFrom s.last_ts (times es)
      → Empty p lo (flush_from g key es s).1
  unfolding flush_from run_one
  flush_from-Empty key [] s p lo k h = k
  flush_from-Empty key (e ∷ es) s p lo k h =
      let (res, s₁) = run_one g (record s { last_ts = some e.ts }) e.event e.ts key in
      let k₁ : Empty p lo s₁ = record {
        policy = k.policy;
        forward =
            Forward-trans lo s.last_ts (some e.ts) k.forward (Forward-some s.last_ts e.ts h.0);
        empty = k.empty;
      } in
      after_state (Empty p lo) res s₁ (flush_from g key es) k₁
        (flush_from-Empty key es s₁ p lo k₁ h.1)

  flush_timers-Empty :
      (key : K) (es : List TimerEntry) (s : KeyedGraphState G R) (p : OutOfOrderPolicy)
      (lo : Option ℤ)
      → Empty p lo s
      → Empty p lo (flush_timers g key es s).1
  unfolding flush_timers
  flush_timers-Empty key [] s p lo k = k
  flush_timers-Empty key (e ∷ es) s p lo k =
      let (fired, (graph, timers)) =
        g.fire_due_timers s.graph (Timer.register s.timer_service e.fire_ts e.node_id) e.fire_ts in
      let s₁ = record s {
        graph = graph;
        timer_service = timers;
        last_ts = raise_all s.last_ts fired;
      } in
      subst (Empty p lo) (sym (extend_state (map (item key) fired) (flush_timers g key es s₁))) (
        flush_timers-Empty key es s₁ p lo (record {
          policy = k.policy;
          forward = Forward-trans lo s.last_ts _ k.forward (raise_all-Forward s.last_ts fired);
          empty = k.empty;
        }))

  pub flush-Kept :
      (s : KeyedGraphState G R) (key : K) (p : OutOfOrderPolicy)
      → Kept p s.last_ts s
      → Kept p s.last_ts (flush g s key).1
  unfolding flush
  flush-Kept s key p k =
      let s₀ = record s { pending = [] } in
      let (res, s₁) = flush_from g key s.pending s₀ in
      let e₁ =
        flush_from-Empty key s.pending s₀ p s.last_ts
          (record { policy = k.policy; forward = Forward-refl s.last_ts; empty = refl })
          (sorted p s.last_ts (times s.pending) k.waits) in
      let e = after_state (Empty p s.last_ts) res s₁ _ e₁ (
        flush_timers-Empty key (Timer.drain_all s₁.timer_service).0
          (record s₁ { timer_service = (Timer.drain_all s₁.timer_service).1 }) p s.last_ts
          (record { policy = e₁.policy; forward = e₁.forward; empty = e₁.empty })) in
      record { policy = e.policy; forward = e.forward; waits = none_wait p _ _ e.empty }

  pub step-Kept :
      (s : KeyedGraphState G R) (rec : R) (ts : ℤ) (key : K) (p : OutOfOrderPolicy)
      → Kept p s.last_ts s
      → Kept p s.last_ts (step_by g p s rec ts key).1
  unfolding step_by run_one
  step-Kept s rec ts key error k = elim (Bool-cases (is_late s ts)) [
    | inl late ↦ rw (late, step_by) k
    | inr soon ↦
        rw (soon, step_by)
          (record {
            policy = k.policy;
            forward = Forward-some s.last_ts ts (not_behind s.last_ts ts soon);
            waits = k.waits;
          })
  ]
  step-Kept s rec ts key drop k = elim (Bool-cases (is_late s ts)) [
    | inl late ↦
        rw (late, step_by) (record { policy = k.policy; forward = k.forward; waits = k.waits })
    | inr soon ↦
        rw (soon, step_by)
          (record {
            policy = k.policy;
            forward = Forward-some s.last_ts ts (not_behind s.last_ts ts soon);
            waits = k.waits;
          })
  ]
  step-Kept s rec ts key (buffer lateness) k =
      elim (Bool-cases (leb_ℤ (pos 0) lateness && leb_ℤ lateness max_lateness_ms)) [
        | inr wide ↦ rw (wide, step_by) k
        | inl fine ↦
            rw (fine, step_by)
              (elim (Bool-cases (is_late s ts)) [
                | inl late ↦
                    rw (late, step_by)
                      (record { policy = k.policy; forward = k.forward; waits = k.waits })
                | inr soon ↦
                    let entry : PendingEntry R = record {
                      ts = ts;
                      seq = s.pending_seq;
                      event = rec;
                    } in
                    let es = push_heap Reorder.cmp entry s.pending in
                    rw (soon, step_by)
                      (drain_from-Kept _ key es
                        (record s {
                          pending = es;
                          pending_seq = sat_add_u64 s.pending_seq 1;
                          max_ts_seen = some (raise s.max_ts_seen ts);
                        })
                        lateness s.last_ts k.policy k.forward
                        (push_heap-IsSortedFrom s.last_ts entry s.pending
                          (not_behind s.last_ts ts soon) k.waits))
              ])
      ]
