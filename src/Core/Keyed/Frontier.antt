-- ===== src/Core/Keyed/Frontier.antt =====
-- tflo-core/src/keyed.rs: `last_ts`, the event time of one key, over sequences of calls.
use tflo.Prelude.{
  refl, sym, subst, Option, none, some, List, [], ◌∷◌, Bool-cases, Option-cases, inl, inr, All,
}
use tflo.Prelude.Int.{ℤ, ltb_ℤ}
use tflo.Core.Reorder.Order.{times, not_behind}
use tflo.Core.Keyed.Kept.{Forward, Forward-refl, Waits, none_wait, Kept, step-Kept, flush-Kept}
use tflo.Core.Keyed.{
  OutOfOrderPolicy, error, drop, buffer, Graph, KeyedGraphState, step_by, step, flush,
  watermark_moved, advance_event_time_watermark, take_late_records, new,
}

-- The calls on the state of a key; `clock` moves the watermark.
pub data Call {ℓ} (R : Type ℓ) : Type ℓ where
  record_at : R → ℤ → Call R
  clock : ℤ → Call R
  finish : Call R
  collect : Call R

-- Under `Buffer` no call moves the watermark.
abbrev pub IsFree {ℓ} : {R : Type ℓ} → OutOfOrderPolicy → Call R → Type 0
IsFree p (record_at rec ts) = Unit
IsFree error (clock ts) = Unit
IsFree drop (clock ts) = Unit
IsFree (buffer lateness) (clock ts) = ⊥
IsFree p finish = Unit
IsFree p collect = Unit

module _ {ℓ} {G R K O : Type ℓ} (g : Graph G R K O) (key : K) where
  unfoldable pub call : KeyedGraphState G R → Call R → KeyedGraphState G R
  unfolding step advance_event_time_watermark flush
  call s (record_at rec ts) = (step g s rec ts key).1
  call s (clock ts) = (advance_event_time_watermark g s ts key).1
  call s finish = (flush g s key).1
  call s collect = (take_late_records s).0

  -- `last_ts` before the calls and after each.
  abbrev pub times_of : KeyedGraphState G R → List (Call R) → List (Option ℤ)
  times_of s [] = s.last_ts ∷ []
  times_of s (c ∷ cs) = s.last_ts ∷ times_of (call s c) cs

-- Each is not before the one before it.
abbrev pub Forwards : List (Option ℤ) → Type 0
Forwards [] = Unit
Forwards (a ∷ []) = Unit
Forwards (a ∷ b ∷ rest) = Forward a b × Forwards (b ∷ rest)

module _ {ℓ} {G R K O : Type ℓ} (g : Graph G R K O) (key : K) where
  watermark-Kept :
      (s : KeyedGraphState G R) (ts : ℤ) (p : OutOfOrderPolicy)
      → Kept p s.last_ts s
      → ((o : Option ℤ) → Waits p o (times s.pending))
      → Kept p s.last_ts (advance_event_time_watermark g s ts key).1
  unfolding advance_event_time_watermark watermark_moved
  watermark-Kept s ts p k w = elim (Option-cases s.last_ts) [
    | inl e ↦
        rw (e, advance_event_time_watermark)
          (record { policy = k.policy; forward = tt; waits = w (some ts) })
    | inr (last, e) ↦
        rw (e, advance_event_time_watermark)
          (elim (Bool-cases (ltb_ℤ ts last)) [
            | inl back ↦ rw back (record {
              policy = k.policy;
              forward = subst (λ o. Forward o s.last_ts) e (Forward-refl s.last_ts);
              waits = w s.last_ts;
            })
            | inr on ↦ rw on (record {
              policy = k.policy;
              forward = not_behind (some last) ts on;
              waits = w (some ts);
            })
          ])
  ]

  clock-Kept :
      (s : KeyedGraphState G R) (ts : ℤ) (p : OutOfOrderPolicy)
      → IsFree {R = R} p (clock ts)
      → Kept p s.last_ts s
      → Kept p s.last_ts (advance_event_time_watermark g s ts key).1
  clock-Kept s ts (buffer lateness) free k = absurd free
  clock-Kept s ts error free k = watermark-Kept s ts error k (λ o. k.waits)
  clock-Kept s ts drop free k = watermark-Kept s ts drop k (λ o. k.waits)

  call-Kept :
      (s : KeyedGraphState G R) (c : Call R) (p : OutOfOrderPolicy)
      → IsFree p c
      → Kept p s.last_ts s
      → Kept p s.last_ts (call g key s c)
  unfolding step call
  call-Kept s (record_at rec ts) p free k =
      subst (λ q. Kept p s.last_ts (step_by g q s rec ts key).1) (sym k.policy)
        (step-Kept g s rec ts key p k)
  call-Kept s (clock ts) p free k = clock-Kept s ts p free k
  call-Kept s finish p free k = flush-Kept g s key p k
  call-Kept s collect p free k = record { policy = k.policy; forward = k.forward; waits = k.waits }

  Forwards-cons :
      (o : Option ℤ) (s : KeyedGraphState G R) (cs : List (Call R))
      → Forward o s.last_ts
      → Forwards (times_of g key s cs)
      → Forwards (o ∷ times_of g key s cs)
  Forwards-cons o s [] f h = (f, h)
  Forwards-cons o s (c ∷ cs) f h = (f, h)

  times_of-Forwards :
      (s : KeyedGraphState G R) (cs : List (Call R)) (p : OutOfOrderPolicy)
      → All (IsFree p) cs
      → Kept p s.last_ts s
      → Forwards (times_of g key s cs)
  times_of-Forwards s [] p free k = tt
  times_of-Forwards s (c ∷ cs) p free k =
      let s' = call g key s c in
      let k' = call-Kept s c p free.0 k in
      Forwards-cons s.last_ts s' cs k'.forward (
        times_of-Forwards s' cs p free.1
          (record { policy = k'.policy; forward = Forward-refl s'.last_ts; waits = k'.waits }))

  -- The event time of a key never goes back, whatever the graph answers, over any sequence of calls on
  -- a new state: steps, flushes, collections of the late records and, unless the policy is `Buffer`,
  -- advances of the watermark.
  pub last_ts_never_back :
      (graph : G) (p : OutOfOrderPolicy) (cs : List (Call R))
      → All (IsFree p) cs
      → Forwards (times_of g key (new graph p) cs)
  last_ts_never_back graph p cs free =
      times_of-Forwards (new graph p) cs p free
        (record { policy = refl; forward = tt; waits = none_wait p none [] refl })
