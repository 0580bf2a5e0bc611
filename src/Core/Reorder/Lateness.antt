-- ===== src/Core/Reorder/Lateness.antt =====
-- tflo-core/src/reorder.rs: an event within the allowed lateness is never dropped.
use tflo.Prelude.{
  ◌≡◌, refl, false, Option, none, some, List, [], ◌∷◌, arith, Bool-cases, All, inl, inr,
  is_some_and,
}
use tflo.Prelude.Int.{ℤ, ◌≤ℤ◌, ltb_ℤ, max_ℤ_bounds, max_ℤ}
use tflo.Prelude.I64.{sat_sub, sat_sub_mono}
use tflo.Core.Reorder.Calls.{Call, push, tick, end, collect, call, run}
use tflo.Core.Reorder.{
  PendingEntry, ReorderBuffer, drain_from, drain_until, enqueue, step, advance_watermark, take_late,
  new, raise,
}

abbrev AtMost : Option ℤ → ℤ → Type 0
AtMost none x = Unit
AtMost (some l) x = l ≤ℤ x

-- The frontier lies at least the lateness behind the greatest time seen.
abbrev Lags : Option ℤ → Option ℤ → ℤ → Type 0
Lags none m lateness = Unit
Lags (some l) none lateness = ⊥
Lags (some l) (some m) lateness = l ≤ℤ sat_sub m lateness

-- A time stamp at most the lateness behind the greatest time seen.
abbrev pub OnTime : Option ℤ → ℤ → ℤ → Type 0
OnTime none lateness ts = Unit
OnTime (some m) lateness ts = sat_sub m lateness ≤ℤ ts

-- The calls of a stream that has not ended.
abbrev pub IsLive {ℓ} : {E : Type ℓ} → Call E → Type 0
IsLive (push ts e) = Unit
IsLive (tick now) = Unit
IsLive end = ⊥
IsLive collect = Unit

AtMost-Lags :
    (last seen : Option ℤ) (lateness ts : ℤ)
    → Lags last seen lateness
    → AtMost last (sat_sub (raise seen ts) lateness)
AtMost-Lags none seen lateness ts h = tt
AtMost-Lags (some l) none lateness ts h = absurd h
AtMost-Lags (some l) (some m) lateness ts h =
    omega (arith, sat_sub_mono m (max_ℤ m ts) lateness (max_ℤ_bounds m ts).0)

le_raise : (seen : Option ℤ) (ts : ℤ) → ts ≤ℤ raise seen ts
le_raise none ts = omega arith
le_raise (some m) ts = (max_ℤ_bounds m ts).1

Lags-AtMost :
    (last : Option ℤ) (seen lateness : ℤ)
    → AtMost last (sat_sub seen lateness)
    → Lags last (some seen) lateness
Lags-AtMost none seen lateness h = tt
Lags-AtMost (some l) seen lateness h = h

module _ {ℓ} {E : Type ℓ} where
  drain_from_bound :
      (w bound : ℤ) (es : List (PendingEntry E)) (last : Option ℤ)
      → w ≤ℤ bound
      → AtMost last bound
      → AtMost (drain_from w es last).1 bound
  unfolding drain_from
  drain_from_bound w bound [] last le h = h
  drain_from_bound w bound (e ∷ es) last le h =
      ground (arith, drain_from_bound w bound es (some e.ts))

  abbrev BufferLags : ReorderBuffer E → Type 0
  BufferLags b = Lags b.last_ts b.max_ts_seen b.max_lateness_ms

  -- A drain to a watermark no later than the greatest time seen less the lateness.
  drain_until_lags :
      (b : ReorderBuffer E) (w seen : ℤ)
      → b.max_ts_seen ≡ some seen
      → w ≤ℤ sat_sub seen b.max_lateness_ms
      → AtMost b.last_ts (sat_sub seen b.max_lateness_ms)
      → BufferLags (drain_until b w).0
  unfolding drain_until
  drain_until_lags b w seen e le h = rw e (
      Lags-AtMost _ seen b.max_lateness_ms
        (drain_from_bound w (sat_sub seen b.max_lateness_ms) b.pending b.last_ts le h))

  call_lags : (b : ReorderBuffer E) (c : Call E) → IsLive c → BufferLags b → BufferLags (call b c).0
  unfolding step advance_watermark take_late enqueue
  call_lags b (push ts e) live h =
      elim (Bool-cases (is_some_and b.last_ts (λ last. ltb_ℤ ts last))) [
        | inl late ↦ rw late h
        | inr fine ↦ rw fine (
            drain_until_lags (enqueue b ts e) _ (raise b.max_ts_seen ts) refl (omega arith)
              (AtMost-Lags b.last_ts b.max_ts_seen b.max_lateness_ms ts h))
      ]
  call_lags b (tick now) live h =
      drain_until_lags (record b { max_ts_seen = some (raise b.max_ts_seen now) }) _
        (raise b.max_ts_seen now) refl
        (sat_sub_mono now (raise b.max_ts_seen now) b.max_lateness_ms (le_raise b.max_ts_seen now))
        (AtMost-Lags b.last_ts b.max_ts_seen b.max_lateness_ms now h)
  call_lags b end live h = absurd live
  call_lags b collect live h = h

  run_lags :
      (b : ReorderBuffer E) (cs : List (Call E))
      → All IsLive cs
      → BufferLags b
      → BufferLags (run b cs).0
  run_lags b [] live h = h
  run_lags b (c ∷ cs) live h = run_lags (call b c).0 cs live.1 (call_lags b c live.0 h)

  step-OnTime :
      (b : ReorderBuffer E) (ts : ℤ) (e : E)
      → BufferLags b
      → OnTime b.max_ts_seen b.max_lateness_ms ts
      → (step b ts e).0.late ≡ b.late
  unfolding step drain_until enqueue
  step-OnTime b ts e h on = ground (arith, not_behind b.last_ts b.max_ts_seen b.max_lateness_ms ts)
    where
      not_behind :
          (last seen : Option ℤ) (lateness t : ℤ)
          → Lags last seen lateness
          → OnTime seen lateness t
          → is_some_and last (λ l. ltb_ℤ t l) ≡ false
      not_behind none seen lateness t lag at = refl
      not_behind (some l) none lateness t lag at = absurd lag
      not_behind (some l) (some m) lateness t lag at = ground arith

  -- On a new buffer whose stream has not been flushed, an event whose time stamp lies at most the
  -- allowed lateness behind the greatest time seen, by an event or by the clock, is not recorded as
  -- late.
  pub run-OnTime :
      (lateness : ℤ) (cs : List (Call E)) (ts : ℤ) (e : E)
      → All IsLive cs
      → OnTime (run (new lateness) cs).0.max_ts_seen (run (new lateness) cs).0.max_lateness_ms ts
      → (step (run (new lateness) cs).0 ts e).0.late ≡ (run (new lateness) cs).0.late
  unfolding new
  run-OnTime lateness cs ts e live on =
      step-OnTime (run (new lateness) cs).0 ts e (run_lags (new lateness) cs live tt) on
