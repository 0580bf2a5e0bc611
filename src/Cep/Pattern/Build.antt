-- ===== src/Cep/Pattern/Build.antt =====
-- tflo-cep/src/pattern.rs: what every sequence of builder calls makes, and that a pattern it emits
-- runs on the engine without a panic.
use tflo.Prelude.{
  ℕ, suc, String, ◌+◌, ◌^◌, ◌≤◌, ◌<◌, ◌≡◌, ◌≢◌, refl, sym, subst, ap, Bool, Option, none, some,
  List, [], ◌∷◌, ◌++◌, length, length-map, arith, All,
}
use tflo.Prelude.Int.{ℤ}
use tflo.Prelude.I64.{u64_max}
use tflo.Prelude.Decimal.{numbered}
use tflo.Core.Reorder.{ReorderBuffer}
use tflo.Cep.Match.{Match}
use tflo.Cep.Step.{eventually}
use tflo.Cep.Valid.{IsValid}
use tflo.Cep.Runtime.{Runtime, max_partials}
use tflo.Cep.Engine.Calls.{Call, run}
use tflo.Cep.Engine.Safe.{run_returns}
use tflo.Cep.Pattern
use tflo.Cep.Pattern.{
  ArcPredicate, Result, ok, err, PatternError, BuilderStep, positive, negative, change_last,
  put_first, set_within, set_contiguity, set_repeat, Pattern, engine_step, emit, compile, finalized,
  into_runtime,
}
use tflo.Cep.Pattern.Cel
use tflo.Cep.Pattern.Cel.{compile_cel_pred}
use tflo.Cep.Pattern.Steps.{
  StepOk, change_last-StepOk, length-change_last, put_first-StepOk, length-put_first,
  engine_steps-RepeatOk, appended, times-StepOk, set_within-StepOk, set_contiguity-StepOk,
}
use tflo.Cep.Pattern.Checks.{emit_accepts}

-- The builder's methods, with their arguments.
pub data Method {ℓ} (E : Type ℓ) : Type ℓ where
  timestamp : (E → ℤ) → Method E
  when : (E → Bool) → Method E
  not_between : (E → Bool) → Method E
  then_ : (E → Bool) → Method E
  then_named : String → (E → Bool) → Method E
  not_then : (E → Bool) → Method E
  not_then_named : String → (E → Bool) → Method E
  within : ℕ → Method E
  next : Method E
  times : ℕ → ℕ → Method E
  when_cel : String → Method E
  then_cel : String → Method E
  not_between_cel : String → Method E
  not_then_cel : String → Method E

-- The arguments of `times` are `usize` values.
abbrev pub InRange {ℓ} : {E : Type ℓ} → Method E → Type 0
InRange (times low high) = (low ≤ u64_max) × (high ≤ u64_max)
InRange _ = Unit

module _ {ℓ} {E M : Type ℓ} (cel : String → Result (ArcPredicate E) String) where
  abbrev pub apply : Pattern E M → Method E → Pattern E M
  apply p (timestamp f) = Pattern.timestamp p f
  apply p (when f) = Pattern.when p f
  apply p (not_between f) = Pattern.not_between p f
  apply p (then_ f) = Pattern.then_ p f
  apply p (then_named n f) = Pattern.then_named p n f
  apply p (not_then f) = Pattern.not_then p f
  apply p (not_then_named n f) = Pattern.not_then_named p n f
  apply p (within ms) = Pattern.within p ms
  apply p next = Pattern.next p
  apply p (times low high) = Pattern.times p low high
  apply p (when_cel expr) = Cel.when_cel cel p expr
  apply p (then_cel expr) = Cel.then_cel cel p expr
  apply p (not_between_cel expr) = Cel.not_between_cel cel p expr
  apply p (not_then_cel expr) = Cel.not_then_cel cel p expr

  abbrev pub build : Pattern E M → List (Method E) → Pattern E M
  build p [] = p
  build p (m ∷ ms) = build (apply p m) ms

  -- At most `n` steps, with valid repeats.
  record Fine (n : ℕ) (p : Pattern E M) : Type 0 where
    repeats : All StepOk p.steps
    short : length p.steps ≤ n

  changed :
      (n : ℕ) (p : Pattern E M) (f : BuilderStep E → BuilderStep E)
      → ((s : BuilderStep E) → StepOk s → StepOk (f s))
      → Fine n p
      → Fine (suc n) (record p { steps = change_last f p.steps })
  changed n p f keeps h = record {
    repeats = change_last-StepOk f p.steps keeps h.repeats;
    short = omega (arith, length-change_last f p.steps, h.short);
  }

  same_steps : (n : ℕ) (p q : Pattern E M) → q.steps ≡ p.steps → Fine n p → Fine (suc n) q
  same_steps n p q same h = record {
    repeats = subst (All StepOk) (sym same) h.repeats;
    short = subst (λ l. length l ≤ suc n) (sym same) (omega (arith, h.short));
  }

  more :
      (n : ℕ) (p q : Pattern E M) (s : BuilderStep E)
      → q.steps ≡ p.steps ++ (s ∷ [])
      → StepOk s
      → Fine n p
      → Fine (suc n) q
  more n p q s same ok' h =
      let (all, short) = appended n p.steps s h.repeats h.short ok' in
      record {
        repeats = subst (All StepOk) (sym same) all;
        short = subst (λ l. length l ≤ suc n) (sym same) short;
      }

  replaced :
      (n : ℕ) (p q : Pattern E M) (s : BuilderStep E)
      → q.steps ≡ put_first s p.steps
      → StepOk s
      → Fine n p
      → Fine (suc n) q
  replaced n p q s same ok' h = record {
    repeats = subst (All StepOk) (sym same) (put_first-StepOk s p.steps ok' h.repeats);
    short =
        subst (λ l. length l ≤ suc n) (sym same)
          (omega (arith, length-put_first s p.steps, h.short));
  }

  compile_cel_pred-steps :
      (p : Pattern E M) (name expr : String) → (compile_cel_pred cel p name expr).0.steps ≡ p.steps
  unfolding compile_cel_pred
  compile_cel_pred-steps p name expr = ground arith

  apply-Fine :
      (n : ℕ) (p : Pattern E M) (m : Method E) → InRange m → Fine n p → Fine (suc n) (apply p m)
  unfolding Pattern.when Pattern.not_between Pattern.then_ Pattern.then_named Pattern.not_then
      Pattern.not_then_named Pattern.within Pattern.next Pattern.times Cel.when_cel Cel.then_cel
      Cel.not_between_cel Cel.not_then_cel
  apply-Fine n p (timestamp f) r h = same_steps n p _ refl h
  apply-Fine n p (when f) r h = replaced n p _ _ refl tt h
  apply-Fine n p (not_between f) r h = same_steps n p _ refl h
  apply-Fine n p (then_ f) r h = more n p _ _ refl tt h
  apply-Fine n p (then_named name f) r h = more n p _ _ refl tt h
  apply-Fine n p (not_then f) r h = more n p _ _ refl tt h
  apply-Fine n p (not_then_named name f) r h = more n p _ _ refl tt h
  apply-Fine n p (within ms) r h = changed n p _ (set_within-StepOk _) h
  apply-Fine n p next r h = changed n p _ (set_contiguity-StepOk _) h
  apply-Fine n p (times low high) r h =
      changed n p _ (λ s ok'. times-StepOk low high s r.0 r.1 ok') h
  apply-Fine n p (when_cel expr) r h =
      replaced n p _ _ (ap (put_first _) (compile_cel_pred-steps p _ expr)) tt h
  apply-Fine n p (then_cel expr) r h =
      let (p', f) = compile_cel_pred cel p (numbered "then_" (length p.steps)) expr in
      let s =
        positive (numbered "then_" (length p.steps)) f none eventually none p'.pending_forbidden in
      more n p _ s (ap (λ l. l ++ (s ∷ [])) (compile_cel_pred-steps p _ expr)) tt h
  apply-Fine n p (not_between_cel expr) r h = same_steps n p _ (compile_cel_pred-steps p _ expr) h
  apply-Fine n p (not_then_cel expr) r h =
      let (p', f) = compile_cel_pred cel p (numbered "not_then_" (length p.steps)) expr in
      let s = negative (numbered "not_then_" (length p.steps)) f none in
      more n p _ s (ap (λ l. l ++ (s ∷ [])) (compile_cel_pred-steps p _ expr)) tt h

  build-Fine :
      (n : ℕ) (p : Pattern E M) (ms : List (Method E))
      → All InRange ms
      → Fine n p
      → Fine (n + length ms) (build p ms)
  build-Fine n p [] r h = record { repeats = h.repeats; short = omega (arith, h.short) }
  build-Fine n p (m ∷ ms) r h =
      let ih = build-Fine (suc n) (apply p m) ms r.1 (apply-Fine n p m r.0 h) in
      record { repeats = ih.repeats; short = omega (arith, ih.short) }

length-nonzero {ℓ} : {A : Type ℓ} (l : List A) → l ≢ [] → 0 < length l
length-nonzero [] some_item = absurd (some_item refl)
length-nonzero (x ∷ r) some_item = omega arith

module _ {ℓ} {E N : Type ℓ} (cel : String → Result (ArcPredicate E) String) (M : Type ℓ) where
  finalized-IsValid :
      (n : ℕ) (p : Pattern E M) (f : Match E → N)
      → Fine cel n p
      → n < 2 ^ 63
      → emit p f ≡ ok (finalized p f)
      → IsValid (compile p f)
  finalized-IsValid n p f fine few e =
      let (calm, some_step, ends) = (emit_accepts p f).0 e in
      record {
        nonempty = omega (arith, length-map engine_step p.steps, length-nonzero p.steps some_step);
        fits = omega (arith, length-map engine_step p.steps, fine.short);
        repeats = engine_steps-RepeatOk p.steps fine.repeats;
      }

  -- Let fewer than 2^63 builder calls make a pattern that `emit` accepts, with the arguments of `times`
  -- within `usize`. Then `into_runtime` gives a runtime, and with or without a reorder buffer it
  -- returns from every sequence of calls, with at most 1024 partial matches left.
  pub built_runs :
      (name : String) (ms : List (Method E)) (f : Match E → N)
      → All InRange ms
      → length ms < 2 ^ 63
      → emit (build cel (Pattern.new {M = M} name) ms) f
        ≡ ok (finalized (build cel (Pattern.new {M = M} name) ms) f)
      → (buf : Option (ReorderBuffer E)) (ks : List (Call E))
      → (rt : Runtime E N) × (into_runtime (finalized (build cel (Pattern.new {M = M} name) ms) f)
          ≡ some rt)
        × (r : Runtime E N × List N) × (run (record rt { reorder = buf }) ks [] ≡ some r)
        × (length r.0.in_flight ≤ max_partials)
  built_runs name ms f r few e buf ks =
      let p : Pattern E M = build cel (Pattern.new name) ms in
      let start : Fine cel 0 (Pattern.new {M = M} name) = record {
        repeats = tt;
        short = omega arith;
      } in
      let zero_add : 0 + length ms ≡ length ms = omega arith in
      let fine : Fine cel (length ms) p =
        subst (λ n. Fine cel n p) zero_add
          (build-Fine cel 0 (Pattern.new {M = M} name) ms r start) in
      let v = finalized-IsValid (length ms) p f fine few e in
      let (r', runs, bounded, waiting) = run_returns (compile p f) v buf ks in
      (_, refl, r', runs, bounded)
