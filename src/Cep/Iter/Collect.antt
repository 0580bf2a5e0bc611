-- ===== src/Cep/Iter/Collect.antt =====
-- tflo-cep/src/runtime.rs: what the iterator yields over its whole life.
use tflo.Prelude.{
  ℕ, zero, suc, ◌+◌, ◌≤◌, ◌<◌, ◌≡◌, refl, sym, Bool, true, false, Option, none, some, List, [], ◌∷◌,
  ◌++◌, map, length, head?, arith, ◌>>=◌, Option-cases, inl, inr,
}
use tflo.Cep.Step.{Compiled}
use tflo.Cep.Valid.{IsValid}
use tflo.Cep.Runtime.{Runtime, new as new_runtime}
use tflo.Cep.Engine.{push, flush}
use tflo.Cep.Engine.Calls.{Call, event, end, call, run}
use tflo.Cep.Engine.Safe.{run_returns}
use tflo.Cep.Iter.{MatchPatternIter, new, turn, pulled, drained, next}

-- All the calls that the adapter makes on the engine for the events.
abbrev pub calls {ℓ} : {E : Type ℓ} → List E → List (Call E)
calls es = map event es ++ (end ∷ [])

abbrev tail {ℓ} : {A : Type ℓ} → List A → List A
tail [] = []
tail (x ∷ l) = l

module _ {ℓ} {E M : Type ℓ} where
  -- A caller that takes items until there is none, at most `n` of them.
  unfoldable pub collect : ℕ → ℕ → MatchPatternIter E M → Option (List M)
  collect zero fuel it = none
  collect (suc n) fuel it = next fuel it >>= λ r. elim r.0 [
    | none ↦ some []
    | some x ↦ (collect n fuel r.1 >>= λ l. some (x ∷ l))
  ]

  abbrev at : List E → Runtime E M → List M → Bool → Bool → MatchPatternIter E M
  at es rt p exhausted' drained' = record {
    inner = es;
    engine = rt;
    pending = p;
    exhausted = exhausted';
    drained_negatives = drained';
  }

  -- The adapter still has the items to yield, and at most `n` events to pull.
  data Left (n : ℕ) : MatchPatternIter E M → List M → Type ℓ where
    finished : (es : List E) (rt : Runtime E M) (p : List M) → Left n (at es rt p true true) p
    flushing :
        (es : List E) (rt : Runtime E M) (p : List M) (r : Runtime E M × List M)
        → flush rt ≡ some r
        → Left n (at es rt p true false) (p ++ r.1)
    running :
        (es : List E) (rt : Runtime E M) (p : List M) (r : Runtime E M × List M)
        → run rt (calls es) p ≡ some r
        → length es ≤ n
        → Left n (at es rt p false false) r.1

  -- A call of `next` that yields the first item, and has the others left.
  Yields : ℕ → ℕ → MatchPatternIter E M → List M → Type ℓ
  Yields n fuel it l =
      (it' : MatchPatternIter E M) × (next fuel it ≡ some (head? l, it')) × Left n it' (tail l)

  run-cons :
      (ks : List (Call E)) (rt : Runtime E M) (x : M) (out : List M) (r : Runtime E M × List M)
      → run rt ks (x ∷ out) ≡ some r
      → (r' : Runtime E M × List M) × (run rt ks out ≡ some r') × (r.1 ≡ x ∷ r'.1)
  unfolding run
  run-cons [] rt x out r e = ((rt, out), refl, ground arith)
  run-cons (k ∷ ks) rt x out r e = elim (Option-cases (call rt k)) [
    | inl bad ↦ absurd (ground arith)
    | inr ((rt', more), fine) ↦
        let (r', runs, same) = run-cons ks rt' x (out ++ more) r (ground arith) in
        (r', ground arith, same)
  ]

  next_finished :
      (n fuel : ℕ) (es : List E) (rt : Runtime E M) (p : List M)
      → 1 ≤ fuel
      → Yields n fuel (at es rt p true true) p
  unfolding Yields next turn
  next_finished n zero es rt p h = absurd (omega arith)
  next_finished n (suc fuel) es rt [] h = (_, refl, finished es rt [])
  next_finished n (suc fuel) es rt (x ∷ p) h = (_, refl, finished es rt p)

  next_flushing :
      (n fuel : ℕ) (es : List E) (rt : Runtime E M) (p : List M) (r : Runtime E M × List M)
      → flush rt ≡ some r
      → 2 ≤ fuel
      → Yields n fuel (at es rt p true false) (p ++ r.1)
  unfolding Yields next turn drained
  next_flushing n zero es rt p r e h = absurd (omega arith)
  next_flushing n (suc fuel) es rt (x ∷ p) r e h = (_, refl, flushing es rt p r e)
  next_flushing n (suc fuel) es rt [] r e h =
      let (it', same, left) = next_finished n fuel es r.0 r.1 (omega arith) in
      (it', ground (arith, same), left)

  next_running :
      (n fuel : ℕ) (es : List E) (rt : Runtime E M) (p : List M) (r : Runtime E M × List M)
      → run rt (calls es) p ≡ some r
      → length es ≤ n
      → length es + 3 ≤ fuel
      → Yields n fuel (at es rt p false false) r.1
  unfolding Yields next turn pulled run
  next_running n zero es rt p r e h k = absurd (omega arith)
  next_running n (suc fuel) es rt (x ∷ p) r e h k =
      let (r', runs, same) = run-cons (calls es) rt x p r e in
      rw same (_, refl, running es rt p r' runs h)
  next_running n (suc fuel) [] rt [] r e h k = elim (Option-cases (flush rt)) [
    | inl bad ↦ absurd (ground arith)
    | inr (r₀, fine) ↦
        let (it', same, left) = next_flushing n fuel [] rt [] r₀ fine (omega arith) in
        let whole : r₀.1 ≡ r.1 = ground arith in rw (sym whole) (it', same, left)
  ]
  next_running n (suc fuel) (v ∷ es) rt [] r e h k = elim (Option-cases (push rt v)) [
    | inl bad ↦ absurd (ground arith)
    | inr (r₀, fine) ↦
        let (it', same, left) =
          next_running n fuel es r₀.0 r₀.1 r (ground arith) (omega arith) (omega arith) in
        (it', ground (arith, same), left)
  ]

  next_lem :
      (n fuel : ℕ) (it : MatchPatternIter E M) (l : List M)
      → Left n it l
      → n + 3 ≤ fuel
      → Yields n fuel it l
  next_lem n fuel _ _ (finished es rt p) h = next_finished n fuel es rt p (omega arith)
  next_lem n fuel _ _ (flushing es rt p r e) h = next_flushing n fuel es rt p r e (omega arith)
  next_lem n fuel _ _ (running es rt p r e short) h =
      next_running n fuel es rt p r e short (omega arith)

  collect-Left :
      (n fuel takes : ℕ) (it : MatchPatternIter E M) (l : List M)
      → Left n it l
      → n + 3 ≤ fuel
      → length l < takes
      → collect takes fuel it ≡ some l
  unfolding collect Yields
  collect-Left n fuel zero it l left h k = absurd (omega arith)
  collect-Left n fuel (suc takes) it [] left h k =
      let (it', same, left') = next_lem n fuel it [] left h in rw (same, collect) refl
  collect-Left n fuel (suc takes) it (x ∷ l) left h k =
      let (it', same, left') = next_lem n fuel it (x ∷ l) left h in
      let rest = collect-Left n fuel takes it' l left' h (omega arith) in ground (arith, same, rest)

  -- For a valid pattern, the adapter over any finite list of events yields just what the engine emits
  -- for the pushes of the events in order and then one flush, and no call of the engine panics. Three
  -- turns more than there are events are enough for each call of `next`, and one call more than there
  -- are items for all of them; more of either changes nothing.
  pub iter_yields_run :
      (c : Compiled E M)
      → IsValid c
      → (es : List E) (extra_turns extra_calls : ℕ)
      → (r : Runtime E M × List M) × (run (new_runtime c) (calls es) [] ≡ some r)
        × (collect (length r.1 + 1 + extra_calls) (length es + 3 + extra_turns) (new es c)
            ≡ some r.1)
  unfolding new_runtime
  iter_yields_run c v es extra_turns extra_calls =
      let (r, runs, bounded, waiting) = run_returns c v none (calls es) in
      (
        r,
        runs,
        collect-Left (length es) (length es + 3 + extra_turns) (length r.1 + 1 + extra_calls)
            (new es c) r.1 (running es (new_runtime c) [] r runs (omega arith)) (omega arith)
            (omega arith),
      )
