-- ===== src/Cep/Advance/Sound.antt =====
-- `advance_one` follows the pattern: what it keeps are captures of a prefix of the steps, and what it
-- completes is accepted.
use tflo.Prelude.{
  ℕ, zero, suc, ◌≤◌, ◌<◌, ◌≡◌, sym, ◌∙◌, subst, true, false, Option, none, some, length, get_elem?,
  get_elem?-some_of_lt, arith, if◌then◌else◌, All-get, inl, inr, Option-cases, Bool-cases, leb, not,
  ◌&&◌, is_some_and, Bool,
}
use mathlib.Core.Option.{some-injective}
use tflo.Prelude.Int.{ℤ}
use tflo.Prelude.I64.{sat_add_u64, u64_max}
use tflo.Cep.Step.{RepeatSpec, Step, PartialMatch, Disposition, keep, remove, complete, Compiled}
use tflo.Cep.Valid.{IsValid, IsWaiting, RepeatOk}
use tflo.Cep.Language.{Captured, once, more, leave, Accepted, all_steps}
use tflo.Cep.Advance.{
  Round, done, again, or_again, resume, capture, advance_step, repeat_round, once_round,
  advance_round, advance_loop, advance_one,
}
use tflo.Cep.Advance.Bound.{advance_loop-suc}

module _ {ℓ} {E M : Type ℓ} where
  -- A repeated step has captured fewer events than its maximum.
  abbrev pub HasRoom : Compiled E M → ℕ → ℕ → Type ℓ
  HasRoom c k r =
      (step : Step E) (spec : RepeatSpec)
      → get_elem? c.steps k ≡ some step
      → step.repeat ≡ some spec
      → r < spec.max

  pub fresh-HasRoom : (c : Compiled E M) (k : ℕ) → IsValid c → HasRoom c k 0
  fresh-HasRoom c k v step spec at rep =
      ground (arith, All-get (λ s. RepeatOk s.repeat) c.steps k v.repeats at)

  -- A partial that waits for a step, with captures of the steps before it.
  pub record Tracked (c : Compiled E M) (pm : PartialMatch E) : Type ℓ where
    pub waiting : IsWaiting c pm
    pub run : Captured c pm.next_step pm.repeat_count pm.captures
    pub room : HasRoom c pm.next_step pm.repeat_count

  -- What `advance_one` makes of a tracked partial.
  abbrev pub Outcome : Compiled E M → Disposition × PartialMatch E → Type ℓ
  Outcome c (keep, pm) = Tracked c pm
  Outcome c (remove, pm) = Unit
  Outcome c (complete, pm) = Accepted c pm.captures

  abbrev RoundSound : Compiled E M → Round E → Type ℓ
  RoundSound c (done d pm) = Outcome c (d, pm)
  RoundSound c (again pm) = Tracked c pm

  advance_step-Outcome :
      (c : Compiled E M) (pm : PartialMatch E) (k : ℕ) (ts : ℤ)
      → IsValid c
      → k < length c.steps
      → Captured c (suc k) 0 pm.captures
      → Outcome c (advance_step c pm k ts)
  unfolding advance_step
  advance_step-Outcome c pm k ts v lt run =
      let next : sat_add_u64 k 1 ≡ suc k = omega (arith, v.fits) in
      rw next (elim (Bool-cases (leb (length c.steps) (suc k))) [
        | inl past ↦ rw past (all_steps run (ground arith))
        | inr left ↦
            rw left (record { waiting = ground arith; run = run; room = fresh-HasRoom c (suc k) v })
      ])

  resume-RoundSound :
      (c : Compiled E M) (r : Disposition × PartialMatch E) → Outcome c r → RoundSound c (resume r)
  resume-RoundSound c (keep, pm) h = h
  resume-RoundSound c (remove, pm) h = h
  resume-RoundSound c (complete, pm) h = h

  unmatched-RoundSound :
      (c : Compiled E M) (pm : PartialMatch E) (b : Bool)
      → Tracked c pm
      → Outcome c (if b then remove else keep, pm)
  unmatched-RoundSound c pm true h = tt
  unmatched-RoundSound c pm false h = h

  once_round-RoundSound :
      (c : Compiled E M) (pm : PartialMatch E) (event : E) (ts : ℤ) (step : Step E)
      → IsValid c
      → Tracked c pm
      → get_elem? c.steps pm.next_step ≡ some step
      → step.is_negative ≡ false
      → step.repeat ≡ none
      → RoundSound c
          (once_round c pm event ts step (step.predicate.evaluate_in_context event pm.captures))
  unfolding once_round
  once_round-RoundSound c pm event ts step v t at pos plain =
      elim (Bool-cases (step.predicate.evaluate_in_context event pm.captures)) [
        | inl yes' ↦ rw yes' (
            advance_step-Outcome c (capture pm step.name event) pm.next_step ts v t.waiting.1
              (once step event t.run at pos plain yes'))
        | inr no' ↦ rw no' (unmatched-RoundSound c pm _ t)
      ]

  repeat_round-RoundSound :
      (c : Compiled E M) (pm : PartialMatch E) (event : E) (ts : ℤ) (step : Step E)
      (spec : RepeatSpec)
      → IsValid c
      → Tracked c pm
      → get_elem? c.steps pm.next_step ≡ some step
      → step.is_negative ≡ false
      → step.repeat ≡ some spec
      → RoundSound c (
          repeat_round c pm event ts step spec
            (step.predicate.evaluate_in_context event pm.captures))
  unfolding repeat_round
  repeat_round-RoundSound c pm event ts step spec v t at pos rep =
      let room = t.room step spec at rep in
      let ok = All-get (λ s. RepeatOk s.repeat) c.steps pm.next_step v.repeats at in
      let limits : (spec.min ≤ spec.max) × (spec.max ≤ u64_max) = ground (arith, ok) in
      let next : sat_add_u64 pm.repeat_count 1 ≡ suc pm.repeat_count = omega arith in
      elim (Bool-cases (step.predicate.evaluate_in_context event pm.captures)) [
        | inl hit ↦
            let run = more step spec event t.run at pos rep room hit in
            rw (hit, next)
              (elim (Bool-cases (leb spec.max (suc pm.repeat_count))) [
                | inl full ↦ rw full (
                    advance_step-Outcome c _ pm.next_step ts v t.waiting.1
                      (leave step spec run at pos rep (ground arith)))
                | inr open' ↦ rw open' (record {
                  waiting = t.waiting;
                  run = run;
                  room = λ step' spec' at' rep'. ground arith;
                })
              ])
        | inr miss ↦ rw miss (elim (Bool-cases (leb spec.min pm.repeat_count)) [
          | inl enough ↦ rw enough (
              resume-RoundSound c (advance_step c pm pm.next_step ts) (
                advance_step-Outcome c pm pm.next_step ts v t.waiting.1
                  (leave step spec t.run at pos rep (ground arith))))
          | inr few ↦ rw few (unmatched-RoundSound c pm _ t)
        ])
      ]

  advance_round-RoundSound :
      (c : Compiled E M) (pm : PartialMatch E) (event : E) (ts : ℤ) (step : Step E)
      → IsValid c
      → Tracked c pm
      → get_elem? c.steps pm.next_step ≡ some step
      → RoundSound c (advance_round c pm event ts step)
  unfolding advance_round
  advance_round-RoundSound c pm event ts step v t at =
      let hit = step.predicate.evaluate_in_context event pm.captures in
      let stop = is_some_and step.forbidden (λ f. f.evaluate_in_context event pm.captures) in
      elim (Bool-cases step.is_negative) [
        | inl neg ↦ rw neg (unmatched-RoundSound c pm hit t)
        | inr pos ↦ rw pos (elim (Bool-cases (not hit && stop)) [
          | inl killed ↦ rw killed tt
          | inr alive ↦ rw alive (elim (Option-cases step.repeat) [
            | inl plain ↦ rw plain (once_round-RoundSound c pm event ts step v t at pos plain)
            | inr (spec, rep) ↦
                rw rep (repeat_round-RoundSound c pm event ts step spec v t at pos rep)
          ])
        ])
      ]

  Sound : Compiled E M → Option (Disposition × PartialMatch E) → Type ℓ
  Sound c o = (r : Disposition × PartialMatch E) → o ≡ some r → Outcome c r

  advance_loop-Sound :
      (fuel : ℕ) (c : Compiled E M) (pm : PartialMatch E) (event : E) (ts : ℤ)
      → IsValid c
      → Tracked c pm
      → Sound c (advance_loop fuel c pm event ts)
  unfolding advance_loop Sound
  advance_loop-Sound zero c pm event ts v t r e = absurd (cc)
  advance_loop-Sound (suc fuel) c pm event ts v t r e =
      let (step, at) = get_elem?-some_of_lt c.steps pm.next_step t.waiting.1 in
      go (advance_round c pm event ts step) (advance_round-RoundSound c pm event ts step v t at)
        (advance_loop-Sound fuel c) (sym (advance_loop-suc fuel c pm event ts at) ∙ e)
    where
      go :
          (round : Round E)
          → RoundSound c round
          → ((pm' : PartialMatch E) (event' : E) (ts' : ℤ)
              → IsValid c
              → Tracked c pm'
              → (r' : Disposition × PartialMatch E) → advance_loop fuel c pm' event' ts' ≡ some r'
              → Outcome c r')
          → or_again round (λ pm'. advance_loop fuel c pm' event ts) ≡ some r
          → Outcome c r
      go (done d pm') h rec e' = subst (Outcome c) (some-injective _ _ e') h
      go (again pm') h rec e' = rec pm' event ts v h r e'

  -- Of a partial that waits for a step with captures of the steps before it, `advance_one` keeps only
  -- such a partial, and completes only one whose captures the pattern accepts.
  pub advance_one_sound :
      (c : Compiled E M) (pm : PartialMatch E) (event : E) (ts : ℤ)
      (r : Disposition × PartialMatch E)
      → IsValid c
      → Tracked c pm
      → advance_one c pm event ts ≡ some r
      → Outcome c r
  unfolding advance_one Sound
  advance_one_sound c pm event ts r v t e =
      advance_loop-Sound (length c.steps) c pm event ts v t r e
