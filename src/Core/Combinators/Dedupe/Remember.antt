-- ===== src/Core/Combinators/Dedupe/Remember.antt =====
-- tflo-core/src/combinators/dedupe.rs: the cleaning of the map never lets a duplicate through.
use tflo.Prelude.{
  ℕ, zero, suc, ◌<◌, ◌≡◌, refl, ◌∙◌, ap, Bool, true, false, Option, none, some, List, [], ◌∷◌,
  arith, if◌then◌else◌, length, All, Bool-cases, inl, inr,
}
use tflo.Prelude.Int.{ℤ, pos, ◌≤ℤ◌, ◌<ℤ◌, leb_ℤ, -ℤ_parts}
use tflo.Prelude.I64.{sat_sub, sat_sub_mono, IsI64, i64_min, i64_max}
use tflo.Core.Combinators.Dedupe.{
  keep, is_duplicate, DedupeByKey, dedupe_by_key, insert, at, next_from, next,
}

-- What the map has of a key, against what it would have without cleaning, from the time `now` on.
abbrev Agrees : ℤ → ℤ → Option ℤ → Option ℤ → Type 0
Agrees window_ms now none none = Unit
Agrees window_ms now (some a) (some b) = (a ≡ b) × (i64_min ≤ℤ a)
Agrees window_ms now none (some b) = window_ms ≤ℤ sat_sub now b
Agrees window_ms now (some a) none = ⊥

Agrees-later :
    (window_ms now now' : ℤ) (s f : Option ℤ)
    → now ≤ℤ now'
    → Agrees window_ms now s f
    → Agrees window_ms now' s f
Agrees-later window_ms now now' none none le h = tt
Agrees-later window_ms now now' (some a) (some b) le h = h
Agrees-later window_ms now now' none (some b) le h = omega (arith, sat_sub_mono now now' b le)
Agrees-later window_ms now now' (some a) none le h = h

-- What lies before the cutoff is no duplicate.
stale :
    (window_ms now t : ℤ)
    → pos 0 ≤ℤ window_ms
    → window_ms ≤ℤ i64_max
    → i64_min ≤ℤ t
    → t <ℤ sat_sub now window_ms
    → window_ms ≤ℤ sat_sub now t
unfolding sat_sub
stale window_ms now t low high live old = ground (arith, -ℤ_parts now window_ms, -ℤ_parts now t)

Agrees-keep :
    (window_ms now : ℤ) (s f : Option ℤ)
    → pos 0 ≤ℤ window_ms
    → window_ms ≤ℤ i64_max
    → Agrees window_ms now s f
    → Agrees window_ms now (keep (sat_sub now window_ms) s) f
Agrees-keep window_ms now none f low high h = h
Agrees-keep window_ms now (some a) none low high h = absurd h
Agrees-keep window_ms now (some a) (some b) low high h =
    elim (Bool-cases (leb_ℤ (sat_sub now window_ms) a)) [
      | inl young ↦ rw young h
      | inr old ↦
          let gone = stale window_ms now a low high h.1 (ground arith) in rw old (rw⁻¹ h.0 gone)
    ]

is_duplicate-Agrees :
    (window_ms now : ℤ) (s f : Option ℤ)
    → Agrees window_ms now s f
    → is_duplicate window_ms now s ≡ is_duplicate window_ms now f
is_duplicate-Agrees window_ms now none none h = refl
is_duplicate-Agrees window_ms now (some a) (some b) h = rw h.0 refl
is_duplicate-Agrees window_ms now none (some b) h = ground arith
is_duplicate-Agrees window_ms now (some a) none h = absurd h

module _ {ℓ} {T K : Type ℓ} (key_fn : T → K) (ts_fn : T → ℤ) (same_key : K → K → Bool) where
  -- What a caller has after one call of `next`, if `rest` is what it takes after that.
  abbrev take_item :
      (DedupeByKey key_fn ts_fn same_key → List T)
      → Option T × DedupeByKey key_fn ts_fn same_key
      → List T
  take_item rest (none, d) = []
  take_item rest (some item, d) = item ∷ rest d

  -- A caller that takes at most `n` items.
  unfoldable pub collect : ℕ → DedupeByKey key_fn ts_fn same_key → List T
  collect zero d = []
  collect (suc n) d = take_item (collect n) (next key_fn ts_fn same_key d)

  -- The rule without a cleaning of the map: an item is a duplicate if the last item of its key that was
  -- not one lies less than the window before it.
  unfoldable pub remembered : ℤ → List T → (K → Option ℤ) → List T
  remembered window_ms [] seen = []
  remembered window_ms (item ∷ iter) seen =
      let skip = remembered window_ms iter seen in
      let take = remembered window_ms iter (insert key_fn ts_fn same_key item seen) in
      if is_duplicate window_ms (ts_fn item) (seen (key_fn item)) then skip else item ∷ take

  -- The items come in ascending order of time.
  abbrev pub IsAscending : List T → Type 0
  IsAscending [] = Unit
  IsAscending (x ∷ xs) = All (λ y. ts_fn x ≤ℤ ts_fn y) xs × IsAscending xs

  -- The map after the cleaning for an item, and after it is recorded.
  abbrev cleaned : ℤ → T → (K → Option ℤ) → K → Option ℤ
  cleaned window_ms item seen k = keep (sat_sub (ts_fn item) window_ms) (seen k)

  abbrev known : ℤ → T → (K → Option ℤ) → Bool
  known window_ms item seen = is_duplicate window_ms (ts_fn item) (seen (key_fn item))

  next_skips :
      (window_ms : ℤ) (item : T) (iter : List T) (seen : K → Option ℤ)
      → known window_ms item (cleaned window_ms item seen) ≡ true
      → next key_fn ts_fn same_key (at key_fn ts_fn same_key window_ms (item ∷ iter) seen)
        ≡ next key_fn ts_fn same_key
            (at key_fn ts_fn same_key window_ms iter (cleaned window_ms item seen))
  unfolding next next_from
  next_skips window_ms item iter seen e = rw e refl

  next_yields :
      (window_ms : ℤ) (item : T) (iter : List T) (seen : K → Option ℤ)
      → known window_ms item (cleaned window_ms item seen) ≡ false
      → next key_fn ts_fn same_key (at key_fn ts_fn same_key window_ms (item ∷ iter) seen) ≡ (
        some item,
        at key_fn ts_fn same_key window_ms iter
            (insert key_fn ts_fn same_key item (cleaned window_ms item seen)),
      )
  unfolding next next_from
  next_yields window_ms item iter seen e = rw e refl

  next_end :
      (window_ms : ℤ) (seen : K → Option ℤ)
      → next key_fn ts_fn same_key (at key_fn ts_fn same_key window_ms [] seen)
        ≡ (none, at key_fn ts_fn same_key window_ms [] seen)
  unfolding next next_from
  next_end window_ms seen = refl

  insert-Agrees :
      (window_ms : ℤ) (item : T) (s f : K → Option ℤ) (k : K)
      → IsI64 (ts_fn item)
      → Agrees window_ms (ts_fn item) (s k) (f k)
      → Agrees window_ms
          (ts_fn item)
          (insert key_fn ts_fn same_key item s k)
          (insert key_fn ts_fn same_key item f k)
  insert-Agrees window_ms item s f k live h = elim (Bool-cases (same_key k (key_fn item))) [
    | inl e ↦ rw e (refl, live.0)
    | inr e ↦ rw e h
  ]

  -- The two maps agree, on every key, from the next item on.
  Start : ℤ → List T → (K → Option ℤ) → (K → Option ℤ) → Type ℓ
  Start window_ms [] s f = Unit
  Start window_ms (item ∷ iter) s f = (k : K) → Agrees window_ms (ts_fn item) (s k) (f k)

  Start-later :
      (window_ms now : ℤ) (iter : List T) (s f : K → Option ℤ)
      → All (λ y. now ≤ℤ ts_fn y) iter
      → ((k : K) → Agrees window_ms now (s k) (f k))
      → Start window_ms iter s f
  unfolding Start
  Start-later window_ms now [] s f asc h = tt
  Start-later window_ms now (item ∷ iter) s f asc h =
      λ k. Agrees-later window_ms now (ts_fn item) (s k) (f k) asc.0 (h k)

  collect-remembered :
      (n : ℕ) (window_ms : ℤ) (iter : List T) (s f : K → Option ℤ)
      → length iter < n
      → pos 0 ≤ℤ window_ms
      → window_ms ≤ℤ i64_max
      → All (λ x. IsI64 (ts_fn x)) iter
      → IsAscending iter
      → Start window_ms iter s f
      → collect n (at key_fn ts_fn same_key window_ms iter s) ≡ remembered window_ms iter f
  unfolding collect remembered Start
  collect-remembered zero window_ms iter s f lt low high live asc h = absurd (omega arith)
  collect-remembered (suc n) window_ms [] s f lt low high live asc h =
      rw (next_end window_ms s, collect) refl
  collect-remembered (suc n) window_ms (item ∷ iter) s f lt low high live asc h =
      let now = ts_fn item in
      let agrees = λ (k : K). Agrees-keep window_ms now (s k) (f k) low high (h k) in
      let same =
        is_duplicate-Agrees window_ms now (cleaned window_ms item s (key_fn item)) (f (key_fn item))
          (agrees (key_fn item)) in
      elim (Bool-cases (known window_ms item f)) [
        | inl dup ↦
            let start = Start-later window_ms now iter (cleaned window_ms item s) f asc.0 agrees in
            let ih =
              collect-remembered (suc n) window_ms iter (cleaned window_ms item s) f (omega arith)
                low high live.1 asc.1 start in
            rw (next_skips window_ms item iter s (same ∙ dup), collect, dup) ih
        | inr fresh ↦
            let start =
              Start-later window_ms now iter _ _ asc.0 λ k.
                insert-Agrees window_ms item (cleaned window_ms item s) f k live.0 (agrees k) in
            let ih =
              collect-remembered n window_ms iter
                (insert key_fn ts_fn same_key item (cleaned window_ms item s))
                (insert key_fn ts_fn same_key item f) (omega arith) low high live.1 asc.1 start in
            rw (next_yields window_ms item iter s (same ∙ fresh), collect, fresh)
              (ap (λ l. item ∷ l) ih)
      ]

  Start-none : (window_ms : ℤ) (iter : List T) → Start window_ms iter (λ k. none) (λ k. none)
  unfolding Start
  Start-none window_ms [] = tt
  Start-none window_ms (item ∷ iter) = λ k. tt

  -- On a stream of `i64` times in ascending order, and with an `i64` window that is not negative, a drained
  -- `dedupe_by_key` has yielded just the items that a map that is never cleaned would let through:
  -- what the cleaning forgets would not have been a duplicate.
  pub dedupe_by_key_lem :
      (n : ℕ) (window_ms : ℤ) (iter : List T)
      → length iter < n
      → pos 0 ≤ℤ window_ms
      → window_ms ≤ℤ i64_max
      → All (λ x. IsI64 (ts_fn x)) iter
      → IsAscending iter
      → collect n (dedupe_by_key key_fn ts_fn same_key iter window_ms)
        ≡ remembered window_ms iter (λ k. none)
  dedupe_by_key_lem n window_ms iter lt low high live asc =
      collect-remembered n window_ms iter (λ k. none) (λ k. none) lt low high live asc
        (Start-none window_ms iter)
