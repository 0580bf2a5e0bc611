-- ===== src/Ops/LagBuffer/Lagged.antt =====
-- tflo-ops/src/primitives/lag_buffer.rs: a push returns the value of the time one lag ago.
use tflo.Prelude.{
  ℕ, ◌+◌, ◌≤◌, ◌≡◌, ◌≢◌, inl, inr, refl, sym, ap, ◌∙◌, subst, true, Option, none, some, List, [],
  ◌∷◌, ◌++◌, append_assoc, length, length-append, if◌then◌else◌, All, All-map, All-left, Bool-cases,
  arith,
}
use tflo.Prelude.Int.{ℤ, leb_ℤ, leb_ℤ→gt, ◌≤ℤ◌, ◌<ℤ◌}
use tflo.Prelude.I64.{sat_sub, sat_sub_mono}
use tflo.Ops.LagBuffer.{
  LagBuffer, bounded, cleaned, front_at, push, with_max_size, as_i64, scanned, get_at,
}

both_equal : {A : Type 0} {a a' : A} {l l' : List A} → a ≡ a' → l ≡ l' → a ∷ l ≡ a' ∷ l'
both_equal e e' = cc

module _ {V : Type 0} where
  abbrev pub else_at : ℤ → ℤ × V → Option V → Option V
  else_at t e (some v) = some v
  else_at t e none = if leb_ℤ e.0 t then some e.1 else none

  -- The value of the last entry at or before a time.
  abbrev pub value_at : ℤ → List (ℤ × V) → Option V
  value_at t [] = none
  value_at t (e ∷ es) = else_at t e (value_at t es)

  abbrev pub Ascending : List (ℤ × V) → Type 0
  Ascending [] = Unit
  Ascending (e ∷ es) = All (λ x. e.0 ≤ℤ x.0) es × Ascending es

  else_at-some : (t : ℤ) (e : ℤ × V) (o : Option V) → e.0 ≤ℤ t → else_at t e o ≢ none
  else_at-some t e none h = ground arith
  else_at-some t e (some v) h = λ p. cc

  else_at-first : (t : ℤ) (e : ℤ × V) (o : Option V) → o ≢ none → else_at t e o ≡ o
  else_at-first t e none h = absurd (h refl)
  else_at-first t e (some v) h = refl

  value_at-cleaned :
      (target t : ℤ) (es : List (ℤ × V))
      → target ≤ℤ t
      → value_at t (cleaned target es) ≡ value_at t es
  value_at-cleaned target t [] h = refl
  value_at-cleaned target t (e ∷ []) h = refl
  value_at-cleaned target t (e ∷ n ∷ es) h = elim (Bool-cases (leb_ℤ n.0 target)) [
    | inl y ↦ rw y (
        value_at-cleaned target t (n ∷ es) h
        ∙ sym (else_at-first t e _ (else_at-some t n (value_at t es) (ground arith))))
    | inr z ↦ rw z refl
  ]

  abbrev or_else : Option V → Option V → Option V
  or_else (some v) o = some v
  or_else none o = o

  or_else-none : (o : Option V) → o ≡ or_else o none
  or_else-none none = refl
  or_else-none (some v) = refl

  else_at-or_else :
      (t : ℤ) (e : ℤ × V) (a b : Option V) → else_at t e (or_else a b) ≡ or_else a (else_at t e b)
  else_at-or_else t e none b = refl
  else_at-or_else t e (some v) b = refl

  value_at-append :
      (t : ℤ) (xs ys : List (ℤ × V))
      → value_at t (xs ++ ys) ≡ or_else (value_at t ys) (value_at t xs)
  value_at-append t [] ys = or_else-none (value_at t ys)
  value_at-append t (x ∷ xs) ys =
      ap (else_at t x) (value_at-append t xs ys)
      ∙ else_at-or_else t x (value_at t ys) (value_at t xs)

  -- All entries are after the time.
  value_at-late : (t : ℤ) (es : List (ℤ × V)) → All (λ x. t <ℤ x.0) es → value_at t es ≡ none
  value_at-late t [] h = refl
  value_at-late t (e ∷ es) h = rw (value_at-late t es h.1) (ground arith)

  front_at-cleaned :
      (t : ℤ) (es : List (ℤ × V)) → Ascending es → front_at t (cleaned t es) ≡ value_at t es
  front_at-cleaned t [] h = refl
  front_at-cleaned t (e ∷ []) h = refl
  front_at-cleaned t (e ∷ n ∷ es) h = elim (Bool-cases (leb_ℤ n.0 t)) [
    | inl y ↦ rw y (
        front_at-cleaned t (n ∷ es) h.1
        ∙ sym (else_at-first t e _ (else_at-some t n (value_at t es) (ground arith))))
    | inr z ↦ rw z (
        sym (
          ap (else_at t e) (
            value_at-late t (n ∷ es)
              (ground arith, All-map _ (λ x. t <ℤ x.0) es (λ x k. ground arith) h.1.0))))
  ]

  value_at-snoc :
      (t : ℤ) (xs ys : List (ℤ × V)) (p : ℤ × V)
      → value_at t xs ≡ value_at t ys
      → value_at t (xs ++ (p ∷ [])) ≡ value_at t (ys ++ (p ∷ []))
  value_at-snoc t xs ys p e =
      value_at-append t xs (p ∷ [])
      ∙ ap (or_else (value_at t (p ∷ []))) e
      ∙ sym (value_at-append t ys (p ∷ []))

  Ascending-cleaned :
      (t : ℤ) (xs ys : List (ℤ × V)) → Ascending (xs ++ ys) → Ascending (cleaned t xs ++ ys)
  Ascending-cleaned t [] ys h = h
  Ascending-cleaned t (e ∷ []) ys h = h
  Ascending-cleaned t (e ∷ n ∷ es) ys h = elim (Bool-cases (leb_ℤ n.0 t)) [
    | inl y ↦ rw y (Ascending-cleaned t (n ∷ es) ys h.1)
    | inr z ↦ rw z h
  ]

  Ascending-left : (xs ys : List (ℤ × V)) → Ascending (xs ++ ys) → Ascending xs
  Ascending-left [] ys h = tt
  Ascending-left (x ∷ xs) ys h = (All-left _ xs ys h.0, Ascending-left xs ys h.1)

  Ascending-right : (xs ys : List (ℤ × V)) → Ascending (xs ++ ys) → Ascending ys
  Ascending-right [] ys h = h
  Ascending-right (x ∷ xs) ys h = Ascending-right xs ys h.1

  length-cleaned : (t : ℤ) (xs : List (ℤ × V)) → length (cleaned t xs) ≤ length xs
  length-cleaned t [] = omega arith
  length-cleaned t (e ∷ []) = omega arith
  length-cleaned t (e ∷ n ∷ es) = elim (Bool-cases (leb_ℤ n.0 t)) [
    | inl y ↦ rw y (omega (arith, length-cleaned t (n ∷ es)))
    | inr z ↦ rw z (omega arith)
  ]

  -- Within the size, nothing is dropped.
  bounded-fits : (k : ℕ) (xs : List (ℤ × V)) → length xs ≤ k → bounded k xs ≡ xs
  bounded-fits k [] h = refl
  bounded-fits k (e ∷ es) h = ground arith

  -- The scan of `get_at` stops at the first later entry, which misses nothing.
  found-or_else :
      (t : ℤ) (e : ℤ × V) (o r : Option V)
      → leb_ℤ e.0 t ≡ true
      → or_else o (some e.1) ≡ or_else (else_at t e o) r
  found-or_else t e none r y = rw y refl
  found-or_else t e (some v) r y = refl

  scanned-value_at :
      (t : ℤ) (r : Option V) (es : List (ℤ × V))
      → Ascending es
      → scanned t r es ≡ or_else (value_at t es) r
  scanned-value_at t r [] up = refl
  scanned-value_at t r (e ∷ es) up = elim (Bool-cases (leb_ℤ e.0 t)) [
    | inl y ↦
        ap (λ b. if b then scanned t (some e.1) es else r) y
        ∙ scanned-value_at t (some e.1) es up.1
        ∙ found-or_else t e (value_at t es) r y
    | inr z ↦
        ap (λ b. if b then scanned t (some e.1) es else r) z
        ∙ sym (
            ap (λ o. or_else o r)
              (value_at-late t (e ∷ es)
                (leb_ℤ→gt e.0 t z, All-map _ (λ x. t <ℤ x.0) es (λ x k. ground arith) up.0)))
  ]

  get_at_lem :
      (b : LagBuffer V) (ts : ℤ)
      → Ascending b.buffer
      → get_at b ts ≡ value_at (sat_sub ts b.lag_ms) b.buffer
  unfolding get_at
  get_at_lem b ts up =
      scanned-value_at (sat_sub ts b.lag_ms) none b.buffer up
      ∙ sym (or_else-none (value_at (sat_sub ts b.lag_ms) b.buffer))

-- What the pushes return, in order.
module _ {V : Type 0} where
  abbrev pub pushes : LagBuffer V → List (ℤ × V) → List (Option V)
  pushes b [] = []
  pushes b (p ∷ ps) = let (lagged, b') = push b p.0 p.1 in lagged ∷ pushes b' ps

  -- What they should: the value one lag ago, of all that was ever pushed.
  abbrev pub lagged_values : ℤ → List (ℤ × V) → List (ℤ × V) → List (Option V)
  lagged_values lag_ms before [] = []
  lagged_values lag_ms before (p ∷ ps) =
      let all = before ++ (p ∷ []) in
      value_at (sat_sub p.0 lag_ms) all ∷ lagged_values lag_ms all ps

  targets_later :
      (lag_ms : ℤ) (p : ℤ × V) (ps : List (ℤ × V))
      → Ascending (p ∷ ps)
      → All (λ q. sat_sub p.0 lag_ms ≤ℤ sat_sub q.0 lag_ms) ps
  targets_later lag_ms p ps up =
      All-map (λ q. p.0 ≤ℤ q.0) _ ps (λ q h. sat_sub_mono p.0 q.0 lag_ms h) up.0

  pushes-lagged :
      (b : LagBuffer V) (before ps : List (ℤ × V)) (low : ℤ)
      → ((t : ℤ) → low ≤ℤ t → value_at t b.buffer ≡ value_at t before)
      → All (λ p. low ≤ℤ sat_sub p.0 b.lag_ms) ps
      → Ascending (b.buffer ++ ps)
      → length b.buffer + length ps ≤ b.max_buffer_size
      → pushes b ps ≡ lagged_values b.lag_ms before ps
  unfolding push
  pushes-lagged b before [] low same after up fits = refl
  pushes-lagged b before (p ∷ ps) low same after up fits =
      let target = sat_sub p.0 b.lag_ms in
      let xs = b.buffer ++ (p ∷ []) in
      let up' = subst Ascending (sym (append_assoc b.buffer (p ∷ []) ps)) up in
      let size = length-append b.buffer (p ∷ []) in
      rw (bounded-fits b.max_buffer_size xs (omega (arith, size))) (
        both_equal
          (front_at-cleaned target xs (Ascending-left xs ps up')
            ∙ value_at-snoc target b.buffer before p (same target after.0))
          (pushes-lagged (record b { buffer = cleaned target xs }) (before ++ (p ∷ [])) ps target
            (λ t h.
              value_at-cleaned target t xs h
              ∙ value_at-snoc t b.buffer before p (same t (omega (arith, after.0, h))))
            (targets_later b.lag_ms p ps (Ascending-right b.buffer (p ∷ ps) up))
            (Ascending-cleaned target xs ps up') (omega (arith, size, length-cleaned target xs))))

  -- Over pushes in ascending time that fit the buffer's size, each push returns the value that was the last
  -- one pushed with a time of at most the push's time less the lag, and nothing when there is none: the
  -- entries that were dropped do not matter.
  pub pushes_lem :
      (lag : ℕ) (max_size : ℕ) (ps : List (ℤ × V))
      → Ascending ps
      → length ps ≤ max_size
      → pushes (with_max_size lag max_size) ps ≡ lagged_values (as_i64 lag) [] ps
  pushes_lem lag max_size [] up fits = refl
  pushes_lem lag max_size (p ∷ ps) up fits =
      pushes-lagged (with_max_size lag max_size) [] (p ∷ ps) (sat_sub p.0 (as_i64 lag))
        (λ t h. refl) (omega arith, targets_later (as_i64 lag) p ps up) up (omega (arith, fits))
