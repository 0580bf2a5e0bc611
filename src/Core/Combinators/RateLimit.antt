-- ===== src/Core/Combinators/RateLimit.antt =====
-- tflo-core/src/combinators/rate_limit.rs. The callback `ts_fn` is a parameter.
use tflo.Prelude.{
  ℕ, zero, suc, ◌<◌, ◌≡◌, refl, true, false, Option, none, some, List, [], ◌∷◌, arith,
  if◌then◌else◌, length, Bool-cases, inl, inr,
}
use tflo.Prelude.Int.{ℤ, ◌≤ℤ◌, ◌<ℤ◌, leb_ℤ}
use tflo.Prelude.I64.{sat_sub}

module _ {ℓ} {T : Type ℓ} (ts_fn : T → ℤ) where
  -- `RateLimit`
  pub record RateLimit : Type ℓ where
    pub iter : List T
    pub interval_ms : ℤ
    pub last_output_ts : Option ℤ

  abbrev pub rate_limit : List T → ℤ → RateLimit
  rate_limit iter interval_ms = record {
    iter = iter;
    interval_ms = interval_ms;
    last_output_ts = none;
  }

  -- The loop of `next` over the items left: the item returned, those left, and the last output.
  unfoldable pub next_from : ℤ → List T → Option ℤ → Option T × List T × Option ℤ
  next_from interval_ms [] last = (none, [], last)
  next_from interval_ms (item ∷ iter) none = (some item, iter, some (ts_fn item))
  next_from interval_ms (item ∷ iter) (some last) =
      let later = next_from interval_ms iter (some last) in
      if leb_ℤ interval_ms (sat_sub (ts_fn item) last)
      then (some item, iter, some (ts_fn item))
      else later

  unfoldable pub next : RateLimit → Option T × RateLimit
  unfolding next_from
  next r =
      let (out, iter, last) = next_from r.interval_ms r.iter r.last_output_ts in
      (out, record r { iter = iter; last_output_ts = last })

  -- What a caller has after one call of `next`, if `rest` is what it takes after that.
  abbrev take_item : (RateLimit → List T) → Option T × RateLimit → List T
  take_item rest (none, r) = []
  take_item rest (some item, r) = item ∷ rest r

  -- A caller that takes at most `n` items.
  unfoldable pub collect : ℕ → RateLimit → List T
  collect zero r = []
  collect (suc n) r = take_item (collect n) (next r)

  -- The rule of the limiter: what may come out of the items, after an output at `last`.
  pub data Limited (interval_ms : ℤ) : Option ℤ → List T → List T → Type ℓ where
    done : (last : Option ℤ) → Limited interval_ms last [] []
    first :
        (item : T) (items out : List T)
        → Limited interval_ms (some (ts_fn item)) items out
        → Limited interval_ms none (item ∷ items) (item ∷ out)
    keep :
        (last : ℤ) (item : T) (items out : List T)
        → interval_ms ≤ℤ sat_sub (ts_fn item) last
        → Limited interval_ms (some (ts_fn item)) items out
        → Limited interval_ms (some last) (item ∷ items) (item ∷ out)
    drop :
        (last : ℤ) (item : T) (items out : List T)
        → sat_sub (ts_fn item) last <ℤ interval_ms
        → Limited interval_ms (some last) items out
        → Limited interval_ms (some last) (item ∷ items) out

  abbrev at : ℤ → List T → Option ℤ → RateLimit
  at interval_ms iter last = record {
    iter = iter;
    interval_ms = interval_ms;
    last_output_ts = last;
  }

  next_keeps :
      (interval_ms : ℤ) (item : T) (iter : List T) (last : ℤ)
      → leb_ℤ interval_ms (sat_sub (ts_fn item) last) ≡ true
      → next (at interval_ms (item ∷ iter) (some last))
        ≡ (some item, at interval_ms iter (some (ts_fn item)))
  unfolding next next_from
  next_keeps interval_ms item iter last enough = rw enough refl

  next_drops :
      (interval_ms : ℤ) (item : T) (iter : List T) (last : ℤ)
      → leb_ℤ interval_ms (sat_sub (ts_fn item) last) ≡ false
      → next (at interval_ms (item ∷ iter) (some last)) ≡ next (at interval_ms iter (some last))
  unfolding next next_from
  next_drops interval_ms item iter last soon = rw soon refl

  next_first :
      (interval_ms : ℤ) (item : T) (iter : List T)
      → next (at interval_ms (item ∷ iter) none)
        ≡ (some item, at interval_ms iter (some (ts_fn item)))
  unfolding next next_from
  next_first interval_ms item iter = refl

  next_done :
      (interval_ms : ℤ) (last : Option ℤ)
      → next (at interval_ms [] last) ≡ (none, at interval_ms [] last)
  unfolding next next_from
  next_done interval_ms last = refl

  collect-Limited :
      (n : ℕ) (interval_ms : ℤ) (iter : List T) (last : Option ℤ)
      → length iter < n
      → Limited interval_ms last iter (collect n (at interval_ms iter last))
  unfolding collect
  collect-Limited zero interval_ms iter last h = absurd (omega arith)
  collect-Limited (suc n) interval_ms [] last h =
      rw (next_done interval_ms last, collect) (done last)
  collect-Limited (suc n) interval_ms (item ∷ iter) none h =
      rw (next_first interval_ms item iter, collect)
        (first item iter _ (collect-Limited n interval_ms iter (some (ts_fn item)) (omega arith)))
  collect-Limited (suc n) interval_ms (item ∷ iter) (some last) h =
      elim (Bool-cases (leb_ℤ interval_ms (sat_sub (ts_fn item) last))) [
        | inl enough ↦
            rw (next_keeps interval_ms item iter last enough, collect)
              (keep last item iter _ (ground arith)
                (collect-Limited n interval_ms iter (some (ts_fn item)) (omega arith)))
        | inr soon ↦
            rw (next_drops interval_ms item iter last soon, collect)
              (drop last item iter _ (ground arith)
                (collect-Limited (suc n) interval_ms iter (some last) (omega arith)))
      ]

  -- A rate limiter, drained, has yielded the first item, and then each item that comes at least the
  -- interval after the last one yielded (the difference saturating), and dropped each that does not.
  pub rate_limit_lem :
      (n : ℕ) (interval_ms : ℤ) (iter : List T)
      → length iter < n
      → Limited interval_ms none iter (collect n (rate_limit iter interval_ms))
  rate_limit_lem n interval_ms iter h = collect-Limited n interval_ms iter none h
