-- ===== src/Core/Combinators/KeepLast.antt =====
-- tflo-core/src/combinators/rate_limit.rs: `rate_limit_keep_last`. The callback `ts_fn` is a parameter.
use tflo.Prelude.{
  ℕ, zero, suc, ◌<◌, ◌≡◌, ◌≢◌, refl, sym, true, false, Option, none, some, List, [], ◌∷◌, arith,
  if◌then◌else◌, length, last?, Bool-cases, inl, inr,
}
use tflo.Prelude.Int.{ℤ, leb_ℤ}
use tflo.Prelude.I64.{sat_sub}

last?-cons_some {ℓ} : {A : Type ℓ} (x : A) (xs : List A) → last? (x ∷ xs) ≢ none
last?-cons_some x [] e = cc
last?-cons_some x (y ∷ xs) e = last?-cons_some y xs e

last?-cons {ℓ} :
    {A : Type ℓ} (x : A) (xs ys : List A) → last? xs ≡ last? ys → last? (x ∷ xs) ≡ last? (x ∷ ys)
last?-cons x [] [] e = refl
last?-cons x [] (y ∷ ys) e = absurd (last?-cons_some y ys (sym e))
last?-cons x (y ∷ xs) [] e = absurd (last?-cons_some y xs e)
last?-cons x (y ∷ xs) (z ∷ ys) e = e

module _ {ℓ} {T : Type ℓ} (ts_fn : T → ℤ) where
  pub record RateLimitKeepLast : Type ℓ where
    pub iter : List T
    pub interval_ms : ℤ
    pub pending : Option (ℤ × T)
    pub last_output_ts : Option ℤ

  abbrev pub rate_limit_keep_last : List T → ℤ → RateLimitKeepLast
  rate_limit_keep_last iter interval_ms = record {
    iter = iter;
    interval_ms = interval_ms;
    pending = none;
    last_output_ts = none;
  }

  -- An item that comes at least the interval after the last output: a pending one goes out first.
  abbrev pub output : ℤ → List T → Option (ℤ × T) → T → Option T × RateLimitKeepLast
  output interval_ms iter (some (pending_ts, pending_item)) item = (
    some pending_item,
    record {
      iter = iter;
      interval_ms = interval_ms;
      pending = some (ts_fn item, item);
      last_output_ts = some pending_ts;
    },
  )
  output interval_ms iter none item = (
    some item,
    record {
      iter = iter;
      interval_ms = interval_ms;
      pending = none;
      last_output_ts = some (ts_fn item);
    },
  )

  abbrev pub item_of : Option (ℤ × T) → Option T
  item_of none = none
  item_of (some (_, item)) = some item

  -- The loop of `next` over the items left.
  unfoldable pub next_from : ℤ → List T → Option (ℤ × T) → Option ℤ → Option T × RateLimitKeepLast
  next_from interval_ms [] pending last = (
    item_of pending,
    record { iter = []; interval_ms = interval_ms; pending = none; last_output_ts = last },
  )
  next_from interval_ms (item ∷ iter) pending none = (
    some item,
    record {
      iter = iter;
      interval_ms = interval_ms;
      pending = pending;
      last_output_ts = some (ts_fn item);
    },
  )
  next_from interval_ms (item ∷ iter) pending (some last) =
      let later = next_from interval_ms iter (some (ts_fn item, item)) (some last) in
      if leb_ℤ interval_ms (sat_sub (ts_fn item) last)
      then output interval_ms iter pending item
      else later

  unfoldable pub next : RateLimitKeepLast → Option T × RateLimitKeepLast
  unfolding next_from
  next r = next_from r.interval_ms r.iter r.pending r.last_output_ts

  -- What a caller has after one call of `next`, if `rest` is what it takes after that.
  abbrev take_item : (RateLimitKeepLast → List T) → Option T × RateLimitKeepLast → List T
  take_item rest (none, r) = []
  take_item rest (some item, r) = item ∷ rest r

  -- A caller that takes at most `n` items.
  unfoldable pub collect : ℕ → RateLimitKeepLast → List T
  collect zero r = []
  collect (suc n) r = take_item (collect n) (next r)

  abbrev at : ℤ → List T → Option (ℤ × T) → Option ℤ → RateLimitKeepLast
  at interval_ms iter pending last = record {
    iter = iter;
    interval_ms = interval_ms;
    pending = pending;
    last_output_ts = last;
  }

  next_soon :
      (interval_ms : ℤ) (item : T) (iter : List T) (pending : Option (ℤ × T)) (last : ℤ)
      → leb_ℤ interval_ms (sat_sub (ts_fn item) last) ≡ false
      → next (at interval_ms (item ∷ iter) pending (some last))
        ≡ next (at interval_ms iter (some (ts_fn item, item)) (some last))
  unfolding next next_from
  next_soon interval_ms item iter pending last soon = rw soon refl

  next-output :
      (interval_ms : ℤ) (item : T) (iter : List T) (pending : Option (ℤ × T)) (last : ℤ)
      → leb_ℤ interval_ms (sat_sub (ts_fn item) last) ≡ true
      → next (at interval_ms (item ∷ iter) pending (some last))
        ≡ output interval_ms iter pending item
  unfolding next next_from
  next-output interval_ms item iter pending last enough = rw enough refl

  collect_end :
      (n : ℕ) (interval_ms : ℤ) (last : Option ℤ) → collect n (at interval_ms [] none last) ≡ []
  unfolding collect next next_from
  collect_end zero interval_ms last = refl
  collect_end (suc n) interval_ms last = refl

  next_end :
      (interval_ms : ℤ) (ts : ℤ) (p : T) (last : Option ℤ)
      → next (at interval_ms [] (some (ts, p)) last) ≡ (some p, at interval_ms [] none last)
  unfolding next next_from
  next_end interval_ms ts p last = refl

  -- The last item that is taken from a state, without and with a pending item.
  Last : ℕ → ℤ → List T → ℤ → Type ℓ
  Last n interval_ms iter last =
      (length iter < n → last? (collect n (at interval_ms iter none (some last))) ≡ last? iter)
      × ((ts : ℤ) (p : T)
          → suc (length iter) < n
          → last? (collect n (at interval_ms iter (some (ts, p)) (some last))) ≡ last? (p ∷ iter))

  collect_soon :
      (n : ℕ) (interval_ms : ℤ) (item : T) (iter : List T) (pending : Option (ℤ × T)) (last : ℤ)
      → leb_ℤ interval_ms (sat_sub (ts_fn item) last) ≡ false
      → collect n (at interval_ms (item ∷ iter) pending (some last))
        ≡ collect n (at interval_ms iter (some (ts_fn item, item)) (some last))
  unfolding collect
  collect_soon zero interval_ms item iter pending last soon = refl
  collect_soon (suc n) interval_ms item iter pending last soon =
      rw (next_soon interval_ms item iter pending last soon, collect) refl

  collect-Last : (n : ℕ) (interval_ms : ℤ) (iter : List T) (last : ℤ) → Last n interval_ms iter last
  unfolding Last collect
  collect-Last zero interval_ms iter last =
      (λ h. absurd (omega arith), λ ts p h. absurd (omega arith))
  collect-Last (suc n) interval_ms [] last = (
    λ h. rw (collect_end (suc n) interval_ms (some last)) refl,
    λ ts p h.
        rw (next_end interval_ms ts p (some last), collect, collect_end n interval_ms (some last))
          refl,
  )
  collect-Last (suc n) interval_ms (item ∷ iter) last =
      elim (Bool-cases (leb_ℤ interval_ms (sat_sub (ts_fn item) last))) [
        | inl enough ↦ (
          λ h.
              let ih = (collect-Last n interval_ms iter (ts_fn item)).0 (omega arith) in
              rw (next-output interval_ms item iter none last enough, collect)
                (last?-cons item (collect n (at interval_ms iter none (some (ts_fn item)))) iter
                  ih),
          λ ts p h.
              let ih = (collect-Last n interval_ms iter ts).1 (ts_fn item) item (omega arith) in
              rw (next-output interval_ms item iter (some (ts, p)) last enough, collect)
                (last?-cons p (collect n (at interval_ms iter (some (ts_fn item, item)) (some ts)))
                  (item ∷ iter) ih),
        )
        | inr soon ↦
            let ih = (collect-Last (suc n) interval_ms iter last).1 (ts_fn item) item in
            (
              λ h.
                  rw (collect_soon (suc n) interval_ms item iter none last soon) (ih (omega arith)),
              λ ts p h.
                  rw (collect_soon (suc n) interval_ms item iter (some (ts, p)) last soon)
                    (ih (omega arith)),
            )
      ]

  next_first :
      (interval_ms : ℤ) (item : T) (iter : List T)
      → next (at interval_ms (item ∷ iter) none none)
        ≡ (some item, at interval_ms iter none (some (ts_fn item)))
  unfolding next next_from
  next_first interval_ms item iter = refl

  -- The last item of the stream is never dropped: it is the last item that a rate limiter that keeps
  -- the last, drained, has yielded, and none is yielded only where there is none.
  pub rate_limit_keep_last_lem :
      (n : ℕ) (interval_ms : ℤ) (iter : List T)
      → length iter < n
      → last? (collect n (rate_limit_keep_last iter interval_ms)) ≡ last? iter
  unfolding collect Last
  rate_limit_keep_last_lem zero interval_ms iter h = absurd (omega arith)
  rate_limit_keep_last_lem (suc n) interval_ms [] h = rw (collect_end (suc n) interval_ms none) refl
  rate_limit_keep_last_lem (suc n) interval_ms (item ∷ iter) h =
      let rest = collect n (at interval_ms iter none (some (ts_fn item))) in
      rw (next_first interval_ms item iter, collect)
        (last?-cons item rest iter ((collect-Last n interval_ms iter (ts_fn item)).0 (omega arith)))
