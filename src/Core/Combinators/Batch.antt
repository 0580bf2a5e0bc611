-- ===== src/Core/Combinators/Batch.antt =====
-- tflo-core/src/combinators/batch.rs. The callback `key_fn` is a parameter.
use tflo.Prelude.{
  ℕ, zero, suc, ◌*◌, ◌/◌, ◌<◌, ◌≡◌, ◌≢◌, refl, sym, ap, ◌∙◌, Bool, true, false, Option, none, some,
  List, [], ◌∷◌, ◌++◌, arith, if◌then◌else◌, length, All, All-append, append-singleton-append,
  Bool-cases, inl, inr,
}
use tflo.Prelude.Int.{ℤ, pos, neg_part, pos_part, sub_ℕ, ltb_ℤ, eqb_ℤ, eq_of_parts}

-- Division by a positive number, towards zero as in Rust.
abbrev pub div_ℤ : ℤ → ℕ → ℤ
div_ℤ a n = sub_ℕ (pos_part a / n) (neg_part a / n)

-- `(ts / interval) * interval`, for a positive interval.
unfoldable pub boundary_of : ℤ → ℤ → ℤ
boundary_of interval_ms ts =
    let q = div_ℤ ts (pos_part interval_ms) in
    sub_ℕ (pos_part q * pos_part interval_ms) (neg_part q * pos_part interval_ms)

eq_of_eqb : (a b : ℤ) → eqb_ℤ a b ≡ true → a ≡ b
eq_of_eqb a b e = eq_of_parts a b (ground arith)

module _ {ℓ} {T : Type ℓ} (key_fn : T → ℤ) where
  pub record BatchByTime : Type ℓ where
    pub iter : List T
    pub interval_ms : ℤ
    pub current_batch : List T
    pub current_boundary : Option ℤ
    pub finished : Bool

  abbrev pub batch_by_time : List T → ℤ → BatchByTime
  batch_by_time iter interval_ms_raw = record {
    iter = iter;
    interval_ms = if ltb_ℤ interval_ms_raw (pos 1) then pos 1 else interval_ms_raw;
    current_batch = [];
    current_boundary = none;
    finished = false;
  }

  abbrev pub at : ℤ → List T → List T → Option ℤ → Bool → BatchByTime
  at interval_ms iter batch boundary finished' = record {
    iter = iter;
    interval_ms = interval_ms;
    current_batch = batch;
    current_boundary = boundary;
    finished = finished';
  }

  -- The arm `None`: the last batch, if it has an item.
  abbrev pub last_batch : ℤ → List T → Option ℤ → Option (List T) × BatchByTime
  last_batch interval_ms [] boundary = (none, at interval_ms [] [] boundary true)
  last_batch interval_ms (x ∷ batch) boundary =
      (some (x ∷ batch), at interval_ms [] [] boundary true)

  -- The loop of `next` over the items left.
  unfoldable pub next_from : ℤ → List T → List T → Option ℤ → Option (List T) × BatchByTime
  next_from interval_ms [] batch boundary = last_batch interval_ms batch boundary
  next_from interval_ms (item ∷ iter) batch none =
      next_from interval_ms iter (batch ++ (item ∷ []))
        (some (boundary_of interval_ms (key_fn item)))
  next_from interval_ms (item ∷ iter) batch (some b) =
      let boundary = boundary_of interval_ms (key_fn item) in
      let same = next_from interval_ms iter (batch ++ (item ∷ [])) (some b) in
      if eqb_ℤ b boundary
      then same
      else (some batch, at interval_ms iter (item ∷ []) (some boundary) false)

  unfoldable pub next : BatchByTime → Option (List T) × BatchByTime
  unfolding next_from
  next r =
      if r.finished
      then (none, r)
      else next_from r.interval_ms r.iter r.current_batch r.current_boundary

  -- What a caller has after one call of `next`, if `rest` is what it takes after that.
  abbrev take_batch : (BatchByTime → List (List T)) → Option (List T) × BatchByTime → List (List T)
  take_batch rest (none, r) = []
  take_batch rest (some batch, r) = batch ∷ rest r

  -- A caller that takes at most `n` batches.
  unfoldable pub collect : ℕ → BatchByTime → List (List T)
  collect zero r = []
  collect (suc n) r = take_batch (collect n) (next r)

  -- All the items of the batches, in order.
  abbrev pub items : List (List T) → List T
  items [] = []
  items (batch ∷ batches) = batch ++ items batches

  -- The batch has an item, and all its items have the same boundary.
  abbrev pub IsBatch : ℤ → List T → Type ℓ
  IsBatch interval_ms batch =
      (b : ℤ) × (batch ≢ []) × All (λ x. boundary_of interval_ms (key_fn x) ≡ b) batch

  next_last :
      (interval_ms : ℤ) (batch : List T) (b : ℤ)
      → batch ≢ []
      → next (at interval_ms [] batch (some b) false)
        ≡ (some batch, at interval_ms [] [] (some b) true)
  unfolding next next_from
  next_last interval_ms [] b some_item = absurd (some_item refl)
  next_last interval_ms (x ∷ batch) b some_item = refl

  next_finished :
      (n : ℕ) (interval_ms : ℤ) (boundary : Option ℤ)
      → collect n (at interval_ms [] [] boundary true) ≡ []
  unfolding collect next
  next_finished zero interval_ms boundary = refl
  next_finished (suc n) interval_ms boundary = refl

  next_same :
      (interval_ms : ℤ) (item : T) (iter batch : List T) (b : ℤ)
      → eqb_ℤ b (boundary_of interval_ms (key_fn item)) ≡ true
      → next (at interval_ms (item ∷ iter) batch (some b) false)
        ≡ next (at interval_ms iter (batch ++ (item ∷ [])) (some b) false)
  unfolding next next_from
  next_same interval_ms item iter batch b e = rw e refl

  next_other :
      (interval_ms : ℤ) (item : T) (iter batch : List T) (b : ℤ)
      → eqb_ℤ b (boundary_of interval_ms (key_fn item)) ≡ false
      → next (at interval_ms (item ∷ iter) batch (some b) false) ≡ (
        some batch,
        at interval_ms iter (item ∷ []) (some (boundary_of interval_ms (key_fn item))) false,
      )
  unfolding next next_from
  next_other interval_ms item iter batch b e = rw e refl

  append-nonempty : (xs : List T) (y : T) → xs ++ (y ∷ []) ≢ []
  append-nonempty [] y e = cc
  append-nonempty (x ∷ xs) y e = cc

  cons-nonempty : (y : T) (ys : List T) → y ∷ ys ≢ []
  cons-nonempty y ys e = cc

  -- The batches that are taken from a state whose batch has an item.
  Batched : ℕ → ℤ → List T → List T → ℤ → Type ℓ
  Batched n interval_ms iter batch b =
      let out = collect n (at interval_ms iter batch (some b) false) in
      (items out ≡ batch ++ iter) × All (IsBatch interval_ms) out

  collect-Batched :
      (n : ℕ) (interval_ms : ℤ) (iter batch : List T) (b : ℤ)
      → suc (length iter) < n
      → batch ≢ []
      → All (λ x. boundary_of interval_ms (key_fn x) ≡ b) batch
      → Batched n interval_ms iter batch b
  unfolding Batched collect
  collect-Batched zero interval_ms iter batch b h some_item same = absurd (omega arith)
  collect-Batched (suc n) interval_ms [] batch b h some_item same =
      rw (next_last interval_ms batch b some_item, collect, next_finished n interval_ms (some b))
        (refl, ((b, some_item, same), tt))
  collect-Batched (suc n) interval_ms (item ∷ iter) batch b h some_item same =
      elim (Bool-cases (eqb_ℤ b (boundary_of interval_ms (key_fn item)))) [
        | inl e ↦
            let joined =
              All-append (λ x. boundary_of interval_ms (key_fn x) ≡ b) batch (item ∷ []) same
                (sym (eq_of_eqb b (boundary_of interval_ms (key_fn item)) e), tt) in
            let (all, uniform) =
              collect-Batched (suc n) interval_ms iter (batch ++ (item ∷ [])) b (omega arith)
                (append-nonempty batch item) joined in
            rw (next_same interval_ms item iter batch b e, collect)
              (all ∙ append-singleton-append batch item iter, uniform)
        | inr e ↦
            let (all, uniform) =
              collect-Batched n interval_ms iter (item ∷ []) (boundary_of interval_ms (key_fn item))
                (omega arith) (cons-nonempty item []) (refl, tt) in
            rw (next_other interval_ms item iter batch b e, collect)
              (ap (λ l. batch ++ l) all, ((b, some_item, same), uniform))
      ]

  next_first :
      (interval_ms : ℤ) (item : T) (iter : List T)
      → next (at interval_ms (item ∷ iter) [] none false)
        ≡ next
            (at interval_ms iter (item ∷ []) (some (boundary_of interval_ms (key_fn item))) false)
  unfolding next next_from
  next_first interval_ms item iter = refl

  next_empty :
      (interval_ms : ℤ)
      → next (at interval_ms [] [] none false) ≡ (none, at interval_ms [] [] none true)
  unfolding next next_from
  next_empty interval_ms = refl

  -- `batch_by_time`, drained, has yielded every item of the stream once, in order, in batches that have
  -- an item and whose items all have the same boundary.
  pub batch_by_time_lem :
      (n : ℕ) (iter : List T) (interval_ms_raw : ℤ)
      → length iter < n
      → let r = batch_by_time iter interval_ms_raw in
        let out = collect n r in (items out ≡ iter) × All (IsBatch r.interval_ms) out
  unfolding collect Batched
  batch_by_time_lem zero iter interval_ms_raw h = absurd (omega arith)
  batch_by_time_lem (suc n) [] interval_ms_raw h =
      let i = (batch_by_time [] interval_ms_raw).interval_ms in
      rw (next_empty i, collect) (refl, tt)
  batch_by_time_lem (suc n) (item ∷ iter) interval_ms_raw h =
      let i = (batch_by_time (item ∷ iter) interval_ms_raw).interval_ms in
      let b = boundary_of i (key_fn item) in
      rw (next_first i item iter, collect)
        (collect-Batched (suc n) i iter (item ∷ []) b (omega arith) (cons-nonempty item [])
          (refl, tt))
