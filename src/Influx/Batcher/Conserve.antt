-- ===== src/Influx/Batcher/Conserve.antt =====
-- tflo-sink-influx/src/lib.rs: no accepted byte is lost or reordered before it is handed to the client.
use mathlib.Core.List.{flatten}
use tflo.Prelude.{
  ℕ, ◌+◌, ◌%◌, ◌^◌, ◌≤◌, ◌<◌, ◌≡◌, ◌⊎◌, refl, sym, ap, ◌∙◌, String, Bool, false, ◌||◌, Option, List,
  [], ◌∷◌, ◌++◌, append-nil, append_assoc, arith, ltb, leb, ◌-◌, is_some_and, min, length,
  length-append, All, All-append, Result, ok, err, Bool-cases, Option-cases, inl, inr,
}
use tflo.Prelude.Bytes.{Bytes}
use tflo.Influx.Line.{newline}
use tflo.Influx.Batcher.{
  Batcher, with_max_age, take, stamped, is_old, push_locked, flush_locked, tick_locked, written,
  max_buffer_bytes_limit,
}
use tflo.Influx.Batcher.Calls.{
  Call, push, flush, tick, answered, Ledger, empty, framed, sent, accept, pushed, confirm, call,
  run,
}

-- The state of a batcher against what has come in and gone out.
pub record Kept (flush_at max : ℕ) (l : Ledger) (b : Batcher) : Type 0 where
  pub flush_at_same : b.flush_at_bytes ≡ flush_at
  pub max_same : b.max_buffer_bytes ≡ max
  pub conserved : flatten l.bodies ++ b.buffered ≡ framed l.accepted
  pub bounded : length b.buffered ≤ max
  pub below : (b.buffered ≡ []) ⊎ (length b.buffered < flush_at)
  pub bodies_bounded : All (λ body. (0 < length body) × (length body ≤ max)) l.bodies
  pub drops_counted : b.dropped_total ≡ l.rejected % 2 ^ 64
  pub flushes_counted : b.flushes_total ≡ l.confirmed % 2 ^ 64

List-cases {ℓ} : {A : Type ℓ} (xs : List A) → (xs ≡ []) ⊎ ((x : A) × (l : List A) × (xs ≡ x ∷ l))
List-cases [] = inl refl
List-cases (x ∷ l) = inr (x, l, refl)

flatten-snoc :
    (bodies : List Bytes) (body : Bytes) → flatten (bodies ++ (body ∷ [])) ≡ flatten bodies ++ body
unfolding flatten
flatten-snoc [] body = append-nil body
flatten-snoc (x ∷ bodies) body =
    rw (flatten-snoc bodies body, append_assoc x (flatten bodies) body) refl

framed-snoc :
    (lines : List Bytes) (line : Bytes)
    → framed (lines ++ (line ∷ [])) ≡ framed lines ++ (line ++ (newline ∷ []))
framed-snoc [] line = append-nil (line ++ (newline ∷ []))
framed-snoc (x ∷ lines) line =
    rw
      (
        framed-snoc lines line,
        append_assoc (x ++ (newline ∷ [])) (framed lines) (line ++ (newline ∷ [])),
      )
      refl

-- To take the buffer keeps all in order.
take-Kept :
    (flush_at max : ℕ) (l : Ledger) (b : Batcher)
    → b.flush_at_bytes ≡ flush_at
    → b.max_buffer_bytes ≡ max
    → flatten l.bodies ++ b.buffered ≡ framed l.accepted
    → 0 < length b.buffered
    → length b.buffered ≤ max
    → All (λ body. (0 < length body) × (length body ≤ max)) l.bodies
    → b.dropped_total ≡ l.rejected % 2 ^ 64
    → b.flushes_total ≡ l.confirmed % 2 ^ 64
    → let (r, b') = take b in Kept flush_at max (sent r l) b'
take-Kept flush_at max l b f m c nonempty small bodies d n = record {
  flush_at_same = f;
  max_same = m;
  conserved = append-nil _ ∙ flatten-snoc l.bodies b.buffered ∙ c;
  bounded = omega arith;
  below = inl refl;
  bodies_bounded = All-append _ l.bodies (b.buffered ∷ []) bodies ((nonempty, small), tt);
  drops_counted = d;
  flushes_counted = n;
}

waits_below :
    (b : Batcher) (n flush_at : ℕ) (old : Bool)
    → b.flush_at_bytes ≡ flush_at
    → (leb b.flush_at_bytes n || old) ≡ false
    → n < flush_at
waits_below b n flush_at old f wait = ground arith

module _ (flush_at max : ℕ) where
  push-Kept :
      (l : Ledger) (b : Batcher) (line : Bytes) (now later : ℕ)
      → Kept flush_at max l b
      → let (r, b') = push_locked b line now later in Kept flush_at max (pushed line r l) b'
  unfolding push_locked
  push-Kept l b line now later k =
      let grown = b.buffered ++ (line ++ (newline ∷ [])) in
      let stamp = stamped b.buffered b.stamp now in
      let longer : length grown ≡ length b.buffered + (length line + 1) =
        length-append b.buffered (line ++ (newline ∷ []))
        ∙ ap (λ n. length b.buffered + n) (length-append line (newline ∷ [])) in
      let same : flatten l.bodies ++ grown ≡ framed (l.accepted ++ (line ∷ [])) =
        sym (append_assoc (flatten l.bodies) b.buffered (line ++ (newline ∷ [])))
        ∙ ap (λ s. s ++ (line ++ (newline ∷ []))) k.conserved
        ∙ sym (framed-snoc l.accepted line) in
      elim (Bool-cases (ltb b.max_buffer_bytes (length b.buffered + (length line + 1)))) [
        | inl full ↦ rw full (record {
          flush_at_same = k.flush_at_same;
          max_same = k.max_same;
          conserved = k.conserved;
          bounded = k.bounded;
          below = k.below;
          bodies_bounded = k.bodies_bounded;
          drops_counted = omega (arith, k.drops_counted);
          flushes_counted = k.flushes_counted;
        })
        | inr fits ↦
            let small : length grown ≤ max = ground (arith, fits, longer, k.max_same) in
            elim (Bool-cases
              (leb b.flush_at_bytes (length grown) || is_old b.max_age stamp later)) [
                | inl trip ↦
                    rw (fits, trip)
                      (take-Kept flush_at max (accept line l)
                        (record b { buffered = grown; stamp = stamp }) k.flush_at_same k.max_same
                        same (omega arith) small k.bodies_bounded k.drops_counted k.flushes_counted)
                | inr wait ↦
                    rw (fits, wait)
                      (record {
                        flush_at_same = k.flush_at_same;
                        max_same = k.max_same;
                        conserved = same;
                        bounded = small;
                        below = inr (
                            waits_below b (length grown) flush_at (is_old b.max_age stamp later)
                              k.flush_at_same wait);
                        bodies_bounded = k.bodies_bounded;
                        drops_counted = k.drops_counted;
                        flushes_counted = k.flushes_counted;
                      })
              ]
      ]

  taken-Kept :
      (l : Ledger) (b : Batcher)
      → Kept flush_at max l b
      → (c : ℕ) (s : Bytes) → b.buffered ≡ c ∷ s
      → let (r, b') = take b in Kept flush_at max (sent r l) b'
  taken-Kept l b k c s e =
      take-Kept flush_at max l b k.flush_at_same k.max_same k.conserved (rw e (omega arith))
        k.bounded k.bodies_bounded k.drops_counted k.flushes_counted

  answered-Kept :
      (l : Ledger) (b : Batcher) (r : Result (Unit {0}) String)
      → Kept flush_at max l b
      → Kept flush_at max (confirm r l) (written r b).1
  answered-Kept l b (err e) k = k
  answered-Kept l b (ok u) k = record {
    flush_at_same = k.flush_at_same;
    max_same = k.max_same;
    conserved = k.conserved;
    bounded = k.bounded;
    below = k.below;
    bodies_bounded = k.bodies_bounded;
    drops_counted = k.drops_counted;
    flushes_counted = omega (arith, k.flushes_counted);
  }

  flush-Kept :
      (l : Ledger) (b : Batcher)
      → Kept flush_at max l b
      → let (r, b') = flush_locked b in Kept flush_at max (sent r l) b'
  unfolding flush_locked
  flush-Kept l b k = elim (List-cases b.buffered) [
    | inl e ↦ rw (e, flush_locked) k
    | inr (c, s, e) ↦ rw (e, flush_locked) (taken-Kept l b k c s e)
  ]

  tick-Kept :
      (l : Ledger) (b : Batcher) (later : ℕ)
      → Kept flush_at max l b
      → let (r, b') = tick_locked b later in Kept flush_at max (sent r l) b'
  unfolding tick_locked
  tick-Kept l b later k = elim (Option-cases b.max_age) [
    | inl e ↦ rw (e, tick_locked) k
    | inr (age, e) ↦ elim (List-cases b.buffered) [
      | inl e' ↦ rw (e, tick_locked) (rw (e', tick_locked) k)
      | inr (c, s, e') ↦
          elim (Bool-cases (is_some_and b.stamp (λ stamp. leb age (later - stamp)))) [
            | inl old ↦
                rw (e, tick_locked) (rw (e', tick_locked) (rw old (taken-Kept l b k c s e')))
            | inr young ↦ rw (e, tick_locked) (rw (e', tick_locked) (rw young k))
          ]
    ]
  ]

  call-Kept :
      (c : Call) (l : Ledger) (b : Batcher)
      → Kept flush_at max l b
      → let (l', b') = call c (l, b) in Kept flush_at max l' b'
  call-Kept (push line now later) l b k = push-Kept l b line now later k
  call-Kept flush l b k = flush-Kept l b k
  call-Kept (tick later) l b k = tick-Kept l b later k
  call-Kept (answered r) l b k = answered-Kept l b r k

  run-Kept :
      (cs : List Call) (l : Ledger) (b : Batcher)
      → Kept flush_at max l b
      → let (l', b') = run cs (l, b) in Kept flush_at max l' b'
  run-Kept [] l b k = k
  run-Kept (c ∷ cs) l b k = let (l', b') = call c (l, b) in run-Kept cs l' b' (call-Kept c l b k)

-- Over any calls on a new batcher, in any order and with the answers of the server coming at any time,
-- the bodies that were taken to be written, one after the other, and then the buffer are exactly the
-- accepted lines in order, each with its newline. The buffer is within the hard limit, and it is empty or
-- below the size that triggers a flush; no body is empty or over the limit. `dropped_total` counts the
-- bytes of the lines that were refused and `flushes_total` the writes that succeeded, modulo 2^64.
pub lines_conserved :
    (flush_at max : ℕ) (max_age : Option ℕ) (cs : List Call)
    → let (l, b) = run cs (empty, with_max_age flush_at max max_age) in
      Kept (min flush_at max_buffer_bytes_limit) (min max max_buffer_bytes_limit) l b
unfolding flatten
lines_conserved flush_at max max_age cs =
    run-Kept (min flush_at max_buffer_bytes_limit) (min max max_buffer_bytes_limit) cs empty
      (with_max_age flush_at max max_age)
      (record {
        flush_at_same = refl;
        max_same = refl;
        conserved = refl;
        bounded = omega arith;
        below = inl refl;
        bodies_bounded = tt;
        drops_counted = refl;
        flushes_counted = refl;
      })
