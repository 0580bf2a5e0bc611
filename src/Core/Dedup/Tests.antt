-- ===== src/Core/Dedup/Tests.antt =====
-- Runs of the deduplicator over a store in memory.
use tflo.Prelude.{
  ℕ, ◌≡◌, ◌≢◌, inl, inr, Option, none, some, List, [], ◌∷◌, ok, All, arith, refl, ◌==◌, ◌&&◌, Bool,
  true, false, Bool-cases, ap,
}
use tflo.Core.State.{AsyncStateStore}
use tflo.Core.State.Durable.{Put}
use tflo.Core.Dedup.{Bytes, new, should_emit, mark_emitted, compose_key}
use tflo.Core.Dedup.Calls
use tflo.Core.Dedup.Calls.{Call, ask, mark, restart, mark_of, run, nothing}
use tflo.Core.Dedup.Writes.{Laws}
use tflo.Core.Dedup.Marks.{marked_never_emitted}

abbrev Store : Type 0
Store = Bytes → Option ℕ

-- A key is the list of its bytes.
abbrev bytes_of : Bytes → Bytes
bytes_of k = k

abbrev eq_bytes : Bytes → Bytes → Bool
eq_bytes [] [] = true
eq_bytes [] (b ∷ bs) = false
eq_bytes (a ∷ as') [] = false
eq_bytes (a ∷ as') (b ∷ bs) = a == b && eq_bytes as' bs

eq_bytes_sound : (a b : Bytes) → eq_bytes a b ≡ true → a ≡ b
eq_bytes_sound [] [] e = refl
eq_bytes_sound [] (b ∷ bs) e = absurd (cc)
eq_bytes_sound (a ∷ as') [] e = absurd (cc)
eq_bytes_sound (a ∷ as') (b ∷ bs) e = elim (Bool-cases (a == b)) [
  | inl same ↦
      let here : a ≡ b = ground arith in
      let rest : as' ≡ bs = eq_bytes_sound as' bs (ground arith) in cc
  | inr diff ↦ ground arith
]

eq_bytes-same : (a : Bytes) → eq_bytes a a ≡ true
eq_bytes-same [] = refl
eq_bytes-same (a ∷ as') = ground (arith, eq_bytes-same as')

abbrev pick : Bool → ℕ → Option ℕ → Option ℕ
pick true s o = some s
pick false s o = o

pick-Put : (k k' : Bytes) (s : ℕ) (o : Option ℕ) → Put o (pick (eq_bytes k k') s o) k k' s
pick-Put k k' s o = elim (Bool-cases (eq_bytes k k')) [
  | inl e ↦ rw e (inr (eq_bytes_sound k k' e, refl))
  | inr e ↦ rw e (inl refl)
]

abbrev memory : AsyncStateStore Store Bytes ℕ
memory = record {
  save = λ k s w. (ok tt, λ k'. pick (eq_bytes k k') s (w k'));
  load = λ k w. (ok (w k), w);
}

ok-injective : (k : Bytes) (w : Store) (o : Option ℕ) → (memory.load k w).0 ≡ ok o → o ≡ w k
ok-injective k w o e = cc

memory-Laws : Laws memory (λ w. w)
memory-Laws = record {
  save_ok = λ k s w done. rw (eq_bytes-same k) refl;
  save_put = λ k k' s w. pick-Put k k' s (w k');
  load_ok = ok-injective;
  load_keeps = λ k k' w. refl;
}

abbrev sink_a : Bytes
sink_a = 65 ∷ []

abbrev sink_b : Bytes
sink_b = 66 ∷ []

abbrev first : Bytes → ℕ
first [] = 0
first (b ∷ bs) = b

b-differs : sink_b ≢ sink_a
b-differs e = omega (arith, ap first e)

abbrev key_k : Bytes
key_k = 107 ∷ []

abbrev clean : Store
clean k = none

-- The namespaces "A" and "B", and a restart after the first mark.
abbrev sink_calls : List (Call Bytes)
sink_calls = ask key_k ∷ mark key_k ∷ restart ∷ mark_of sink_b (108 ∷ []) ∷ []

marked_never_emitted_example :
    let (log, (self, v)) =
      run memory bytes_of eq_bytes 0 sink_calls (nothing, (new sink_a, clean)) in
    All (λ k. (should_emit memory bytes_of eq_bytes self k v).0 ≢ ok true) log.marked
marked_never_emitted_example =
    marked_never_emitted memory (λ w. w) memory-Laws bytes_of eq_bytes 0 sink_a
      ((λ e. omega arith), tt) sink_calls clean (λ k. refl)
      (tt, (tt, (tt, ((((λ e. omega arith), tt), b-differs), tt))))

answers_no :
    let (log, (self, v)) =
      run memory bytes_of eq_bytes 0 sink_calls (nothing, (new sink_a, clean)) in
    (should_emit memory bytes_of eq_bytes self key_k v).0 ≡ ok false
unfolding should_emit run Calls.step mark_emitted compose_key
answers_no = refl

-- With a colon in a namespace two sinks share a key: "a:b" and "c", "a" and "b:c".
shared_key : compose_key (97 ∷ 58 ∷ 98 ∷ []) (99 ∷ []) ≡ compose_key (97 ∷ []) (98 ∷ 58 ∷ 99 ∷ [])
unfolding compose_key
shared_key = refl
