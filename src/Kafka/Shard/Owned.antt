-- ===== src/Kafka/Shard/Owned.antt =====
-- tflo-connect-kafka/src/shard.rs: the owned partitions after any sequence of rebalances.
use text.Mathlib.Text.{◌==◌ as str_eq}
use text.Mathlib.TextEquality.{eq_iff}
use tflo.Prelude.{
  ◌+◌, ◌%◌, ◌^◌, ◌<◌, ◌≡◌, ◌↔◌, refl, sym, ◌∙◌, ap, Bool, true, false, not, ◌&&◌, ◌||◌, Option,
  none, some, List, [], ◌∷◌, length, if◌then◌else◌, arith, Bool-cases, inl, inr, subst,
}
use tflo.Prelude.Int.{eqb_ℤ, eqb_ℤ→eq}
use tflo.Core.Shard.{bump}
use tflo.Kafka.Shard.{
  TopicPartition, RebalanceEvent, assigned, revoked, same, contains, insert, remove, insert_all,
  remove_all, changed, KafkaShardRouter, new, apply_rebalance, owns, assignment_epoch,
}

same_refl : (p : TopicPartition) → same p p ≡ true
same_refl p = rw ((eq_iff p.topic p.topic).1 refl) (ground arith)

same_sound : (p q : TopicPartition) → same p q ≡ true → p ≡ q
same_sound p q h = elim (Bool-cases (str_eq p.topic q.topic)) [
  | inr e ↦ absurd (ground arith)
  | inl e ↦
      let topics : p.topic ≡ q.topic = (eq_iff p.topic q.topic).0 e in
      let partitions : p.partition ≡ q.partition =
        eqb_ℤ→eq p.partition q.partition
          (subst (λ b. (b && eqb_ℤ p.partition q.partition) ≡ true) e h) in
      cc
]

contains-insert :
    (owned : List TopicPartition) (p q : TopicPartition)
    → contains (insert owned p) q ≡ (same p q || contains owned q)
contains-insert owned p q = elim (Bool-cases (contains owned p)) [
  | inr fresh ↦ rw fresh refl
  | inl old ↦ rw old (elim (Bool-cases (same p q)) [
    | inr apart ↦ rw apart refl
    | inl eq ↦ rw eq (ap (contains owned) (sym (same_sound p q eq)) ∙ old)
  ])
]

contains-remove :
    (owned : List TopicPartition) (p q : TopicPartition)
    → contains (remove owned p) q ≡ (not (same p q) && contains owned q)
contains-remove [] p q = ground arith
contains-remove (r ∷ owned) p q = elim (Bool-cases (same r p)) [
  | inl eq ↦ rw eq (
      contains-remove owned p q
      ∙ subst
          (λ x.
            (not (same x q) && contains owned q)
            ≡ (not (same x q) && (same r q || contains owned q)))
          (same_sound r p eq) (ground arith))
  | inr apart ↦ rw apart (elim (Bool-cases (same r q)) [
    | inr other ↦ rw other (contains-remove owned p q)
    | inl here ↦
        let p_apart : same p q ≡ false = elim (Bool-cases (same p q)) [
          | inr e ↦ e
          | inl e ↦ absurd (
              let path = same_sound r q here ∙ sym (same_sound p q e) in
              let hit = subst (λ x. same r x ≡ true) path (same_refl r) in ground arith)
        ] in
        rw (here, p_apart) refl
  ])
]

contains-insert_all :
    (parts owned : List TopicPartition) (q : TopicPartition)
    → contains (insert_all owned parts) q ≡ (contains parts q || contains owned q)
contains-insert_all [] owned q = refl
contains-insert_all (p ∷ parts) owned q =
    contains-insert_all parts (insert owned p) q ∙ rw (contains-insert owned p q) (ground arith)

contains-remove_all :
    (parts owned : List TopicPartition) (q : TopicPartition)
    → contains (remove_all owned parts) q ≡ (not (contains parts q) && contains owned q)
contains-remove_all [] owned q = refl
contains-remove_all (p ∷ parts) owned q =
    contains-remove_all parts (remove owned p) q ∙ rw (contains-remove owned p q) (ground arith)

-- What an event says of a partition.
abbrev pub said : TopicPartition → RebalanceEvent → Option Bool
said p (assigned parts) = if contains parts p then some true else none
said p (revoked parts) = if contains parts p then some false else none

abbrev pub or_else {ℓ} : {A : Type ℓ} → Option A → Option A → Option A
or_else none o = o
or_else (some a) o = some a

-- What the last event that names the partition says of it.
abbrev pub verdict : TopicPartition → List RebalanceEvent → Option Bool
verdict p [] = none
verdict p (e ∷ events) = or_else (verdict p events) (said p e)

abbrev unwrap_or : Option Bool → Bool → Bool
unwrap_or none b = b
unwrap_or (some a) b = a

unfoldable pub run : KafkaShardRouter → List RebalanceEvent → KafkaShardRouter
run r [] = r
run r (e ∷ events) = run (apply_rebalance r e) events

changed-said :
    (owned : List TopicPartition) (e : RebalanceEvent) (p : TopicPartition)
    → contains (changed owned e) p ≡ unwrap_or (said p e) (contains owned p)
changed-said owned (assigned parts) p =
    contains-insert_all parts owned p
    ∙ elim (Bool-cases (contains parts p)) [ inl e ↦ rw e refl | inr e ↦ rw e refl ]
changed-said owned (revoked parts) p =
    contains-remove_all parts owned p
    ∙ elim (Bool-cases (contains parts p)) [ inl e ↦ rw e refl | inr e ↦ rw e refl ]

unwrap_or-or_else :
    (a b : Option Bool) (c : Bool) → unwrap_or a (unwrap_or b c) ≡ unwrap_or (or_else a b) c
unwrap_or-or_else none b c = refl
unwrap_or-or_else (some a) b c = refl

run-verdict :
    (events : List RebalanceEvent) (r : KafkaShardRouter) (p : TopicPartition)
    → owns (run r events) p ≡ unwrap_or (verdict p events) (owns r p)
unfolding run apply_rebalance
run-verdict [] r p = refl
run-verdict (e ∷ events) r p =
    run-verdict events (apply_rebalance r e) p
    ∙ (ap (unwrap_or (verdict p events)) (changed-said r.owned e p)
        ∙ unwrap_or-or_else (verdict p events) (said p e) (contains r.owned p))

run-epoch :
    (events : List RebalanceEvent) (r : KafkaShardRouter)
    → assignment_epoch r < 2 ^ 64
    → assignment_epoch (run r events) ≡ (assignment_epoch r + length events) % 2 ^ 64
unfolding run apply_rebalance bump
run-epoch [] r h = omega arith
run-epoch (e ∷ events) r h = omega (arith, run-epoch events (apply_rebalance r e) (omega arith))

decided : (o : Option Bool) → unwrap_or o false ≡ true → o ≡ some true
decided none h = absurd (cc)
decided (some true) h = refl
decided (some false) h = absurd (cc)

-- After any rebalances a new router owns a partition exactly when the last event that names it has
-- assigned it, and its epoch is the number of the rebalances modulo 2 ^ 64.
pub owns_last_assigned :
    (events : List RebalanceEvent) (p : TopicPartition)
    → ((owns (run new events) p ≡ true) ↔ (verdict p events ≡ some true))
      × (assignment_epoch (run new events) ≡ length events % 2 ^ 64)
owns_last_assigned events p = (
  (
    λ h. decided (verdict p events) (sym (run-verdict events new p) ∙ h),
    λ h. run-verdict events new p ∙ ap (λ o. unwrap_or o false) h,
  ),
  omega (arith, run-epoch events new (omega arith)),
)
