-- ===== src/Kafka/Shard.antt =====
-- tflo-connect-kafka/src/shard.rs: the partitions that a consumer owns, by the rebalance events of its
-- group. The set of owned partitions is a list, and its lock is never poisoned.
pub mod Owned
use text.Mathlib.Text.{◌==◌ as str_eq}
use tflo.Prelude.{
  ℕ, String, ◌+◌, ◌%◌, ◌^◌, ◌≡◌, refl, sym, ◌∙◌, ap, Bool, true, false, not, ◌&&◌, ◌||◌, Option,
  none, some, List, [], ◌∷◌, length, if◌then◌else◌, arith, Bool-cases, inl, inr, subst,
}
use tflo.Prelude.Int.{ℤ, eqb_ℤ, eqb_ℤ→eq}
use tflo.Core.Shard.{AssignmentEpoch, bump}
use tflo.Core.Shard

pub record TopicPartition : Type 0 where
  pub topic : String
  pub partition : ℤ

pub data RebalanceEvent : Type 0 where
  assigned revoked : List TopicPartition → RebalanceEvent

-- The derived `eq`.
abbrev pub same : TopicPartition → TopicPartition → Bool
same a b = str_eq a.topic b.topic && eqb_ℤ a.partition b.partition

abbrev pub contains : List TopicPartition → TopicPartition → Bool
contains [] p = false
contains (q ∷ owned) p = same q p || contains owned p

abbrev pub insert : List TopicPartition → TopicPartition → List TopicPartition
insert owned p = if contains owned p then owned else p ∷ owned

abbrev pub remove : List TopicPartition → TopicPartition → List TopicPartition
remove [] p = []
remove (q ∷ owned) p = if same q p then remove owned p else q ∷ remove owned p

-- The state store is kept for the host and never called.
pub record KafkaShardRouter : Type 0 where
  pub owned : List TopicPartition
  pub epoch : AssignmentEpoch
  pub events_dropped_stale_epoch : ℕ

abbrev pub new : KafkaShardRouter
new = record { owned = []; epoch = Shard.new; events_dropped_stale_epoch = 0 }

-- The two loops of `apply_rebalance`.
abbrev pub insert_all : List TopicPartition → List TopicPartition → List TopicPartition
insert_all owned [] = owned
insert_all owned (p ∷ parts) = insert_all (insert owned p) parts

abbrev pub remove_all : List TopicPartition → List TopicPartition → List TopicPartition
remove_all owned [] = owned
remove_all owned (p ∷ parts) = remove_all (remove owned p) parts

abbrev pub changed : List TopicPartition → RebalanceEvent → List TopicPartition
changed owned (assigned parts) = insert_all owned parts
changed owned (revoked parts) = remove_all owned parts

unfoldable pub apply_rebalance : KafkaShardRouter → RebalanceEvent → KafkaShardRouter
unfolding bump
apply_rebalance r event = record r { owned = changed r.owned event; epoch = (bump r.epoch).1 }

abbrev pub record_stale_event : KafkaShardRouter → KafkaShardRouter
record_stale_event r = record r {
  events_dropped_stale_epoch = (r.events_dropped_stale_epoch + 1) % 2 ^ 64;
}

abbrev pub owns : KafkaShardRouter → TopicPartition → Bool
owns r p = contains r.owned p

abbrev pub assignment_epoch : KafkaShardRouter → ℕ
assignment_epoch r = Shard.get r.epoch
