-- ===== src/Kafka/Tests.antt =====
-- A run of the router over four rebalances.
use tflo.Prelude.{◌%◌, ◌^◌, ◌≡◌, ◌↔◌, true, some, List, [], ◌∷◌, length}
use tflo.Prelude.Int.{pos}
use tflo.Kafka.Shard.{
  TopicPartition, RebalanceEvent, assigned, revoked, new, owns, assignment_epoch,
}
use tflo.Kafka.Shard.Owned.{run, verdict, owns_last_assigned}

abbrev orders : TopicPartition
orders = record { topic = "orders"; partition = pos 0 }

abbrev fills : TopicPartition
fills = record { topic = "fills"; partition = pos 3 }

abbrev events : List RebalanceEvent
events =
    assigned (orders ∷ fills ∷ [])
    ∷ revoked (fills ∷ [])
    ∷ assigned (fills ∷ [])
    ∷ revoked (orders ∷ [])
    ∷ []

owns_last_assigned_example :
    ((owns (run new events) fills ≡ true) ↔ (verdict fills events ≡ some true))
    × (assignment_epoch (run new events) ≡ length events % 2 ^ 64)
owns_last_assigned_example = owns_last_assigned events fills
