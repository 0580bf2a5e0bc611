-- ===== src/Kafka.antt =====
-- The crate tflo-connect-kafka: the bookkeeping of the partitions of a consumer.
pub mod Shard
mod Tests
