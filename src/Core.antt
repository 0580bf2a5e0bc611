-- ===== src/Core.antt =====
-- The crate tflo-core: the parts of the engine that keep event-time order.
pub mod Reorder
pub mod Timer
pub mod Clock
pub mod Shard
pub mod State
pub mod Dedup
pub mod Graph
pub mod Keyed
pub mod Combinators
pub mod Tests
