-- ===== src/Lib.antt =====
-- tflo is a library for computations over streams of events in time: a compute graph, adapters over
-- iterators, event-time services, and a matcher of event patterns (CEP) with a builder, an engine and an
-- iterator adapter. This library models the matcher whole, and of the core the reorder buffer that the
-- matcher uses, the timers, the manual clock, the epochs of shard ownership, the state of one key and
-- the iterator over keys, the checkpointer, the deduplicator and the combinators; and, around the core,
-- the router of shards, the sink for line protocol, the stores over files and over objects, the cursor of
-- the MQTT connector and the lag buffer of the operators.
--
-- The parts, by file; a path such as tflo-cep/src/engine.rs counts from the root of the repository.
--
-- * Prelude and below: native numbers, integers, saturating `i64` and `u64` arithmetic, lists, bytes, and a
--   priority queue. `std::collections::BinaryHeap` is the list of its entries in the order of `pop`.
-- * Core/Reorder (tflo-core/src/reorder.rs): `ReorderBuffer`. Reorder/Calls has sequences of calls,
--   Reorder/Order, Reorder/Conserve and Reorder/Lateness the proofs.
-- * Core/Timer (tflo-core/src/timer.rs): `TimerService`. The order of the heap's vector, which `delete`
--   and `snapshot` see, is a parameter; a theorem that needs it assumes that it is a permutation of the
--   heap, as the standard library documents.
-- * Core/Clock (tflo-core/src/clock.rs): `ManualClock`, with the wrap-around of `fetch_add`.
-- * Core/Shard (tflo-core/src/shard.rs): `AssignmentEpoch` and `LocalShard`.
-- * Core/State (tflo-core/src/state.rs, with `CheckpointPolicy` of tflo-core/src/adapter.rs):
--   `Checkpointer` over the interfaces `AsyncStateStore` and `AsyncCursorStore`. What the stores hold is
--   a type `W` that their calls take and return. The `select!` of a call with the timer is the parameter
--   `race`. State/Calls has sequences of calls; State/Durable states the laws of the stores and of `race`
--   that a theorem on durable state assumes, at the moment that a call returns; State/Late has the writes
--   that outlive their timeout and land later, and the points where a crash can stop a process; State/Held
--   says what each write keeps.
-- * Core/Dedup (tflo-core/src/dedup.rs): `Deduplicator` over the same interface; Dedup/Calls has sequences
--   of calls with restarts and other sinks, Dedup/Writes the laws of the store.
-- * Core/Keyed (tflo-core/src/keyed.rs): `KeyedGraphState`, the state of one key, with its policies for
--   records out of order. The compute graph that it drives is the interface `Graph`. Keyed/Buffer
--   compares the policy `Buffer` with Core/Reorder, Keyed/Frontier has sequences of calls. Keyed/Iter is
--   `TFloKeyedIter`, which routes records to the states of their keys; the order in which the final flush
--   takes the keys out of the hash map is a parameter.
-- * Core/Graph (tflo-core/src/compile/eval/mod.rs): `fire_due_timers` of the compute graph, with the
--   operators and values as the interface `Values`. Its loop has fuel, one more than the heap has
--   entries, and each turn but the last takes one out. Graph/Wakes states what it is to fire timers.
-- * Core/Combinators (tflo-core/src/combinators): `partition`, `rate_limit`,
--   `keyed_window_join`, `rate_limit_keep_last`, `batch_by_time`, `dedupe_by_key`,
--   `window_join`, `group_by_key`, `merge_by_timestamp`.
-- * Cep/Match (tflo-cep/src/matched.rs): `Match` and its accessors.
-- * Cep/Step, Cep/Runtime, Cep/Advance, Cep/Sweep, Cep/Engine (tflo-cep/src/engine.rs): the data of a
--   compiled pattern; the state `Runtime`; `advance_one` on one partial match; the three sweeps of
--   `match_one`; and the calls `push`, `push_at`, `flush` and `tick`. A method that mutates `self`
--   returns the new state, the vector `out` is passed and returned, and `none` is a panic, an index out
--   of range. The sweeps walk the list of partials where the source walks indices and removes in place.
--   Predicates and callbacks are functions.
-- * Cep/Valid, Cep/Language: what a pattern must be for the engine to be safe, and which captures a
--   pattern accepts, stated apart from the engine.
-- * Cep/Engine/Lives, Cep/Engine/Independent: what the matcher would do if each partial match lived on
--   its own, and the proof that it does that.
-- * Cep/Pattern (tflo-cep/src/pattern.rs): the builder and `emit`. The compiler of CEL strings stands on
--   an external interpreter and is a parameter. Pattern/Build has sequences of builder calls.
-- * Cep/Iter (tflo-cep/src/runtime.rs): `MatchPatternIter` over a finite list of events.
-- * Kafka/Shard (tflo-connect-kafka/src/shard.rs): `KafkaShardRouter`, the partitions that a consumer
--   owns, over the epochs of Core/Shard.
-- * Influx/Line (tflo-sink-influx/src/lib.rs): `LineProtocol` and its text, as bytes; Line/Read has a reader
--   of the protocol to compare with. Influx/Batcher: `Batcher` under its lock, with the answers of the
--   server and the clock as arguments; Batcher/Calls has sequences of calls.
-- * StateFiles (tflo-state-files/src/lib.rs): `FileStateStore` over the interfaces `FileSystem` and `Codec`
--   (hex and JSON). What the disk holds is a type `W` that the calls take and return. StateFiles/Files
--   states the laws of a file system with two views of a file, the one that a program sees and the one
--   that outlives a crash; StateFiles/Atomic looks at the disk after each call of a write,
--   StateFiles/Store says what the store answers, which fills the interface of Dedup/Writes where `exists`
--   is true of each file that is there; StateFiles/Listing is `list_keys`, and
--   StateFiles/Held has the laws of the encodings, which the next part shares.
-- * StateS3 (tflo-state-s3/src/lib.rs): `S3StateStore` over the interface `S3Client`, which fills the
--   interface of Dedup/Writes too.
-- * Ops/LagBuffer (tflo-ops/src/primitives/lag_buffer.rs): `LagBuffer` over any type of values.
-- * Mqtt/Cursor (tflo-connect-mqtt/src/lib.rs): `BoundedSet` and `MqttCursor`.
--
-- The engine calls the reorder buffer (`push_at`, `flush`, `tick`), the builder makes the engine's
-- patterns, and the iterator adapter drives the engine. The deduplicator and the checkpointer run over a
-- state store, and the stores over files and over objects are such.
--
-- Fuel: the loop of `advance_one` has the number of the pattern's steps, since it goes round only when
-- it moves to a later step; `next` of the adapter has fuel as an argument, and three turns more than
-- there are events are enough. Both are theorems below. Other loops are by recursion on lists.
--
-- Numbers: `i64` values are integers and `usize` and `u64` values are numbers, with saturation and
-- wrap-around written out where the source has them.
--
-- Not modelled: the rest of the compute graph (floating-point values behind erased types), the other
-- operators of tflo-ops and the indicators of tflo-fintech, the bindings of external engines (tflo-cel,
-- tflo-rego, tflo-rhai), WebAssembly bindings, the other connectors, `SystemClock`, and the remaining
-- combinators.
pub mod Prelude
pub mod Core
pub mod Cep
pub mod Kafka
pub mod Influx
pub mod StateFiles
pub mod StateS3
pub mod Ops
pub mod Mqtt
