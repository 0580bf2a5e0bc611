-- ===== src/Influx.antt =====
-- tflo-sink-influx: records in the line protocol, and the batches of them that go to the server.
pub mod Line
pub mod Batcher
mod Tests
