-- ===== src/Cep.antt =====
-- The crate tflo-cep: complex event processing.
pub mod Match
pub mod Step
pub mod Valid
pub mod Runtime
pub mod Advance
pub mod Sweep
pub mod Language
pub mod Engine
pub mod Pattern
pub mod Iter
pub mod Tests
