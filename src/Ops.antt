-- ===== src/Ops.antt =====
-- tflo-ops/src: the operators, of which the primitives on time are modelled.
pub mod LagBuffer
mod Tests
