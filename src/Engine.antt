-- ===== src/Engine.antt =====
-- crates/arb-reth-engine: the driver of Reth's engine tree.
pub mod Sequence
