-- ===== src/Derive.antt =====
-- crates/arb-reth-derive: from the bytes of an L1 batch to the messages of the L2 chain.
pub mod Flag
pub mod SegmentKind
pub mod L2Kind
pub mod DataLocation
pub mod Message
pub mod Rlp
pub mod Batch
pub mod Delayed
pub mod Multiplexer
pub mod L2Message
