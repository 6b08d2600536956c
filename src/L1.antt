-- ===== src/L1.antt =====
-- crates/arb-reth-l1: batches and delayed messages read from L1, and the feed messages made of them.
pub mod Errors
pub mod Batches
pub mod Serialize
pub mod Decode
pub mod Feed
pub mod Assemble
pub mod Delayed
pub mod Reader
pub mod Cache
pub mod Range
