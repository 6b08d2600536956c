-- ===== src/Sync.antt =====
-- crates/arb-reth-sync: the catch-up from L1, its resume log, its retries and its windows.
pub mod Resume
pub mod Replacement
pub mod Errors
pub mod Plan
pub mod Deliver
pub mod Checkpoint
pub mod Backoff
pub mod Supervise
