-- ===== src/Genesis.antt =====
-- crates/arb-reth-genesis: the import of a snapshot.
pub mod Stream
