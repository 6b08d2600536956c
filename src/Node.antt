-- ===== src/Node.antt =====
-- crates/arb-reth-node: the ingestion of the sequencer feed.
pub mod Feed
pub mod Sources
