-- ===== src/L1/Batches.antt =====
-- crates/arb-reth-l1/src/reader.rs: a delivered batch and where its bytes came from.
use arbitrum_reth.Prelude.{ℕ, List}
use arbitrum_reth.Derive.Batch.{SequencerBatchDeliveredData}

pub data BatchPayload : Type 0 where
  calldata : List ℕ → BatchPayload
  blob : List ℕ → ℕ → BatchPayload
  nothing : BatchPayload

pub record DeliveredBatch : Type 0 where
  pub sequence_number : ℕ
  pub before_acc : ℕ
  pub after_acc : ℕ
  pub event : SequencerBatchDeliveredData
  pub payload : BatchPayload
