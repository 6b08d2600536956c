-- ===== src/Derive/DataLocation.antt =====
-- crates/arb-reth-derive/src/batch.rs, `data_location`: where a batch's bytes were posted.
use arbitrum_reth.Prelude.{ℕ}

abbrev pub tx_input : ℕ
tx_input = 0

abbrev pub separate_batch_event : ℕ
separate_batch_event = 1

abbrev pub no_data : ℕ
no_data = 2

abbrev pub blob_hashes : ℕ
blob_hashes = 3
