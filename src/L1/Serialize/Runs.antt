-- ===== src/L1/Serialize/Runs.antt =====
-- A calldata batch, and the body of a report.
use arbitrum_reth.Prelude.{ℕ, ◌≡◌, List, [], ◌∷◌, ◌++◌, arith, replicate, ok}
use arbitrum_reth.Prelude.Bytes.{to_be_bytes}
use arbitrum_reth.Derive.Batch.{parse, batch_header}
use arbitrum_reth.Derive.Batch.Header.{IsU64Header}
use arbitrum_reth.L1.Batches.{DeliveredBatch, calldata}
use arbitrum_reth.L1.Serialize.{serialize_batch, payload_bytes}
use arbitrum_reth.L1.Serialize.Laws.{parse-serialize_batch}

abbrev delivered : DeliveredBatch
delivered = record {
  sequence_number = 3;
  before_acc = 1;
  after_acc = 2;
  event = record {
    delayed_acc = 1;
    after_delayed_messages_read = 7;
    min_timestamp = 100;
    max_timestamp = 200;
    min_l1_block = 10;
    max_l1_block = 20;
    data_location = 0;
  };
  payload = calldata (0 ∷ 5 ∷ 6 ∷ []);
}

delivered_fits : IsU64Header (batch_header delivered.event)
unfolding batch_header
delivered_fits = record {
  min_timestamp_fits = omega arith;
  max_timestamp_fits = omega arith;
  min_l1_block_fits = omega arith;
  max_l1_block_fits = omega arith;
  after_delayed_fits = omega arith;
}

parse-serialize_batch_example :
    parse (serialize_batch delivered)
    ≡ ok (batch_header delivered.event, payload_bytes delivered.payload)
parse-serialize_batch_example = parse-serialize_batch delivered delivered_fits

abbrev body : List ℕ
body = replicate 52 0 ++ (to_be_bytes 32 77 ++ (to_be_bytes 32 5 ++ (1 ∷ [])))
