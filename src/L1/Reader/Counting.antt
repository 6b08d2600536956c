-- ===== src/L1/Reader/Counting.antt =====
-- A concrete provider for runs: at block `b` its inbox has posted `b / 2` batches, 1,000 at most.
use arbitrum_reth.Prelude.{ℕ, ◌/◌, min, ◌≡◌, ap, false, none, [], arith, ltb, length, ok}
use arbitrum_reth.Prelude.Bytes.{to_be_bytes, low_u64-to_be_bytes, length-to_be_bytes}
use arbitrum_reth.L1.Reader.{Provider, batch_count}

abbrev pub halving : Provider
halving = record {
  call_batch_count = λ b. ok (to_be_bytes 32 (min (b / 2) 1_000));
  batch_logs = λ from to. ok [];
  batch_data_logs = λ topic block. ok [];
  get_transaction_by_hash = λ hash. ok none;
}

pub halving-answers : (b : ℕ) → batch_count halving b ≡ ok (min (b / 2) 1_000)
unfolding batch_count
halving-answers b =
    let v = min (b / 2) 1_000 in
    let n : ltb (length (to_be_bytes 32 v)) 32 ≡ false = ground (arith, length-to_be_bytes 32 v) in
    rw n (ap ok (low_u64-to_be_bytes v (omega arith)))
