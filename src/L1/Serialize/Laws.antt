-- ===== src/L1/Serialize/Laws.antt =====
-- The serialized batch read back, and the fields of a report's body.
use mathlib.Core.List.{append_assoc}
use arbitrum_reth.Prelude.{
  ℕ, ◌+◌, ◌-◌, ◌^◌, ◌≤◌, ◌<◌, ◌≡◌, sym, ap, some, List, [], ◌∷◌, ◌++◌, arith, length, length-append,
  take-drop-append, ok,
}
use arbitrum_reth.Prelude.Bytes.{
  to_be_bytes, IsU64, length-to_be_bytes, from_be_bytes-to_be_bytes, low_u64-to_be_bytes,
}
use arbitrum_reth.Derive.Batch.{parse, batch_header}
use arbitrum_reth.Derive.Batch.Header.{IsU64Header, header_bytes, parse-header_bytes}
use arbitrum_reth.L1.Batches.{DeliveredBatch}
use arbitrum_reth.L1.Serialize.{
  serialize_batch, payload_bytes, count_non_zeros, batch_data_stats, get_range, report_data_hash,
  report_batch_num,
}

-- For a batch whose header fields are u64s: what `serialize_batch` writes is in the framing that
-- `BatchHeader::parse` reads. The header comes back, and behind it the batch's data on L1.
pub parse-serialize_batch :
    (b : DeliveredBatch)
    → IsU64Header (batch_header b.event)
    → parse (serialize_batch b) ≡ ok (batch_header b.event, payload_bytes b.payload)
unfolding serialize_batch
parse-serialize_batch b fits =
    parse-header_bytes (batch_header b.event) (payload_bytes b.payload) fits

count_non_zeros-le : (bytes : List ℕ) → count_non_zeros bytes ≤ length bytes
unfolding count_non_zeros
count_non_zeros-le [] = omega arith
count_non_zeros-le (b ∷ bs) = ground (arith, count_non_zeros-le bs)

-- The statistics of a batch: as many non-zero bytes as bytes at most, and as many bytes as the header
-- and the batch's data on L1 have.
pub batch_data_stats_bounds :
    (b : DeliveredBatch)
    → let stats = batch_data_stats (serialize_batch b) in
      (stats.non_zeros ≤ stats.length) × (stats.length ≡ 40 + length (payload_bytes b.payload))
unfolding batch_data_stats serialize_batch header_bytes
batch_data_stats_bounds b =
    (count_non_zeros-le (serialize_batch b), omega (arith, length-append {0}, length-to_be_bytes))

get_range_field :
    (front field rest : List ℕ) (from to : ℕ)
    → from ≡ length front
    → to ≡ from + length field
    → get_range (front ++ (field ++ rest)) from to ≡ some field
unfolding get_range
get_range_field front field rest from to e f =
    rw (take-drop-append front field rest from (to - from) e (omega arith))
      (ground (arith, length-append front (field ++ rest), length-append field rest))

-- On a report's body, which is 52 bytes of time and poster, the data hash and the batch number in
-- 32 bytes each, and more, with a hash that fits 32 bytes and a u64 number: both readers find
-- their field.
pub report_fields :
    (front rest : List ℕ) (hash number : ℕ)
    → length front ≡ 52
    → hash < 256 ^ 32
    → IsU64 number
    → let body = front ++ (to_be_bytes 32 hash ++ (to_be_bytes 32 number ++ rest)) in
      (report_data_hash body ≡ some hash) × (report_batch_num body ≡ some number)
unfolding report_data_hash report_batch_num
report_fields front rest hash number e h n = (
  rw
      (
        get_range_field front (to_be_bytes 32 hash) (to_be_bytes 32 number ++ rest) 52 84 (sym e)
            (omega (arith, length-to_be_bytes 32 hash)),
        report_data_hash,
      )
      (ap some (from_be_bytes-to_be_bytes 32 hash h)),
  rw
      (
        ← append_assoc front (to_be_bytes 32 hash) (to_be_bytes 32 number ++ rest),
        get_range_field (front ++ to_be_bytes 32 hash) (to_be_bytes 32 number) rest 84 116
            (omega
              (arith, e, length-append front (to_be_bytes 32 hash), length-to_be_bytes 32 hash))
            (omega (arith, length-to_be_bytes 32 number)),
        report_batch_num,
      )
      (ap some (low_u64-to_be_bytes number n)),
)
