-- ===== src/L1/Serialize.antt =====
-- crates/arb-reth-l1/src/batch_serialize.rs: the bytes that a batch posting report hashes.
pub mod Laws
mod Runs
use arbitrum_reth.Prelude.{
  ℕ, ◌+◌, ◌-◌, Option, none, some, List, [], ◌∷◌, ◌++◌, ltb, ◌==◌, if◌then◌else◌, length, take,
  drop,
}
use arbitrum_reth.Prelude.Bytes.{from_be_bytes, to_be_bytes}
use arbitrum_reth.Derive.Flag
use arbitrum_reth.Derive.Batch.{batch_header}
use arbitrum_reth.Derive.Batch.Header.{header_bytes}
use arbitrum_reth.Derive.Delayed.{Keccak}
use arbitrum_reth.L1.Batches.{BatchPayload, DeliveredBatch, calldata, blob, nothing}

-- The versioned hashes, 32 bytes each.
unfoldable pub hash_bytes : List ℕ → List ℕ
hash_bytes [] = []
hash_bytes (h ∷ hs) = to_be_bytes 32 h ++ hash_bytes hs

unfoldable pub payload_bytes : BatchPayload → List ℕ
unfolding hash_bytes
payload_bytes (calldata d) = d
payload_bytes (blob versioned_hashes block_number) = Flag.blob_hashes ∷ hash_bytes versioned_hashes
payload_bytes nothing = []

-- The time-bounds header, then the batch's data on L1.
unfoldable pub serialize_batch : DeliveredBatch → List ℕ
unfolding payload_bytes
serialize_batch b = header_bytes (batch_header b.event) ++ payload_bytes b.payload

unfoldable pub batch_data_hash : Keccak → DeliveredBatch → ℕ
batch_data_hash keccak b = keccak (serialize_batch b)

pub record BatchDataStats : Type 0 where
  pub length : ℕ
  pub non_zeros : ℕ

unfoldable pub count_non_zeros : List ℕ → ℕ
count_non_zeros [] = 0
count_non_zeros (b ∷ bs) = (if b == 0 then 0 else 1) + count_non_zeros bs

unfoldable pub batch_data_stats : List ℕ → BatchDataStats
unfolding count_non_zeros
batch_data_stats serialized = record {
  length = length serialized;
  non_zeros = count_non_zeros serialized;
}

-- `body.get(from..to)`.
unfoldable pub get_range : List ℕ → ℕ → ℕ → Option (List ℕ)
get_range body from to =
    if ltb (length body) to then none else some (take (to - from) (drop from body))

unfoldable pub report_data_hash : List ℕ → Option ℕ
report_data_hash body = elim (get_range body 52 84) [
  | none ↦ none
  | some w ↦ some (from_be_bytes w)
]

unfoldable pub report_batch_num : List ℕ → Option ℕ
report_batch_num body = elim (get_range body 84 116) [
  | none ↦ none
  | some w ↦ some (from_be_bytes (take 8 (drop 24 w)))
]
