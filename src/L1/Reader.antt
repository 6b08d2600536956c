-- ===== src/L1/Reader.antt =====
-- crates/arb-reth-l1/src/reader.rs: the reader of the `SequencerInbox` contract. The RPC provider
-- and the ABI decoders stand as a record of functions; a log of L1 is a record of its parts.
pub mod Search
pub mod EventBytes
pub mod Counting
mod Runs
use arbitrum_reth.Derive.DataLocation.{no_data, separate_batch_event, tx_input}
use Prim.Native.String.{String}
use arbitrum_reth.Prelude.{
  ℕ, zero, suc, ◌+◌, ◌-◌, ◌/◌, ◌%◌, ◌^◌, not, Option, none, some, List, [], ◌∷◌, ltb, leb, ◌==◌,
  if◌then◌else◌, length, take, drop, Result, ◌>>=◌, ok_or, map_err, ok, err, stuck,
}
use arbitrum_reth.Prelude.Bytes.{from_be_bytes, to_be_bytes}
use arbitrum_reth.Derive.DataLocation
use arbitrum_reth.Derive.Batch.{parse_sequencer_batch_delivered, SequencerBatchDeliveredData}
use arbitrum_reth.L1.Errors.{L1Error, missing, batch, unsupported_data_location}
use arbitrum_reth.L1.Batches.{BatchPayload, DeliveredBatch, calldata, blob, nothing}
use arbitrum_reth.L1.Decode.{PosterCall, extract_calldata_payload}

pub record Log : Type 0 where
  pub topics : List ℕ
  pub bytes : List ℕ
  pub block_number : Option ℕ
  pub log_index : Option ℕ
  pub transaction_hash : Option ℕ

pub record PostingTx : Type 0 where
  pub input : List ℕ
  pub blob_versioned_hashes : Option (List ℕ)

-- What the reader asks of the provider: `batchCount()` at a block, the `SequencerBatchDelivered`
-- logs of a range, the `SequencerBatchData` logs of a topic in a block, and a transaction by hash.
pub record Provider : Type 0 where
  pub call_batch_count : ℕ → Result L1Error (List ℕ)
  pub batch_logs : ℕ → ℕ → Result L1Error (List Log)
  pub batch_data_logs : List ℕ → ℕ → Result L1Error (List Log)
  pub get_transaction_by_hash : ℕ → Result L1Error (Option PostingTx)

-- The word that the view returns; an empty return stands for a contract not yet deployed.
abbrev batch_count_of : List ℕ → ℕ
batch_count_of out = if ltb (length out) 32 then 0 else from_be_bytes (take 8 (drop 24 out))

unfoldable pub batch_count : Provider → ℕ → Result L1Error ℕ
batch_count provider at_block = do out ← provider.call_batch_count at_block; ok (batch_count_of out)

-- The `while lo < hi` loop of the binary search. The fuel bounds its rounds.
unfoldable pub search_loop : (ℕ → Result L1Error ℕ) → ℕ → ℕ → ℕ → ℕ → Result L1Error ℕ
search_loop count zero lo hi have = if ltb lo hi then stuck else ok lo
search_loop count (suc fuel) lo hi have =
    let mid = lo + (hi - lo) / 2 in
    let left = search_loop count fuel lo mid have in
    let right = search_loop count fuel (mid + 1) hi have in
    if not (ltb lo hi) then ok lo else count mid >>= λ c. if ltb have c then left else right

-- Each round shortens the range by a block at least, so `hi - lo` rounds are enough.
unfoldable pub first_block_with_batch_count_above : Provider → ℕ → ℕ → ℕ → Result L1Error ℕ
unfolding search_loop
first_block_with_batch_count_above provider lo hi have =
    search_loop (batch_count provider) (hi - lo) lo hi have

-- One window's logs: the block of the batch, when it is among them.
abbrev find_batch_log : ℕ → List Log → Result L1Error (Option ℕ)
find_batch_log sequence_number [] = ok none
find_batch_log sequence_number (log ∷ logs) =
    let rest = find_batch_log sequence_number logs in
    elim log.topics [
      | t0 ∷ t1 ∷ t2 ∷ t3 ∷ more ↦
          if t1 % 2 ^ 64 == sequence_number
          then (do b ← ok_or log.block_number (missing "log block_number"); ok (some b))
          else rest
      | topics ↦ rest
    ]

abbrev max_windows : ℕ
max_windows = 64

-- The `for _ in 0..MAX_WINDOWS` loop, with the number of windows left. A window has a block at least:
-- one of none at block 0 would make the source's `from + window - 1` underflow.
unfoldable pub delivery_windows : Provider → ℕ → ℕ → ℕ → ℕ → Result L1Error (Option ℕ)
delivery_windows provider zero sequence_number from window = ok none
delivery_windows provider (suc n) sequence_number from window = do
  logs ← provider.batch_logs from (from + window - 1)
  found ← find_batch_log sequence_number logs
  elim found [
    | some b ↦ ok (some b)
    | none ↦ delivery_windows provider n sequence_number (from + window - 1 + 1) window
  ]

unfoldable pub delivery_block_of_batch : Provider → ℕ → ℕ → ℕ → Result L1Error (Option ℕ)
unfolding delivery_windows
delivery_block_of_batch provider sequence_number from_block window =
    delivery_windows provider max_windows sequence_number from_block window

unfoldable pub fetch_posting_tx : Provider → Log → Result L1Error PostingTx
fetch_posting_tx provider log = do
  tx_hash ← ok_or log.transaction_hash (missing "log transaction_hash")
  tx ← provider.get_transaction_by_hash tx_hash
  ok_or tx (missing "posting transaction")

-- An ABI-encoded `bytes`: an offset word, a length word and the body. Where the source's `64 + len`
-- wraps, the range ends before it starts and there is no body either.
unfoldable pub decode_event_bytes : List ℕ → Result L1Error (List ℕ)
decode_event_bytes bytes =
    let len = from_be_bytes (take 32 (drop 32 bytes)) in
    if ltb (length bytes) 64
    then err (missing "SequencerBatchData head")
    else if leb (2 ^ 64) len
    then err (missing "SequencerBatchData length overflow")
    else if ltb (length bytes) (64 + len)
    then err (missing "SequencerBatchData body")
    else ok (take len (drop 64 bytes))

abbrev unique_log : List Log → Result L1Error Log
unique_log [] = err (missing "SequencerBatchData event")
unique_log (l ∷ []) = ok l
unique_log (l ∷ m ∷ logs) = err (missing "unique SequencerBatchData event")

unfoldable pub fetch_separate_batch_payload : Provider → Log → ℕ → Result L1Error (List ℕ)
unfolding decode_event_bytes
fetch_separate_batch_payload provider log sequence_number = do
  block_number ← ok_or log.block_number (missing "log block_number")
  logs ← provider.batch_data_logs (to_be_bytes 32 sequence_number) block_number
  data_log ← unique_log logs
  decode_event_bytes data_log.bytes

abbrev hashes_or_default : Option (List ℕ) → List ℕ
hashes_or_default none = []
hashes_or_default (some hashes) = hashes

-- The `match event.data_location`.
unfoldable pub locate_payload :
    Provider → PosterCall → PosterCall → PosterCall → Log → ℕ → ℕ → Result L1Error BatchPayload
unfolding fetch_posting_tx fetch_separate_batch_payload
locate_payload provider origin legacy delay_proof log sequence_number location =
    if location == DataLocation.tx_input
    then (do
      tx ← fetch_posting_tx provider log
      p ← extract_calldata_payload origin legacy delay_proof tx.input
      ok (calldata p))
    else if location == DataLocation.separate_batch_event
    then (do p ← fetch_separate_batch_payload provider log sequence_number; ok (calldata p))
    else if location == DataLocation.blob_hashes
    then (do
      tx ← fetch_posting_tx provider log
      block_number ← ok_or log.block_number (missing "log block_number")
      ok (blob (hashes_or_default tx.blob_versioned_hashes) block_number))
    else if location == DataLocation.no_data
    then ok nothing
    else err (unsupported_data_location location)

unfoldable pub resolve_batch :
    Provider → PosterCall → PosterCall → PosterCall → Log → Result L1Error DeliveredBatch
unfolding locate_payload
resolve_batch provider origin legacy delay_proof log = elim log.topics [
  | t0 ∷ t1 ∷ t2 ∷ t3 ∷ more ↦ do
    event ← map_err batch (parse_sequencer_batch_delivered log.bytes)
    payload ←
        locate_payload provider origin legacy delay_proof log (t1 % 2 ^ 64) event.data_location
    ok (record {
      sequence_number = t1 % 2 ^ 64;
      before_acc = t2;
      after_acc = t3;
      event = event;
      payload = payload;
    })
  | topics ↦ err (missing "indexed batch topics")
]
