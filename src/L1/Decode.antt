-- ===== src/L1/Decode.antt =====
-- crates/arb-reth-l1/src/lib.rs: from a resolved payload to derived messages. The four selectors'
-- ABI decoders, brotli and RLP are other crates' code and stand as a record of functions.
use arbitrum_reth.Prelude.{
  ℕ, Bool, true, false, ◌&&◌, Option, List, [], ◌∷◌, ltb, ◌==◌, if◌then◌else◌, length, take, Result,
  ◌>>=◌, ok_or, map_err, ok, err,
}
use arbitrum_reth.Derive.DataLocation
use arbitrum_reth.Derive.Rlp.{HeaderDecode, Decompress}
use arbitrum_reth.Derive.Batch.{
  BatchHeader, Segment, decompress_payload, parse_segments, batch_header,
}
use arbitrum_reth.Derive.Delayed.{DelayedSource}
use arbitrum_reth.Derive.Message.{DerivedMessage}
use arbitrum_reth.Derive.Multiplexer.{DecodeU64, extract_messages}
use arbitrum_reth.L1.Errors.{
  L1Error, calldata_too_short, unknown_selector, abi, batch, mux, unsupported_data_location,
}
use arbitrum_reth.L1.Batches.{BatchPayload, DeliveredBatch, calldata, blob, nothing}

-- The decoders of other crates.
pub record Codec : Type 0 where
  pub header_decode : HeaderDecode
  pub decompress : Decompress
  pub decode_u64 : DecodeU64

-- A batch-poster call of `contracts.rs`: its selector, and the `data` argument of an ABI-encoded
-- call, both made by the `sol!` macro.
pub record PosterCall : Type 0 where
  pub selector : List ℕ
  pub abi_decode_data : List ℕ → Option (List ℕ)

unfoldable pub same_bytes : List ℕ → List ℕ → Bool
same_bytes [] [] = true
same_bytes [] (b ∷ ys) = false
same_bytes (a ∷ xs) [] = false
same_bytes (a ∷ xs) (b ∷ ys) = a == b && same_bytes xs ys

unfoldable pub extract_calldata_payload :
    PosterCall → PosterCall → PosterCall → List ℕ → Result L1Error (List ℕ)
unfolding same_bytes
extract_calldata_payload origin origin_legacy origin_delay_proof input =
    let selector = take 4 input in
    if ltb (length input) 4
    then err (calldata_too_short (length input))
    else if same_bytes selector origin.selector
    then ok_or (origin.abi_decode_data input) abi
    else if same_bytes selector origin_legacy.selector
    then ok_or (origin_legacy.abi_decode_data input) abi
    else if same_bytes selector origin_delay_proof.selector
    then ok_or (origin_delay_proof.abi_decode_data input) abi
    else err (unknown_selector selector)

-- The segments of a payload; an empty payload has none.
unfoldable pub payload_segments : Codec → List ℕ → Result L1Error (List Segment)
payload_segments codec [] = ok []
payload_segments codec (flag ∷ body) = do
  seg_bytes ← map_err batch (decompress_payload codec.decompress (flag ∷ body))
  map_err batch (parse_segments codec.header_decode seg_bytes)

unfoldable pub decode_payload_messages :
    Codec → BatchHeader → List ℕ → ℕ → DelayedSource → Result L1Error (List DerivedMessage)
unfolding payload_segments
decode_payload_messages codec header payload before_delayed_count delayed = do
  segments ← payload_segments codec payload
  map_err mux (
      extract_messages codec.decompress codec.decode_u64 header delayed segments
        before_delayed_count)

abbrev decode_located :
    Codec → DeliveredBatch → ℕ → DelayedSource → BatchPayload → Result L1Error (List DerivedMessage)
decode_located codec b before delayed (calldata p) =
    decode_payload_messages codec (batch_header b.event) p before delayed
decode_located codec b before delayed nothing = ok []
decode_located codec b before delayed (blob hashes block) =
    err (unsupported_data_location DataLocation.blob_hashes)

unfoldable pub decode_batch_messages :
    Codec → DeliveredBatch → ℕ → DelayedSource → Result L1Error (List DerivedMessage)
unfolding decode_payload_messages
decode_batch_messages codec b before_delayed_count delayed =
    decode_located codec b before_delayed_count delayed b.payload
