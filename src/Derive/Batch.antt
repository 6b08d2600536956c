-- ===== src/Derive/Batch.antt =====
-- crates/arb-reth-derive/src/batch.rs: the framing of a sequencer batch. The brotli decompressor and
-- the RLP header decoder stand as parameters.
pub mod Header
pub mod Segments
mod Runs
use Prim.Native.String.{String}
use arbitrum_reth.Prelude.{
  ℕ, zero, suc, ◌+◌, ◌*◌, List, [], ◌∷◌, ◌++◌, Bool, not, Option, none, some, ltb, ◌==◌,
  if◌then◌else◌, length, take, drop, get_elem?, Result, ok, err, stuck,
}
use arbitrum_reth.Prelude.Bytes.{from_be_bytes}
use arbitrum_reth.Derive.Flag
use arbitrum_reth.Derive.Rlp.{RlpHeader, HeaderDecode, Decompress}

abbrev pub batch_header_len : ℕ
batch_header_len = 40

pub record BatchHeader : Type 0 where
  pub min_timestamp : ℕ
  pub max_timestamp : ℕ
  pub min_l1_block : ℕ
  pub max_l1_block : ℕ
  pub after_delayed_messages : ℕ

pub data BatchError : Type 0 where
  truncated : BatchError
  unsupported_flag : ℕ → BatchError
  brotli : BatchError
  rlp : String → BatchError
  event_data_wrong_len : ℕ → BatchError

-- `u64::from_be_bytes(data[o..o + 8])`.
abbrev pub u64_at : List ℕ → ℕ → ℕ
u64_at bytes o = from_be_bytes (take 8 (drop o bytes))

-- `BatchHeader::parse`: the header and the remaining payload.
unfoldable pub parse : List ℕ → Result BatchError (BatchHeader × List ℕ)
parse bytes =
    if ltb (length bytes) batch_header_len
    then err truncated
    else ok (
      record {
        min_timestamp = u64_at bytes 0;
        max_timestamp = u64_at bytes 8;
        min_l1_block = u64_at bytes 16;
        max_l1_block = u64_at bytes 24;
        after_delayed_messages = u64_at bytes 32;
      },
      drop batch_header_len bytes,
    )

pub record SequencerBatchDeliveredData : Type 0 where
  pub delayed_acc : ℕ
  pub after_delayed_messages_read : ℕ
  pub min_timestamp : ℕ
  pub max_timestamp : ℕ
  pub min_l1_block : ℕ
  pub max_l1_block : ℕ
  pub data_location : ℕ

unfoldable pub batch_header : SequencerBatchDeliveredData → BatchHeader
batch_header d = record {
  min_timestamp = d.min_timestamp;
  max_timestamp = d.max_timestamp;
  min_l1_block = d.min_l1_block;
  max_l1_block = d.max_l1_block;
  after_delayed_messages = d.after_delayed_messages_read;
}

-- The `i`-th 32-byte word, and the number in its low 8 bytes.
abbrev pub word : List ℕ → ℕ → List ℕ
word bytes i = take 32 (drop (i * 32) bytes)

abbrev pub u64_word : List ℕ → ℕ → ℕ
u64_word bytes i = u64_at (word bytes i) 24

-- `word(6)[31]`: the lowest byte of the last word.
abbrev pub low_byte : List ℕ → ℕ
low_byte w = from_be_bytes (take 1 (drop 31 w))

unfoldable pub parse_sequencer_batch_delivered :
    List ℕ → Result BatchError SequencerBatchDeliveredData
parse_sequencer_batch_delivered log_data =
    if not (length log_data == 7 * 32)
    then err (event_data_wrong_len (length log_data))
    else ok (record {
      delayed_acc = from_be_bytes (word log_data 0);
      after_delayed_messages_read = u64_word log_data 1;
      min_timestamp = u64_word log_data 2;
      max_timestamp = u64_word log_data 3;
      min_l1_block = u64_word log_data 4;
      max_l1_block = u64_word log_data 5;
      data_location = low_byte (word log_data 6);
    })

abbrev brotli_body : Option (List ℕ) → Result BatchError (List ℕ)
brotli_body none = err brotli
brotli_body (some bytes) = ok bytes

unfoldable pub decompress_payload : Decompress → List ℕ → Result BatchError (List ℕ)
decompress_payload decompress [] = err truncated
decompress_payload decompress (flag ∷ body) =
    if flag == Flag.brotli then brotli_body (decompress body) else err (unsupported_flag flag)

pub record Segment : Type 0 where
  pub kind : ℕ
  pub payload : List ℕ

-- `if let Some((&kind, data)) = seg.split_first() { segs.push(..) }`.
abbrev pub push_segment : List Segment → List ℕ → List Segment
push_segment segs [] = segs
push_segment segs (kind ∷ bytes) = segs ++ (record { kind = kind; payload = bytes } ∷ [])

-- The `while !buf.is_empty()` loop. The fuel bounds its rounds.
unfoldable pub parse_segments_loop :
    HeaderDecode → ℕ → List ℕ → List Segment → Result BatchError (List Segment)
parse_segments_loop decode fuel [] segs = ok segs
parse_segments_loop decode zero (b ∷ bs) segs = stuck
parse_segments_loop decode (suc fuel) (b ∷ bs) segs = elim (decode (b ∷ bs)) [
  | none ↦ err (rlp "segment header")
  | some (header, buf) ↦
      let rest =
        parse_segments_loop decode fuel (drop header.payload_length buf)
          (push_segment segs (take header.payload_length buf)) in
      if header.list
      then err (rlp "segment is a list, expected string")
      else if ltb (length buf) header.payload_length
      then err (rlp "segment length exceeds data")
      else rest
]

-- Each round takes a byte at least, so `length buf` rounds are enough.
unfoldable pub parse_segments : HeaderDecode → List ℕ → Result BatchError (List Segment)
unfolding parse_segments_loop
parse_segments decode buf = parse_segments_loop decode (length buf) buf []
