-- ===== src/Derive/Multiplexer.antt =====
-- crates/arb-reth-derive/src/multiplexer.rs: from a batch's segments to its messages. The brotli
-- decompressor and the RLP decoder of a u64 are parameters.
pub mod Step
pub mod Cursor
pub mod Total
pub mod Clock
pub mod Shape
mod Runs
use Prim.Native.String.{String}
use arbitrum_reth.Prelude.{
  ℕ, zero, suc, ◌+◌, ◌-◌, ◌%◌, ◌^◌, min, max, Option, none, List, [], ◌∷◌, ◌++◌, ltb, leb, ◌==◌,
  if◌then◌else◌, length, Result, ◌>>=◌, ok_or, ok, err, stuck,
}
use arbitrum_reth.Derive.SegmentKind
use arbitrum_reth.Derive.Rlp.{Decompress}
use arbitrum_reth.Derive.Batch.{BatchHeader, Segment}
use arbitrum_reth.Derive.Delayed.{DelayedSource, to_derived}
use arbitrum_reth.Derive.Message.{DerivedMessage, batch_poster_address, kind_l2_message}

abbrev pub max_l2_message_size : ℕ
max_l2_message_size = 262_144

pub data MultiplexerError : Type 0 where
  advance_delta : String → MultiplexerError
  brotli : MultiplexerError
  oversize_l2_message : MultiplexerError
  delayed_missing : ℕ → MultiplexerError
  delayed_past_count : ℕ → ℕ → MultiplexerError

-- `v.max(lo).min(hi)`.
unfoldable pub clamp : ℕ → ℕ → ℕ → ℕ
clamp v lo hi = min (max v lo) hi

-- `u64::wrapping_add`.
unfoldable pub wrapping_add : ℕ → ℕ → ℕ
wrapping_add a b = (a + b) % 2 ^ 64

unfoldable pub make_l2_message : BatchHeader → List ℕ → ℕ → ℕ → ℕ → DerivedMessage
unfolding clamp
make_l2_message header l2_msg timestamp block delayed = record {
  header = record {
    kind = kind_l2_message;
    poster = batch_poster_address;
    block_number = clamp block header.min_l1_block header.max_l1_block;
    timestamp = clamp timestamp header.min_timestamp header.max_timestamp;
    request_id = none;
    l1_base_fee = 0;
  };
  l2_msg = l2_msg;
  delayed_messages_read = delayed;
}

-- The running variables of `extract_messages`.
pub record Walk : Type 0 where
  pub timestamp : ℕ
  pub block : ℕ
  pub delayed_read : ℕ
  pub out : List DerivedMessage

-- `u64::decode(&mut data)` of alloy-rlp.
abbrev pub DecodeU64 : Type 0
DecodeU64 = List ℕ → Option ℕ

-- Take the message at the cursor from the source, and advance the cursor.
unfoldable pub pull : DelayedSource → Walk → Result MultiplexerError Walk
unfolding to_derived
pull source w = do
  dm ← ok_or (source w.delayed_read) (delayed_missing w.delayed_read)
  ok (record w {
    delayed_read = w.delayed_read + 1;
    out = w.out ++ (to_derived dm (w.delayed_read + 1) ∷ []);
  })

abbrev pub push_l2 : BatchHeader → List ℕ → Walk → Walk
push_l2 header l2 w = record w {
  out = w.out ++ (make_l2_message header l2 w.timestamp w.block w.delayed_read ∷ []);
}

module _ (decompress : Decompress) (decode_u64 : DecodeU64) (header : BatchHeader)
    (source : DelayedSource) where
  -- The `match seg.kind` of the loop.
  unfoldable pub walk_segment : Segment → Walk → Result MultiplexerError Walk
  walk_segment seg w =
      if seg.kind == SegmentKind.advance_timestamp
      then (do
        d ← ok_or (decode_u64 seg.payload) (advance_delta "timestamp")
        ok (record w { timestamp = wrapping_add w.timestamp d }))
      else if seg.kind == SegmentKind.advance_l1_block
      then (do
        d ← ok_or (decode_u64 seg.payload) (advance_delta "l1block")
        ok (record w { block = wrapping_add w.block d }))
      else if seg.kind == SegmentKind.l2_message
      then ok (push_l2 header seg.payload w)
      else if seg.kind == SegmentKind.l2_message_brotli
      then (do
        l2 ← ok_or (decompress seg.payload) brotli
        (if ltb max_l2_message_size (length l2)
            then err oversize_l2_message
            else ok (push_l2 header l2 w)))
      else if seg.kind == SegmentKind.delayed_messages
      then (if leb header.after_delayed_messages w.delayed_read
          then err (delayed_past_count w.delayed_read header.after_delayed_messages)
          else pull source w)
      else ok w

  -- `for seg in segments`.
  unfoldable pub walk_segments : List Segment → Walk → Result MultiplexerError Walk
  walk_segments [] w = ok w
  walk_segments (seg ∷ segs) w = walk_segment seg w >>= λ w'. walk_segments segs w'

  -- `while delayed_read < header.after_delayed_messages`: the force-included tail.
  unfoldable pub drain : ℕ → Walk → Result MultiplexerError Walk
  drain zero w = if ltb w.delayed_read header.after_delayed_messages then stuck else ok w
  drain (suc fuel) w =
      let rest = pull source w >>= (λ w'. drain fuel w') in
      if ltb w.delayed_read header.after_delayed_messages then rest else ok w

  -- Each round of the tail advances the cursor, so the distance is enough fuel.
  unfoldable pub extract_messages : List Segment → ℕ → Result MultiplexerError (List DerivedMessage)
  unfolding walk_segments drain
  extract_messages segments before_delayed_count = do
    w ←
        walk_segments segments
          (record { timestamp = 0; block = 0; delayed_read = before_delayed_count; out = [] })
    w' ← drain (header.after_delayed_messages - w.delayed_read) w
    ok w'.out
