-- ===== src/L1/Assemble/Runs.antt =====
-- Two batches with one plain message each, under toy decoders.
use arbitrum_reth.Derive.SegmentKind.{l2_message}
use arbitrum_reth.Prelude.{
  ℕ, ◌+◌, ◌≡◌, refl, false, none, some, List, [], ◌∷◌, ◌++◌, length, ◌>>=◌, ok,
}
use arbitrum_reth.Derive.Flag
use arbitrum_reth.Derive.SegmentKind
use arbitrum_reth.Derive.Batch.{
  decompress_payload, parse_segments, parse_segments_loop, batch_header,
}
use arbitrum_reth.Derive.Delayed.{no_delayed, Keccak}
use arbitrum_reth.Derive.Multiplexer.{
  extract_messages, walk_segments, walk_segment, drain, make_l2_message, clamp,
}
use arbitrum_reth.L1.Batches.{DeliveredBatch, nothing}
use arbitrum_reth.L1.Decode.{Codec, decode_payload_messages, payload_segments}
use arbitrum_reth.L1.Feed.{
  BroadcastFeedMessage, derived_to_feed_message, derived_to_feed_message_with_stats, base_fee_u64,
}
use arbitrum_reth.L1.Assemble.{
  assemble_feed_messages_with_seed, assemble_loop, batch_to_feed_messages, feed_all,
  derived_to_feed,
}
use arbitrum_reth.L1.Assemble.Numbering.{Numbered, assemble_feed_messages_with_seed-Numbered}
use arbitrum_reth.L1.Assemble.Threading.{assemble_loop-append, stats_after, cursor_after}

abbrev codec : Codec
codec = record {
  header_decode = λ bytes. elim bytes [
    | [] ↦ none
    | n ∷ bs ↦ some (record { list = false; payload_length = n }, bs)
  ];
  decompress = some;
  decode_u64 = λ bytes. none;
}

abbrev text : List ℕ → List ℕ
text bytes = bytes

abbrev hash : Keccak
hash bytes = length bytes

abbrev delivered : DeliveredBatch
delivered = record {
  sequence_number = 3;
  before_acc = 1;
  after_acc = 2;
  event = record {
    delayed_acc = 1;
    after_delayed_messages_read = 0;
    min_timestamp = 100;
    max_timestamp = 200;
    min_l1_block = 10;
    max_l1_block = 20;
    data_location = 0;
  };
  payload = nothing;
}

-- The flag, and one segment of two bytes: the kind and the message.
abbrev payload : List ℕ
payload = Flag.brotli ∷ 2 ∷ SegmentKind.l2_message ∷ 9 ∷ []

abbrev feed : ℕ → BroadcastFeedMessage (List ℕ)
feed n = record {
  sequence_number = n;
  header = record {
    kind = 3;
    sender = 0xA4B000000000000000000073657175656e636572;
    block_number = 10;
    timestamp = 100;
    request_id = none;
    base_fee_l1 = 0;
  };
  l2msg = 9 ∷ [];
  batch_data_stats = none;
  delayed_messages_read = 0;
}

run :
    assemble_feed_messages_with_seed text hash codec
      ((delivered, payload) ∷ (delivered, payload) ∷ [])
      no_delayed
      0
      []
    ≡ ok (feed 0 ∷ feed 1 ∷ [])
unfolding assemble_feed_messages_with_seed assemble_loop batch_to_feed_messages feed_all
    derived_to_feed derived_to_feed_message derived_to_feed_message_with_stats base_fee_u64
    decode_payload_messages payload_segments decompress_payload parse_segments parse_segments_loop
    extract_messages walk_segments walk_segment drain make_l2_message clamp batch_header
run = refl

assemble_feed_messages_with_seed-Numbered_example : Numbered 0 (feed 0 ∷ feed 1 ∷ [])
assemble_feed_messages_with_seed-Numbered_example =
    assemble_feed_messages_with_seed-Numbered text hash codec
      ((delivered, payload) ∷ (delivered, payload) ∷ []) no_delayed 0 [] (feed 0 ∷ feed 1 ∷ []) run

assemble_loop-append_example :
    assemble_loop text hash codec
      ((delivered, payload) ∷ (delivered, payload) ∷ [])
      no_delayed
      []
      0
      0
    ≡ (assemble_loop text hash codec ((delivered, payload) ∷ []) no_delayed [] 0 0 >>= λ ms.
        assemble_loop text hash codec
          ((delivered, payload) ∷ [])
          no_delayed
          (stats_after hash ((delivered, payload) ∷ []) [])
          (cursor_after ((delivered, payload) ∷ []) 0)
          (0 + length ms)
        >>= λ ns. ok (ms ++ ns))
assemble_loop-append_example =
    assemble_loop-append text hash codec no_delayed ((delivered, payload) ∷ [])
      ((delivered, payload) ∷ []) [] 0 0
