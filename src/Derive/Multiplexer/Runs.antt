-- ===== src/Derive/Multiplexer/Runs.antt =====
-- A batch with one delayed message asked for, one plain message, and one force-included message.
use arbitrum_reth.Derive.SegmentKind.{advance_timestamp, delayed_messages, l2_message}
use arbitrum_reth.Prelude.{
  ℕ, ◌≤◌, ◌<◌, ◌≡◌, refl, ◌≢◌, Option, none, some, List, [], ◌∷◌, ◌++◌, arith, All, ok, err, stuck,
}
use arbitrum_reth.Derive.SegmentKind
use arbitrum_reth.Derive.Batch.{BatchHeader, Segment}
use arbitrum_reth.Derive.Message.{DerivedMessage}
use arbitrum_reth.Derive.Delayed.{DelayedMessage, DelayedSource, to_derived, no_delayed}
use arbitrum_reth.Derive.Multiplexer.{
  pull, make_l2_message, walk_segment, walk_segments, drain, extract_messages, wrapping_add,
  delayed_missing,
}
use arbitrum_reth.Derive.Multiplexer.Cursor.{extract_messages-delayed, consumed, delayed_part}
use arbitrum_reth.Derive.Multiplexer.Total.{extract_messages-ne-stuck, extract_messages_missing}
use arbitrum_reth.Derive.Multiplexer.Shape.{extract_messages-IsSequenced, IsSequenced}

abbrev decode_byte : List ℕ → Option ℕ
decode_byte [] = none
decode_byte (b ∷ bs) = some b

abbrev header : BatchHeader
header = record {
  min_timestamp = 100;
  max_timestamp = 200;
  min_l1_block = 10;
  max_l1_block = 20;
  after_delayed_messages = 7;
}

abbrev delayed : ℕ → DelayedMessage
delayed i = record {
  kind = 12;
  sender = 9;
  block_number = 3;
  timestamp = 4;
  inbox_seq_num = i;
  base_fee_l1 = 1;
  body = 5 ∷ [];
  before_inbox_acc = 0;
}

abbrev source : DelayedSource
source i = some (delayed i)

abbrev before_l2 : List Segment
before_l2 =
    record { kind = SegmentKind.advance_timestamp; payload = 150 ∷ [] }
    ∷ record { kind = SegmentKind.delayed_messages; payload = [] }
    ∷ []

abbrev segments : List Segment
segments = before_l2 ++ (record { kind = SegmentKind.l2_message; payload = 1 ∷ 2 ∷ [] } ∷ [])

abbrev out : List DerivedMessage
out =
    to_derived (delayed 5) 6
    ∷ make_l2_message header (1 ∷ 2 ∷ []) 150 0 6
    ∷ to_derived (delayed 6) 7
    ∷ []

run : extract_messages some decode_byte header source segments 5 ≡ ok out
unfolding extract_messages walk_segments walk_segment drain pull wrapping_add
run = refl

missing_run : extract_messages some decode_byte header no_delayed [] 5 ≡ err (delayed_missing 5)
unfolding extract_messages walk_segments drain pull no_delayed
missing_run = refl

extract_messages-delayed_example : consumed source 5 2 ≡ some (delayed_part out)
extract_messages-delayed_example =
    extract_messages-delayed source 5 some decode_byte header segments out run

extract_messages-ne-stuck_example :
    extract_messages some decode_byte header source segments 5 ≢ stuck
extract_messages-ne-stuck_example =
    extract_messages-ne-stuck source some decode_byte header segments 5

extract_messages_missing_example : (no_delayed 5 ≡ none) × (5 ≤ 5) × (5 < 7)
extract_messages_missing_example =
    extract_messages_missing no_delayed some decode_byte header [] 5 5 missing_run

extract_messages-IsSequenced_example : All (IsSequenced some decode_byte header source) out
extract_messages-IsSequenced_example =
    extract_messages-IsSequenced some decode_byte header source (omega arith) (omega arith) segments
      5 out run
