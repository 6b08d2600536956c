-- ===== src/Derive/SegmentKind.antt =====
-- crates/arb-reth-derive/src/batch.rs, `segment_kind`: the first byte of a segment.
use arbitrum_reth.Prelude.{ℕ}

abbrev pub l2_message : ℕ
l2_message = 0

abbrev pub l2_message_brotli : ℕ
l2_message_brotli = 1

abbrev pub delayed_messages : ℕ
delayed_messages = 2

abbrev pub advance_timestamp : ℕ
advance_timestamp = 3

abbrev pub advance_l1_block : ℕ
advance_l1_block = 4
