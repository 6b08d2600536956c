-- ===== src/Derive/Multiplexer/Clock.antt =====
-- The running clock of `extract_messages`: what the advance segments add up to, and the time, the L1
-- block and the cursor that a sequencer message gets.
use arbitrum_reth.Derive.SegmentKind.{
  advance_l1_block, advance_timestamp, delayed_messages, l2_message,
}
use arbitrum_reth.Prelude.{
  ℕ, ◌+◌, ◌%◌, ◌^◌, ◌≡◌, none, some, List, [], ◌∷◌, ◌==◌, if◌then◌else◌, Extends,
}
use arbitrum_reth.Derive.SegmentKind
use arbitrum_reth.Derive.Rlp.{Decompress}
use arbitrum_reth.Derive.Batch.{BatchHeader, Segment}
use arbitrum_reth.Derive.Message.{DerivedMessage}
use arbitrum_reth.Derive.Delayed.{DelayedSource}
use arbitrum_reth.Derive.Multiplexer.Step.{Step}
use arbitrum_reth.Prelude.Bytes.{IsU64}
use arbitrum_reth.Derive.Multiplexer.{Walk, DecodeU64, make_l2_message}

-- The delta that a segment of the given kind carries.
unfoldable pub delta : DecodeU64 → ℕ → Segment → ℕ
delta decode_u64 kind seg =
    if seg.kind == kind then elim (decode_u64 seg.payload) [ none ↦ 0 | some d ↦ d ] else 0

-- The specification of the clock: the sum of the deltas of one kind of segment, with no wrapping.
unfoldable pub elapsed : DecodeU64 → ℕ → List Segment → ℕ
elapsed decode_u64 kind [] = 0
elapsed decode_u64 kind (seg ∷ segs) = delta decode_u64 kind seg + elapsed decode_u64 kind segs

unfoldable pub delayed_count : List Segment → ℕ
delayed_count [] = 0
delayed_count (seg ∷ segs) =
    (if seg.kind == SegmentKind.delayed_messages then 1 else 0) + delayed_count segs

module _ (decompress : Decompress) (decode_u64 : DecodeU64) (header : BatchHeader)
    (source : DelayedSource) where
  -- What one segment does to the running variables.
  record Advances (seg : Segment) (w w' : Walk) : Type 0 where
    time :
        w'.timestamp ≡ (w.timestamp + delta decode_u64 SegmentKind.advance_timestamp seg) % 2 ^ 64
    l1_block : w'.block ≡ (w.block + delta decode_u64 SegmentKind.advance_l1_block seg) % 2 ^ 64
    cursor :
        w'.delayed_read
        ≡ w.delayed_read + (if seg.kind == SegmentKind.delayed_messages then 1 else 0)
    grows : Extends w.out w'.out

  abbrev IsClock : Walk → Type 0
  IsClock w = IsU64 w.timestamp × IsU64 w.block

  -- The same over a list of segments.
  record Elapses (segs : List Segment) (w w' : Walk) : Type 0 where
    time :
        w'.timestamp
        ≡ (w.timestamp + elapsed decode_u64 SegmentKind.advance_timestamp segs) % 2 ^ 64
    l1_block : w'.block ≡ (w.block + elapsed decode_u64 SegmentKind.advance_l1_block segs) % 2 ^ 64
    cursor : w'.delayed_read ≡ w.delayed_read + delayed_count segs
    grows : Extends w.out w'.out

  abbrev plain_segment : List ℕ → Segment
  plain_segment bytes = record { kind = SegmentKind.l2_message; payload = bytes }

  -- The message that the segments before it give to a plain L2 segment: the sum of the deltas,
  -- wrapped to 64 bits and clamped to the batch's bounds, and the cursor behind the delayed ones.
  abbrev pub message_after : List Segment → List ℕ → ℕ → DerivedMessage
  message_after pre bytes before =
      make_l2_message header bytes (elapsed decode_u64 SegmentKind.advance_timestamp pre % 2 ^ 64)
        (elapsed decode_u64 SegmentKind.advance_l1_block pre % 2 ^ 64) (before + delayed_count pre)

  abbrev start : ℕ → Walk
  start before = record { timestamp = 0; block = 0; delayed_read = before; out = [] }
