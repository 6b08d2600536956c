-- ===== src/Derive/Multiplexer/Step.antt =====
-- One segment as a step relation on the running variables, and that `walk_segment` takes such a step
-- whenever it succeeds.
use arbitrum_reth.Derive.SegmentKind.{
  advance_l1_block, advance_timestamp, delayed_messages, l2_message, l2_message_brotli,
}
use arbitrum_reth.Prelude.{
  ℕ, ◌≤◌, ◌<◌, ◌≡◌, ◌⊎◌, inl, inr, some, List, arith, Option-cases, length, Result, ok,
}
use arbitrum_reth.Derive.SegmentKind
use arbitrum_reth.Derive.Rlp.{Decompress}
use arbitrum_reth.Derive.Batch.{BatchHeader, Segment}
use arbitrum_reth.Derive.Delayed.{DelayedSource}
use arbitrum_reth.Derive.Multiplexer.{
  MultiplexerError, Walk, DecodeU64, pull, push_l2, wrapping_add, max_l2_message_size, walk_segment,
}

module _ (decompress : Decompress) (decode_u64 : DecodeU64) (header : BatchHeader)
    (source : DelayedSource) where
  pub data Step (seg : Segment) (w w' : Walk) : Type 0 where
    time :
        (d : ℕ)
        → seg.kind ≡ SegmentKind.advance_timestamp
        → decode_u64 seg.payload ≡ some d
        → w' ≡ record w { timestamp = wrapping_add w.timestamp d }
        → Step seg w w'
    l1_block :
        (d : ℕ)
        → seg.kind ≡ SegmentKind.advance_l1_block
        → decode_u64 seg.payload ≡ some d
        → w' ≡ record w { block = wrapping_add w.block d }
        → Step seg w w'
    plain : seg.kind ≡ SegmentKind.l2_message → w' ≡ push_l2 header seg.payload w → Step seg w w'
    compressed :
        (l2 : List ℕ)
        → seg.kind ≡ SegmentKind.l2_message_brotli
        → decompress seg.payload ≡ some l2
        → length l2 ≤ max_l2_message_size
        → w' ≡ push_l2 header l2 w
        → Step seg w w'
    delayed :
        seg.kind ≡ SegmentKind.delayed_messages
        → w.delayed_read < header.after_delayed_messages
        → pull source w ≡ ok w'
        → Step seg w w'
    skipped : SegmentKind.advance_l1_block < seg.kind → w' ≡ w → Step seg w w'

  abbrev walk : Segment → Walk → Result MultiplexerError Walk
  walk = walk_segment decompress decode_u64 header source

  module _ (seg : Segment) (w w' : Walk) (h : walk seg w ≡ ok w') where
    time_step : seg.kind ≡ 3 → Step seg w w'
    unfolding walk_segment
    time_step k = elim (Option-cases (decode_u64 seg.payload)) [
      | inl e ↦ absurd (ground arith)
      | inr (d, e) ↦ time d k e (ground arith)
    ]

    l1_block_step : seg.kind ≡ 4 → Step seg w w'
    unfolding walk_segment
    l1_block_step k = elim (Option-cases (decode_u64 seg.payload)) [
      | inl e ↦ absurd (ground arith)
      | inr (d, e) ↦ l1_block d k e (ground arith)
    ]

    plain_step : seg.kind ≡ 0 → Step seg w w'
    unfolding walk_segment
    plain_step k = plain k (ground arith)

    compressed_step : seg.kind ≡ 1 → Step seg w w'
    unfolding walk_segment
    compressed_step k = elim (Option-cases (decompress seg.payload)) [
      | inl e ↦ absurd (ground arith)
      | inr (l2, e) ↦ compressed l2 k e (ground arith) (ground arith)
    ]

    delayed_step : seg.kind ≡ 2 → Step seg w w'
    unfolding walk_segment
    delayed_step k = delayed k (ground arith) (ground arith)

    skipped_step : 4 < seg.kind → Step seg w w'
    unfolding walk_segment
    skipped_step k = skipped k (ground arith)

  kind_cases : (k : ℕ) → (k ≡ 0) ⊎ ((k ≡ 1) ⊎ ((k ≡ 2) ⊎ ((k ≡ 3) ⊎ ((k ≡ 4) ⊎ (4 < k)))))
  kind_cases k = grind arith

  pub walk_segment-Step : (seg : Segment) (w w' : Walk) → walk seg w ≡ ok w' → Step seg w w'
  walk_segment-Step seg w w' h = elim (kind_cases seg.kind) [
    | inl k ↦ plain_step seg w w' h k
    | inr (inl k) ↦ compressed_step seg w w' h k
    | inr (inr (inl k)) ↦ delayed_step seg w w' h k
    | inr (inr (inr (inl k))) ↦ time_step seg w w' h k
    | inr (inr (inr (inr (inl k)))) ↦ l1_block_step seg w w' h k
    | inr (inr (inr (inr (inr k)))) ↦ skipped_step seg w w' h k
  ]
