-- ===== src/Derive/Multiplexer/Shape.antt =====
-- What every sequencer message of a batch looks like: kind, poster, and time bounds.
use arbitrum_reth.Prelude.{
  ℕ, zero, suc, ◌+◌, ◌≤◌, ◌≡◌, refl, inl, inr, none, List, [], ◌∷◌, ◌++◌, arith, ltb, Bool-cases,
  Option-cases, All, All-append, >>=-eq-ok, ok,
}
use arbitrum_reth.Derive.Rlp.{Decompress}
use arbitrum_reth.Derive.Batch.{BatchHeader, Segment}
use arbitrum_reth.Derive.Message.{DerivedMessage, batch_poster_address, kind_l2_message}
use arbitrum_reth.Derive.Delayed.{DelayedSource, to_derived}
use arbitrum_reth.Derive.Multiplexer.Step.{Step, walk_segment-Step}
use arbitrum_reth.Derive.Multiplexer.{
  Walk, DecodeU64, pull, push_l2, make_l2_message, walk_segment, walk_segments, drain,
  extract_messages,
}

module _ (decompress : Decompress) (decode_u64 : DecodeU64) (header : BatchHeader)
    (source : DelayedSource) where
  -- A message that is not from the delayed inbox is the sequencer's, inside the batch's bounds.
  abbrev pub IsSequenced : DerivedMessage → Type 0
  IsSequenced m =
      m.header.request_id ≡ none
      → (m.header.kind ≡ kind_l2_message)
        × (m.header.poster ≡ batch_poster_address)
        × (header.min_timestamp ≤ m.header.timestamp)
        × (m.header.timestamp ≤ header.max_timestamp)
        × (header.min_l1_block ≤ m.header.block_number)
        × (m.header.block_number ≤ header.max_l1_block)

  module _ (times : header.min_timestamp ≤ header.max_timestamp)
      (blocks : header.min_l1_block ≤ header.max_l1_block) where
    make_l2_message-IsSequenced :
        (l2 : List ℕ) (timestamp block read : ℕ)
        → IsSequenced (make_l2_message header l2 timestamp block read)
    unfolding make_l2_message
    make_l2_message-IsSequenced l2 timestamp block read =
        λ _. (refl, refl, omega arith, omega arith, omega arith, omega arith)

    push_l2-All :
        (l2 : List ℕ) (w : Walk) → All IsSequenced w.out → All IsSequenced (push_l2 header l2 w).out
    push_l2-All l2 w h =
        All-append IsSequenced w.out _ h
          (make_l2_message-IsSequenced l2 w.timestamp w.block w.delayed_read, tt)

    pull-All :
        (w w' : Walk) → pull source w ≡ ok w' → All IsSequenced w.out → All IsSequenced w'.out
    unfolding pull to_derived
    pull-All w w' h all = elim (Option-cases (source w.delayed_read)) [
      | inl e ↦ absurd (ground arith)
      | inr (dm, e) ↦
          let p : w'.out ≡ w.out ++ (to_derived dm (w.delayed_read + 1) ∷ []) = ground arith in
          rw p (All-append IsSequenced w.out _ all ((λ q. cc), tt))
    ]

    Step-All :
        (seg : Segment) (w w' : Walk)
        → Step decompress decode_u64 header source seg w w'
        → All IsSequenced w.out
        → All IsSequenced w'.out
    Step-All seg w w' (Step.time d k e h) a = rw h a
    Step-All seg w w' (Step.l1_block d k e h) a = rw h a
    Step-All seg w w' (Step.plain k h) a = rw h (push_l2-All seg.payload w a)
    Step-All seg w w' (Step.compressed l2 k e l h) a = rw h (push_l2-All l2 w a)
    Step-All seg w w' (Step.delayed k lt h) a = pull-All w w' h a
    Step-All seg w w' (Step.skipped k h) a = rw h a

    walk_segments-All :
        (segs : List Segment) (w w' : Walk)
        → walk_segments decompress decode_u64 header source segs w ≡ ok w'
        → All IsSequenced w.out
        → All IsSequenced w'.out
    unfolding walk_segments
    walk_segments-All [] w w' h a = let e : w ≡ w' = cc in rw (← e) a
    walk_segments-All (seg ∷ segs) w w' h a =
        let (w₁, e, r) = >>=-eq-ok (walk_segment decompress decode_u64 header source seg w) _ h in
        walk_segments-All segs w₁ w' r
          (Step-All seg w w₁ (walk_segment-Step decompress decode_u64 header source seg w w₁ e) a)

    drain-All :
        (fuel : ℕ) (w w' : Walk)
        → drain decompress decode_u64 header source fuel w ≡ ok w'
        → All IsSequenced w.out
        → All IsSequenced w'.out
    unfolding drain
    drain-All zero w w' h a = let e : w ≡ w' = ground arith in rw (← e) a
    drain-All (suc fuel) w w' h a =
        elim (Bool-cases (ltb w.delayed_read header.after_delayed_messages)) [
          | inl more ↦
              let (w₁, e, r) = >>=-eq-ok (pull source w) _ (rw more at h) in
              drain-All fuel w₁ w' r (pull-All w w₁ e a)
          | inr done ↦ let e : w ≡ w' = ground arith in rw (← e) a
        ]

    -- Where a batch with non-empty bounds decodes, every message without a request id has the
    -- sequencer's kind and poster, and a time and an L1 block inside the bounds.
    pub extract_messages-IsSequenced :
        (segs : List Segment) (before : ℕ) (out : List DerivedMessage)
        → extract_messages decompress decode_u64 header source segs before ≡ ok out
        → All IsSequenced out
    unfolding extract_messages
    extract_messages-IsSequenced segs before out h =
        let (w, e, r) = >>=-eq-ok (walk_segments decompress decode_u64 header source segs _) _ h in
        let (w', d, o) = >>=-eq-ok (drain decompress decode_u64 header source _ w) _ r in
        let p : w'.out ≡ out = cc in rw (← p) (drain-All _ w w' d (walk_segments-All segs _ w e tt))
