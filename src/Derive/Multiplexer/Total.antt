-- ===== src/Derive/Multiplexer/Total.antt =====
-- `extract_messages` ends on every input, and which delayed message it can report missing.
use native.Mathlib.Nat.{le_trans}
use arbitrum_reth.Prelude.{
  ℕ, zero, suc, ◌+◌, ◌≤◌, ◌<◌, ◌≡◌, ◌≢◌, inl, inr, none, List, [], ◌∷◌, arith, ltb, Bool-cases,
  Option-cases, >>=-eq-ok, >>=-ne-stuck, >>=-eq-err, ok, err, stuck,
}
use arbitrum_reth.Derive.Rlp.{Decompress}
use arbitrum_reth.Derive.Batch.{BatchHeader, Segment}
use arbitrum_reth.Derive.Delayed.{DelayedSource}
use arbitrum_reth.Derive.Multiplexer.{
  Walk, DecodeU64, pull, walk_segment, walk_segments, drain, extract_messages, delayed_missing,
}

module _ (source : DelayedSource) where
  pull_read : (w w' : Walk) → pull source w ≡ ok w' → w'.delayed_read ≡ w.delayed_read + 1
  unfolding pull
  pull_read w w' h = elim (Option-cases (source w.delayed_read)) [
    | inl e ↦ absurd (ground arith)
    | inr (dm, e) ↦ ground arith
  ]

  pull-ne-stuck : (w : Walk) → pull source w ≢ stuck
  unfolding pull
  pull-ne-stuck w = ground arith

  module _ (decompress : Decompress) (decode_u64 : DecodeU64) (header : BatchHeader) where
    walk_segment-ne-stuck :
        (seg : Segment) (w : Walk) → walk_segment decompress decode_u64 header source seg w ≢ stuck
    unfolding walk_segment
    walk_segment-ne-stuck seg w = ground (arith, pull-ne-stuck w)

    walk_segments-ne-stuck :
        (segs : List Segment) (w : Walk)
        → walk_segments decompress decode_u64 header source segs w ≢ stuck
    unfolding walk_segments
    walk_segments-ne-stuck [] w = λ e. cc
    walk_segments-ne-stuck (seg ∷ segs) w =
        >>=-ne-stuck _ _ (walk_segment-ne-stuck seg w) (λ w' _. walk_segments-ne-stuck segs w')

    drain-ne-stuck :
        (fuel : ℕ) (w : Walk)
        → header.after_delayed_messages ≤ w.delayed_read + fuel
        → drain decompress decode_u64 header source fuel w ≢ stuck
    unfolding drain
    drain-ne-stuck zero w h = ground arith
    drain-ne-stuck (suc fuel) w h =
        elim (Bool-cases (ltb w.delayed_read header.after_delayed_messages)) [
          | inl more ↦ rw more (
              >>=-ne-stuck (pull source w) _ (pull-ne-stuck w)
                (λ w' e. drain-ne-stuck fuel w' (omega (arith, pull_read w w' e))))
          | inr done ↦ rw done (λ e. cc)
        ]

    -- The multiplexer returns messages or an error on every list of segments, with any source.
    pub extract_messages-ne-stuck :
        (segs : List Segment) (before : ℕ)
        → extract_messages decompress decode_u64 header source segs before ≢ stuck
    unfolding extract_messages
    extract_messages-ne-stuck segs before =
        >>=-ne-stuck _ _ (walk_segments-ne-stuck segs _)
          (λ w _. >>=-ne-stuck _ _ (drain-ne-stuck _ w (omega arith)) (λ w' _ e. cc))

    pull_missing :
        (w : Walk) (i : ℕ)
        → pull source w ≡ err (delayed_missing i)
        → (source i ≡ none) × (w.delayed_read ≡ i)
    unfolding pull
    pull_missing w i h = elim (Option-cases (source w.delayed_read)) [
      | inl e ↦ ground arith
      | inr (dm, e) ↦ absurd (ground arith)
    ]

    walk_segment_missing :
        (seg : Segment) (w : Walk) (i : ℕ)
        → walk_segment decompress decode_u64 header source seg w ≡ err (delayed_missing i)
        → (source i ≡ none) × (w.delayed_read ≡ i) × (i < header.after_delayed_messages)
    unfolding walk_segment
    walk_segment_missing seg w i h = ground (arith, pull_missing w i)

    walk_segment_read :
        (seg : Segment) (w w' : Walk)
        → walk_segment decompress decode_u64 header source seg w ≡ ok w'
        → w.delayed_read ≤ w'.delayed_read
    unfolding walk_segment
    walk_segment_read seg w w' h = ground (arith, pull_read w w')

    abbrev IsMissing : ℕ → ℕ → Type 0
    IsMissing read i = (source i ≡ none) × (read ≤ i) × (i < header.after_delayed_messages)

    walk_segments-IsMissing :
        (segs : List Segment) (w : Walk) (i : ℕ)
        → walk_segments decompress decode_u64 header source segs w ≡ err (delayed_missing i)
        → IsMissing w.delayed_read i
    unfolding walk_segments
    walk_segments-IsMissing [] w i h = cc
    walk_segments-IsMissing (seg ∷ segs) w i h =
        elim (>>=-eq-err (walk_segment decompress decode_u64 header source seg w) _ h) [
          | inl e ↦ grind (arith, walk_segment_missing seg w i e)
          | inr (w', e, r) ↦
              let (absent, lo, hi) = walk_segments-IsMissing segs w' i r in
              (absent, omega (arith, walk_segment_read seg w w' e), hi)
        ]

    walk_segments_read :
        (segs : List Segment) (w w' : Walk)
        → walk_segments decompress decode_u64 header source segs w ≡ ok w'
        → w.delayed_read ≤ w'.delayed_read
    unfolding walk_segments
    walk_segments_read [] w w' h = ground arith
    walk_segments_read (seg ∷ segs) w w' h =
        let (w₁, e, r) = >>=-eq-ok (walk_segment decompress decode_u64 header source seg w) _ h in
        le_trans (walk_segment_read seg w w₁ e) (walk_segments_read segs w₁ w' r)

    drain-IsMissing :
        (fuel : ℕ) (w : Walk) (i : ℕ)
        → drain decompress decode_u64 header source fuel w ≡ err (delayed_missing i)
        → IsMissing w.delayed_read i
    unfolding drain
    drain-IsMissing zero w i h = absurd (ground arith)
    drain-IsMissing (suc fuel) w i h =
        elim (Bool-cases (ltb w.delayed_read header.after_delayed_messages)) [
          | inl more ↦ elim (>>=-eq-err (pull source w) _ (rw more at h)) [
            | inl e ↦ ground (arith, pull_missing w i e)
            | inr (w', e, r) ↦
                let (absent, lo, hi) = drain-IsMissing fuel w' i r in
                (absent, omega (arith, pull_read w w' e), hi)
          ]
          | inr done ↦ absurd (ground arith)
        ]

    -- When the multiplexer reports `DelayedMissing(i)`, the source does not have the index `i`,
    -- and it lies between the starting cursor and the batch's count.
    pub extract_messages_missing :
        (segs : List Segment) (before i : ℕ)
        → extract_messages decompress decode_u64 header source segs before ≡ err (delayed_missing i)
        → (source i ≡ none) × (before ≤ i) × (i < header.after_delayed_messages)
    unfolding extract_messages
    extract_messages_missing segs before i h =
        elim (>>=-eq-err (walk_segments decompress decode_u64 header source segs _) _ h) [
          | inl e ↦ walk_segments-IsMissing segs _ i e
          | inr (w, e, r) ↦ elim (>>=-eq-err (drain decompress decode_u64 header source _ w) _ r) [
            | inl e' ↦
                let (absent, lo, hi) = drain-IsMissing _ w i e' in
                (absent, le_trans (walk_segments_read segs _ w e) lo, hi)
            | inr (w', e', r') ↦ cc
          ]
        ]
