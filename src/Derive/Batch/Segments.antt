-- ===== src/Derive/Batch/Segments.antt =====
-- `parse_segments` ends on every input, and reads back a stream of RLP items.
use mathlib.Core.List.{append-nil, append_assoc}
use arbitrum_reth.Prelude.{
  ℕ, zero, suc, ◌≤◌, ◌<◌, ◌≡◌, refl, sym, ap, ◌∙◌, ◌≢◌, inl, inr, false, some, List, [], ◌∷◌, ◌++◌,
  arith, Option-cases, length, take, drop, length-append, length-drop, take-append_length,
  drop-append_length, ok, stuck,
}
use arbitrum_reth.Derive.Rlp.{RlpHeader, HeaderDecode, Consumes, Encodes}
use arbitrum_reth.Derive.Batch.{Segment, push_segment, parse_segments_loop, parse_segments}

parse_segments_loop-ne-stuck :
    (decode : HeaderDecode) (fuel : ℕ) (buf : List ℕ) (segs : List Segment)
    → Consumes decode
    → length buf ≤ fuel
    → parse_segments_loop decode fuel buf segs ≢ stuck
unfolding parse_segments_loop
parse_segments_loop-ne-stuck decode fuel [] segs law h = λ e. cc
parse_segments_loop-ne-stuck decode zero (b ∷ bs) segs law h = absurd (omega arith)
parse_segments_loop-ne-stuck decode (suc fuel) (b ∷ bs) segs law h =
    elim (Option-cases (decode (b ∷ bs))) [
      | inl e ↦ rw (e, parse_segments_loop) (λ p. cc)
      | inr ((header, buf), e) ↦
          rw (e, parse_segments_loop)
            (ground (
              arith,
              parse_segments_loop-ne-stuck decode fuel (drop header.payload_length buf)
                  (push_segment segs (take header.payload_length buf)) law
                  (omega (arith, length-drop header.payload_length buf, law (b ∷ bs) header buf e)),
            ))
    ]

-- For a header decoder that leaves a part of its input, the parser ends on every byte string, well
-- formed or not.
pub parse_segments-ne-stuck :
    (decode : HeaderDecode) (buf : List ℕ) → Consumes decode → parse_segments decode buf ≢ stuck
unfolding parse_segments
parse_segments-ne-stuck decode buf law =
    parse_segments_loop-ne-stuck decode (length buf) buf [] law (omega arith)

-- One round over a well-formed item.
loop_step :
    (decode : HeaderDecode) (fuel : ℕ) (buf rest : List ℕ) (segs : List Segment) (h : RlpHeader)
    → decode buf ≡ some (h, rest)
    → h.list ≡ false
    → h.payload_length ≤ length rest
    → 0 < length buf
    → parse_segments_loop decode (suc fuel) buf segs
      ≡ parse_segments_loop decode fuel
          (drop h.payload_length rest)
          (push_segment segs (take h.payload_length rest))
unfolding parse_segments_loop
loop_step decode fuel [] rest segs h e l p pos = absurd (omega arith)
loop_step decode fuel (b ∷ bs) rest segs h e l p pos = rw (e, parse_segments_loop) (ground arith)

-- A stream of items, and the segments that it stands for: an empty item stands for none.
unfoldable pub stream : (List ℕ → List ℕ) → List (List ℕ) → List ℕ
stream encode [] = []
stream encode (item ∷ items) = encode item ++ stream encode items

unfoldable pub segments_of : List (List ℕ) → List Segment
segments_of [] = []
segments_of ([] ∷ items) = segments_of items
segments_of ((kind ∷ bytes) ∷ items) = record { kind = kind; payload = bytes } ∷ segments_of items

push_segment-segments_of :
    (segs : List Segment) (item : List ℕ) (items : List (List ℕ))
    → push_segment segs item ++ segments_of items ≡ segs ++ segments_of (item ∷ items)
unfolding segments_of
push_segment-segments_of segs [] items = refl
push_segment-segments_of segs (kind ∷ bytes) items =
    append_assoc segs (record { kind = kind; payload = bytes } ∷ []) (segments_of items)

module _ (decode : HeaderDecode) (encode : List ℕ → List ℕ) (law : Encodes decode encode) where
  parse_segments_loop-stream :
      (items : List (List ℕ)) (fuel : ℕ) (segs : List Segment)
      → length (stream encode items) ≤ fuel
      → parse_segments_loop decode fuel (stream encode items) segs ≡ ok (segs ++ segments_of items)
  unfolding stream segments_of parse_segments_loop
  parse_segments_loop-stream [] fuel segs h = ap ok (sym (append-nil segs))
  parse_segments_loop-stream (item ∷ items) zero segs h =
      absurd (omega (arith, h, law item rest, length-append (encode item) rest))
    where
      rest : List ℕ
      rest = stream encode items
  parse_segments_loop-stream (item ∷ items) (suc fuel) segs h =
      loop_step decode fuel (encode item ++ rest) (item ++ rest) segs
        (record { list = false; payload_length = length item }) (law item rest).0 refl
        (omega (arith, length-append item rest))
        (omega (arith, law item rest, length-append (encode item) rest))
      ∙ rw (drop-append_length item rest, take-append_length item rest)
          (parse_segments_loop-stream items fuel (push_segment segs item)
              (omega (arith, h, law item rest, length-append (encode item) rest))
            ∙ ap ok (push_segment-segments_of segs item items))
    where
      rest : List ℕ
      rest = stream encode items

  -- For a header decoder that reads what `encode` writes: the parser gives back every item of a
  -- stream of encoded items, in order, but for the empty ones.
  pub parse_segments-stream :
      (items : List (List ℕ)) → parse_segments decode (stream encode items) ≡ ok (segments_of items)
  unfolding parse_segments
  parse_segments-stream items =
      parse_segments_loop-stream items (length (stream encode items)) [] (omega arith)
