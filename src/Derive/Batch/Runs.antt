-- ===== src/Derive/Batch/Runs.antt =====
-- A header, and a stream of three items, one of them empty, under a toy RLP of short items.
use arbitrum_reth.Prelude.{
  ℕ, ◌<◌, ◌≡◌, refl, ◌↔◌, false, none, some, List, [], ◌∷◌, ◌++◌, arith, length, ok, err,
}
use arbitrum_reth.Derive.Rlp.{HeaderDecode, Consumes, Encodes}
use arbitrum_reth.Derive.Batch.{BatchHeader, parse, parse_segments, truncated}
use arbitrum_reth.Derive.Batch.Header.{header_bytes, parse-header_bytes, parse_short}
use arbitrum_reth.Derive.Batch.Segments.{parse_segments-stream, stream, segments_of}

-- The toy code writes a length byte in front of an item.
abbrev decode : HeaderDecode
decode [] = none
decode (n ∷ bs) = some (record { list = false; payload_length = n }, bs)

abbrev encode : List ℕ → List ℕ
encode bytes = length bytes ∷ bytes

decode-Consumes : Consumes decode
decode-Consumes [] h rest e = cc
decode-Consumes (n ∷ bs) h rest e = let p : bs ≡ rest = cc in rw (← p) (omega arith, omega arith)

decode-Encodes : Encodes decode encode
decode-Encodes bytes tail = (refl, omega arith, omega arith)

abbrev header : BatchHeader
header = record {
  min_timestamp = 1;
  max_timestamp = 2;
  min_l1_block = 3;
  max_l1_block = 4;
  after_delayed_messages = 5;
}

parse-header_bytes_example : parse (header_bytes header ++ (9 ∷ [])) ≡ ok (header, 9 ∷ [])
parse-header_bytes_example = parse-header_bytes header (9 ∷ []) (record {
  min_timestamp_fits = omega arith;
  max_timestamp_fits = omega arith;
  min_l1_block_fits = omega arith;
  max_l1_block_fits = omega arith;
  after_delayed_fits = omega arith;
})

parse_short_example : (parse (1 ∷ 2 ∷ []) ≡ err truncated) ↔ (2 < 40)
parse_short_example = parse_short (1 ∷ 2 ∷ [])

parse_segments-stream_example :
    parse_segments decode (stream encode ((0 ∷ 7 ∷ []) ∷ [] ∷ (1 ∷ []) ∷ []))
    ≡ ok (segments_of ((0 ∷ 7 ∷ []) ∷ [] ∷ (1 ∷ []) ∷ []))
parse_segments-stream_example =
    parse_segments-stream decode encode decode-Encodes ((0 ∷ 7 ∷ []) ∷ [] ∷ (1 ∷ []) ∷ [])
