-- ===== src/Derive/L2Message/Total.antt =====
-- `parse_l2_message` ends on every byte string: each frame takes eight bytes, and no batch is nested
-- deeper than the limit.
use arbitrum_reth.Prelude.Bytes.{from_be_bytes}
use arbitrum_reth.Prelude.{
  ℕ, zero, suc, ◌+◌, ◌≤◌, ◌<◌, ◌≢◌, inl, inr, List, [], ◌∷◌, arith, leb, Bool-cases, length, take,
  drop, length-drop, Result, >>=-ne-stuck, stuck,
}
use arbitrum_reth.Derive.Rlp.{Decompress}
use arbitrum_reth.Derive.L2Message.{
  L2ParseError, ParsedL2, max_batch_depth, batch_loop, parse_into, parse_l2_message,
}

module _ (parse : List ℕ → ParsedL2 → Result L2ParseError ParsedL2)
    (ends : (sub : List ℕ) (out : ParsedL2) → parse sub out ≢ stuck) where
  batch_loop-ne-stuck :
      (fuel : ℕ) (rd : List ℕ) (out : ParsedL2)
      → length rd ≤ fuel
      → batch_loop parse fuel rd out ≢ stuck
  unfolding batch_loop
  batch_loop-ne-stuck zero rd out h = ground arith
  batch_loop-ne-stuck (suc fuel) rd out h =
      let len = from_be_bytes (take 8 rd) in
      let frame =
        >>=-ne-stuck (parse (take len (drop 8 rd)) out)
          (λ out'. batch_loop parse fuel (drop len (drop 8 rd)) out') (ends _ out)
          (λ out' _.
            batch_loop-ne-stuck fuel (drop len (drop 8 rd)) out'
              (omega (arith, h, length-drop 8 rd, length-drop len (drop 8 rd)))) in
      ground (arith, frame)

parse_into-ne-stuck :
    (decompress : Decompress) (fuel : ℕ) (bytes : List ℕ) (depth : ℕ) (out : ParsedL2)
    → max_batch_depth < depth + fuel
    → 0 < fuel
    → parse_into decompress fuel bytes depth out ≢ stuck
unfolding parse_into
parse_into-ne-stuck decompress zero bytes depth out h pos = absurd (omega arith)
parse_into-ne-stuck decompress (suc fuel) [] depth out h pos = λ e. cc
parse_into-ne-stuck decompress (suc fuel) (kind ∷ body) depth out h pos =
    elim (Bool-cases (leb max_batch_depth depth)) [
      | inl deep ↦ ground arith
      | inr shallow ↦ ground (
        arith,
        batch_loop-ne-stuck (λ sub out'. parse_into decompress fuel sub (depth + 1) out')
            (λ sub out'.
              parse_into-ne-stuck decompress fuel sub (depth + 1) out' (omega arith) (ground arith))
            (length body) body out (omega arith),
      )
    ]

-- The parser returns on every byte string, whatever the decompressor does.
pub parse_l2_message-ne-stuck :
    (decompress : Decompress) (bytes : List ℕ) → parse_l2_message decompress bytes ≢ stuck
unfolding parse_l2_message
parse_l2_message-ne-stuck decompress bytes =
    parse_into-ne-stuck decompress (max_batch_depth + 1) bytes 0 _ (omega arith) (omega arith)
