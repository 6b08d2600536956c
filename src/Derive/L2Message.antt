-- ===== src/Derive/L2Message.antt =====
-- crates/arb-reth-derive/src/l2message.rs: the signed transactions inside an L2 message. The brotli
-- decompressor is a parameter.
pub mod Total
pub mod RoundTrip
mod Runs
use arbitrum_reth.Derive.L2Kind.{contract_tx, signed_compressed_tx, signed_tx, unsigned_user_tx}
use arbitrum_reth.Prelude.{
  ℕ, zero, suc, ◌+◌, ◌||◌, List, [], ◌∷◌, ◌++◌, map, ltb, leb, ◌==◌, if◌then◌else◌, length, take,
  drop, Result, ◌>>=◌, ok_or, ok, err, stuck,
}
use arbitrum_reth.Prelude.Bytes.{from_be_bytes}
use arbitrum_reth.Derive.L2Kind
use arbitrum_reth.Derive.Rlp.{Decompress}

abbrev pub max_l2_message_size : ℕ
max_l2_message_size = 262_144

abbrev pub max_batch_depth : ℕ
max_batch_depth = 16

pub data L2ParseError : Type 0 where
  batch_too_deep brotli : L2ParseError

pub record ParsedL2 : Type 0 where
  pub signed_txs : List (List ℕ)
  pub unsigned_count : ℕ

abbrev pub empty : ParsedL2
empty = record { signed_txs = []; unsigned_count = 0 }

-- `tx_hashes`: keccak256, a parameter, of each transaction.
unfoldable pub tx_hashes : (List ℕ → ℕ) → ParsedL2 → List ℕ
tx_hashes keccak p = map keccak p.signed_txs

abbrev pub push_tx : List ℕ → ParsedL2 → ParsedL2
push_tx tx out = record out { signed_txs = out.signed_txs ++ (tx ∷ []) }

-- The `loop` over the frames of a batch. `parse` is the call of `parse_into` on a frame, `rd` what
-- is left to read.
unfoldable pub batch_loop :
    (List ℕ → ParsedL2 → Result L2ParseError ParsedL2)
    → ℕ
    → List ℕ
    → ParsedL2
    → Result L2ParseError ParsedL2
batch_loop parse zero rd out = if ltb (length rd) 8 then ok out else stuck
batch_loop parse (suc fuel) rd out =
    let len = from_be_bytes (take 8 rd) in
    let body = drop 8 rd in
    let rest = parse (take len body) out >>= (λ out'. batch_loop parse fuel (drop len body) out') in
    if ltb (length rd) 8
    then ok out
    else if ltb max_l2_message_size len || ltb (length body) len
    then ok out
    else rest

-- Each frame is nested one deeper. The fuel bounds the nesting.
unfoldable pub parse_into : Decompress → ℕ → List ℕ → ℕ → ParsedL2 → Result L2ParseError ParsedL2
unfolding batch_loop
parse_into decompress zero bytes depth out = stuck
parse_into decompress (suc fuel) [] depth out = ok out
parse_into decompress (suc fuel) (kind ∷ body) depth out =
    let frames =
      batch_loop (λ sub out'. parse_into decompress fuel sub (depth + 1) out') (length body) body
        out in
    if kind == L2Kind.signed_tx
    then ok (push_tx body out)
    else if kind == L2Kind.signed_compressed_tx
    then (do tx ← ok_or (decompress body) brotli; ok (push_tx tx out))
    else if kind == L2Kind.batch
    then (if leb max_batch_depth depth then err batch_too_deep else frames)
    else if kind == L2Kind.unsigned_user_tx || kind == L2Kind.contract_tx
    then ok (record out { unsigned_count = out.unsigned_count + 1 })
    else ok out

-- A batch at depth 16 is refused, so 17 levels of fuel are never used up.
unfoldable pub parse_l2_message : Decompress → List ℕ → Result L2ParseError ParsedL2
unfolding parse_into
parse_l2_message decompress bytes = parse_into decompress (max_batch_depth + 1) bytes 0 empty
