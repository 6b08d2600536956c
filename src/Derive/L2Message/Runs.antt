-- ===== src/Derive/L2Message/Runs.antt =====
-- A batch in a batch, with signed, compressed and unsigned messages.
use arbitrum_reth.Prelude.{ℕ, ◌≤◌, ◌≡◌, refl, ◌≢◌, some, List, [], ◌∷◌, arith, ok, stuck}
use arbitrum_reth.Prelude.Bytes.{to_be_bytes}
use arbitrum_reth.Derive.L2Message.{parse_l2_message, max_batch_depth}
use arbitrum_reth.Derive.L2Message.Total.{parse_l2_message-ne-stuck}
use arbitrum_reth.Derive.L2Message.RoundTrip.{
  Msg, signed, compressed, unsigned, batch, nil, cons, encode, frames, Fits, nesting, deepest, txs,
  unsigned_in, parse_l2_message-encode, AllFit,
}

abbrev compress : List ℕ → List ℕ
compress tx = tx

abbrev inner : Msg
inner = batch (cons (compressed (8 ∷ 9 ∷ [])) (cons (unsigned (1 ∷ [])) nil))

abbrev message : Msg
message = batch (cons (signed (7 ∷ [])) (cons inner nil))

message-Fits : Fits compress message
unfolding Fits AllFit encode frames to_be_bytes
message-Fits =
    (omega arith, (tt, (omega arith, ((omega arith, (tt, (omega arith, (tt, tt)))), tt))))

message_nesting : nesting message ≤ max_batch_depth
unfolding nesting deepest
message_nesting = omega arith

parse_l2_message-ne-stuck_example : parse_l2_message some (3 ∷ 0 ∷ 0 ∷ []) ≢ stuck
parse_l2_message-ne-stuck_example = parse_l2_message-ne-stuck some (3 ∷ 0 ∷ 0 ∷ [])

parse_l2_message-encode_example :
    parse_l2_message some (encode compress message)
    ≡ ok (record { signed_txs = txs message; unsigned_count = unsigned_in message })
parse_l2_message-encode_example =
    parse_l2_message-encode some compress (λ tx. refl) message message-Fits message_nesting
