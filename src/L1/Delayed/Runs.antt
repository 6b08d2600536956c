-- ===== src/L1/Delayed/Runs.antt =====
-- An event with its body, and three messages of a chain under a toy hash.
use arbitrum_reth.Prelude.{ℕ, ◌+◌, ◌%◌, ◌≡◌, refl, ◌↔◌, true, false, List, [], ◌∷◌, length, ok}
use arbitrum_reth.Derive.Delayed.{
  DelayedMessage, Keccak, message_data_hash, message_hash, delayed_message_hash, accumulator,
}
use arbitrum_reth.Prelude.Bytes.{from_be_bytes, to_be_bytes}
use arbitrum_reth.L1.Delayed.{
  DelayedEvent, message_of, pair_bodies, into_message, find_body, verify_accumulator_chain,
}
use arbitrum_reth.L1.Delayed.Chain.{
  IsChain, verify_accumulator_chain_iff, Verified, pair_bodies-Verified,
}

abbrev hash : Keccak
hash bytes = length bytes

abbrev event : DelayedEvent
event = record {
  index = 4;
  before_inbox_acc = 64;
  inbox = 1;
  kind = 3;
  sender = 2;
  message_data_hash = 2;
  base_fee_l1 = 0;
  timestamp = 5;
  l1_block = 6;
}

abbrev messages : List DelayedMessage
messages = message_of event (8 ∷ 9 ∷ []) ∷ []

run : pair_bodies hash (event ∷ []) (((4, 1), 8 ∷ 9 ∷ []) ∷ []) ≡ ok messages
unfolding pair_bodies into_message find_body message_data_hash
run = refl

pair_bodies-Verified_example : Verified hash (event ∷ []) messages
pair_bodies-Verified_example =
    pair_bodies-Verified hash (event ∷ []) (((4, 1), 8 ∷ 9 ∷ []) ∷ []) messages run

-- A hash that tells these messages apart.
abbrev mixed : Keccak
mixed bytes = from_be_bytes bytes % 1_000_003

-- The message behind `m`, with another body.
abbrev behind : DelayedMessage → List ℕ → DelayedMessage
behind m body = record m {
  inbox_seq_num = m.inbox_seq_num + 1;
  before_inbox_acc = accumulator mixed m;
  body = body;
}

abbrev first : DelayedMessage
first = message_of event (8 ∷ 9 ∷ [])

abbrev second : DelayedMessage
second = behind first (7 ∷ [])

abbrev third : DelayedMessage
third = behind second (6 ∷ 5 ∷ [])

abbrev three : List DelayedMessage
three = first ∷ second ∷ third ∷ []

verify_accumulator_chain_iff_example :
    (verify_accumulator_chain mixed three ≡ true) ↔ IsChain mixed three
verify_accumulator_chain_iff_example = verify_accumulator_chain_iff mixed three

accepted : verify_accumulator_chain mixed three ≡ true
unfolding verify_accumulator_chain accumulator message_hash delayed_message_hash message_data_hash
    from_be_bytes to_be_bytes
accepted = refl

-- With another body in the first message, the accumulator before the second is not the one that it
-- leaves.
refused :
    verify_accumulator_chain mixed (record first { body = 8 ∷ [] } ∷ second ∷ third ∷ []) ≡ false
unfolding verify_accumulator_chain accumulator message_hash delayed_message_hash message_data_hash
    from_be_bytes to_be_bytes
refused = refl
