-- ===== src/L1/Reader/Runs.antt =====
-- An inbox that posts a batch in every second block, and an ABI-encoded byte string.
use arbitrum_reth.Prelude.{ℕ, ◌/◌, ◌≤◌, ◌<◌, min, ◌≡◌, [], ◌∷◌, arith, ok}
use arbitrum_reth.L1.Reader.{first_block_with_batch_count_above, decode_event_bytes}
use arbitrum_reth.L1.Reader.Counting.{halving, halving-answers}
use arbitrum_reth.L1.Reader.Search.{first_block_with_batch_count_above-IsFirst}
use arbitrum_reth.L1.Reader.EventBytes.{abi_bytes, decode_event_bytes-abi_bytes}
use arbitrum_reth.L1.Delayed.{parse_inbox_message_data}

first_block_with_batch_count_above-IsFirst_example :
    (r : ℕ) × (first_block_with_batch_count_above halving 3 100 20 ≡ ok r)
    × (3 ≤ r)
    × (r ≤ 100)
    × (20 < min (r / 2) 1_000)
    × ((b : ℕ) → 3 ≤ b → b < r → min (b / 2) 1_000 ≤ 20)
first_block_with_batch_count_above-IsFirst_example =
    first_block_with_batch_count_above-IsFirst halving (λ b. min (b / 2) 1_000) halving-answers
      (λ a b h. omega arith) 3 100 20 (omega arith) (omega arith)

decode_event_bytes-abi_bytes_example :
    (decode_event_bytes (abi_bytes (7 ∷ 8 ∷ []) (0 ∷ 0 ∷ [])) ≡ ok (7 ∷ 8 ∷ []))
    × (parse_inbox_message_data (abi_bytes (7 ∷ 8 ∷ []) (0 ∷ 0 ∷ [])) ≡ ok (7 ∷ 8 ∷ []))
decode_event_bytes-abi_bytes_example =
    decode_event_bytes-abi_bytes (7 ∷ 8 ∷ []) (0 ∷ 0 ∷ []) (omega arith)
