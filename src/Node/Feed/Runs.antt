-- ===== src/Node/Feed/Runs.antt =====
-- Three copies of two messages, and a race that is full.
use arbitrum_reth.Prelude.{
  ℕ, zero, suc, ◌+◌, ◌≤◌, ◌<◌, ◌≡◌, refl, ap, true, none, List, [], ◌∷◌, arith, length, All,
}
use arbitrum_reth.L1.Feed.{BroadcastFeedMessage}
use arbitrum_reth.Node.Feed.{
  SequenceRace, FeedIngress, first, observe, coordinate, max_recent_sequences,
}
use arbitrum_reth.Node.Feed.Race.{Distinct, coordinate-Distinct}
use arbitrum_reth.Node.Feed.Eviction.{KeysAbove, observe_full}

abbrev message : ℕ → BroadcastFeedMessage ℕ
message n = record {
  sequence_number = n;
  header = record {
    kind = 3;
    sender = 1;
    block_number = 2;
    timestamp = 1;
    request_id = none;
    base_fee_l1 = 0;
  };
  l2msg = 5;
  batch_data_stats = none;
  delayed_messages_read = 1;
}

abbrev item : ℕ → ℕ → FeedIngress ℕ
item n ready_at = record { message = message n; ready_for_channel_at = ready_at }

abbrev items : List (FeedIngress ℕ)
items = item 8 1 ∷ item 8 2 ∷ item 7 3 ∷ []

coordinate-Distinct_example :
    let out = (coordinate (λ n. true) 7 items).output in
    Distinct out × All (λ (m : BroadcastFeedMessage ℕ). 7 ≤ m.sequence_number) out
coordinate-Distinct_example = coordinate-Distinct (λ n. true) 7 items (omega arith)

-- The sequence numbers from `k` on.
abbrev run_of : ℕ → ℕ → List (ℕ × ℕ)
run_of zero k = []
run_of (suc n) k = (k, 0) ∷ run_of n (k + 1)

length-run_of : (n k : ℕ) → length (run_of n k) ≡ n
length-run_of zero k = refl
length-run_of (suc n) k = ap suc (length-run_of n (k + 1))

run_of_above : (n k s : ℕ) → s < k → KeysAbove s (run_of n k)
run_of_above zero k s h = tt
run_of_above (suc n) k s h = (h, run_of_above n (k + 1) s (omega arith))

abbrev full : SequenceRace
full = record { next_resume = 10; recent = run_of max_recent_sequences 100 }

observe_full_example : observe full 50 3 ≡ (first, full)
observe_full_example =
    observe_full full 50 3 (length-run_of max_recent_sequences 100)
      (run_of_above max_recent_sequences 100 50 (omega arith)) (omega arith)
