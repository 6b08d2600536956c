-- ===== src/Sync/Deliver/Runs.antt =====
-- A window of three messages, the first of them durable and the last behind the frontier.
use arbitrum_reth.Prelude.{ℕ, ◌≡◌, refl, true, none, some, List, [], ◌∷◌, arith}
use arbitrum_reth.L1.Feed.{BroadcastFeedMessage}
use arbitrum_reth.Sync.Deliver.{enqueue_derived_window}
use arbitrum_reth.Sync.Deliver.Numbering.{
  numbered, reached, delivery, enqueue_derived_window-numbered,
}

abbrev message : ℕ → BroadcastFeedMessage ℕ
message time = record {
  sequence_number = 0;
  header = record {
    kind = 3;
    sender = 1;
    block_number = 2;
    timestamp = time;
    request_id = none;
    base_fee_l1 = 0;
  };
  l2msg = 5;
  batch_data_stats = none;
  delayed_messages_read = 1;
}

abbrev window : List (BroadcastFeedMessage ℕ)
window = message 1 ∷ message 2 ∷ message 3 ∷ []

enqueue_derived_window-numbered_example :
    let d = enqueue_derived_window (λ n. true) window 110 110 100 (some 111) in
    (d.sent ≡ numbered 100 111 (message 2 ∷ [])) × (d.result ≡ delivery 1 (reached (some 111) 113))
enqueue_derived_window-numbered_example =
    enqueue_derived_window-numbered 110 100 (some 111) (λ n. true) window 110 (λ n. refl)
      (omega arith) (omega arith) (omega arith) (omega arith, omega arith)
