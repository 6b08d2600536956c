-- ===== src/Sync/Deliver.antt =====
-- crates/arb-reth-sync/src/l1_sync.rs, `enqueue_derived_window`: one derived window's messages are
-- numbered and sent. The channel stands as the test whether its receiver is open at the n-th send.
pub mod Numbering
mod Runs
use arbitrum_reth.L1.Serialize.{batch_data_stats}
use arbitrum_reth.Prelude.{
  ℕ, ◌+◌, ◌-◌, ◌%◌, ◌^◌, Bool, false, not, Option, none, some, List, [], ◌∷◌, leb, ◌==◌,
  if◌then◌else◌, Result, ok, err,
}
use arbitrum_reth.L1.Feed.{BroadcastFeedMessage}
use arbitrum_reth.Sync.Errors.{L1SyncCompletion, frontier_reached}

pub record WindowDelivery : Type 0 where
  pub skipped : ℕ
  pub frontier : Option L1SyncCompletion

-- `Err(())`: the channel is closed.
pub data Closed : Type 0 where
  closed : Closed

-- The messages sent, the next L2 block, and the result.
pub record Delivered (Text : Type 0) : Type 0 where
  pub sent : List (BroadcastFeedMessage Text)
  pub next_l2 : ℕ
  pub result : Result Closed WindowDelivery

-- `bn - genesis_block` on a u64, as a release build computes it.
abbrev pub wrapping_sub : ℕ → ℕ → ℕ
wrapping_sub a b = (a + 2 ^ 64 - b) % 2 ^ 64

-- `frontier == Some(bn)`.
abbrev pub at_frontier : Option ℕ → ℕ → Bool
at_frontier none bn = false
at_frontier (some frontier) bn = frontier == bn

module _ {Text : Type 0} where
  abbrev pub set_sequence_number : BroadcastFeedMessage Text → ℕ → BroadcastFeedMessage Text
  set_sequence_number m n = record {
    sequence_number = n;
    header = m.header;
    l2msg = m.l2msg;
    batch_data_stats = m.batch_data_stats;
    delayed_messages_read = m.delayed_messages_read;
  }

  abbrev pub cons_sent : BroadcastFeedMessage Text → Delivered Text → Delivered Text
  cons_sent m d = record { sent = m ∷ d.sent; next_l2 = d.next_l2; result = d.result }

  -- The `for mut msg in messages` loop, with the number of sends before and of messages skipped.
  unfoldable pub enqueue_loop :
      (ℕ → Bool) → ℕ → ℕ → Option ℕ → List (BroadcastFeedMessage Text) → ℕ → ℕ → ℕ → Delivered Text
  enqueue_loop is_open db_tip genesis frontier [] bn sends skipped = record {
    sent = [];
    next_l2 = bn;
    result = ok (record { skipped = skipped; frontier = none });
  }
  enqueue_loop is_open db_tip genesis frontier (m ∷ ms) bn sends skipped =
      let skip = enqueue_loop is_open db_tip genesis frontier ms (bn + 1) sends (skipped + 1) in
      let rest = enqueue_loop is_open db_tip genesis frontier ms (bn + 1) (sends + 1) skipped in
      let msg = set_sequence_number m (wrapping_sub bn genesis) in
      if leb bn db_tip
      then skip
      else if not (is_open sends)
      then record { sent = []; next_l2 = bn + 1; result = err closed }
      else if at_frontier frontier bn
      then record {
        sent = msg ∷ [];
        next_l2 = bn + 1;
        result = ok (record { skipped = skipped; frontier = some (frontier_reached bn) });
      }
      else cons_sent msg rest

  unfoldable pub enqueue_derived_window :
      (ℕ → Bool) → List (BroadcastFeedMessage Text) → ℕ → ℕ → ℕ → Option ℕ → Delivered Text
  unfolding enqueue_loop
  enqueue_derived_window is_open messages next_l2 db_tip genesis frontier =
      enqueue_loop is_open db_tip genesis frontier messages next_l2 0 0
