-- ===== src/L1/Assemble.antt =====
-- crates/arb-reth-l1/src/assemble.rs: a run of batches as one stream of feed messages.
pub mod Numbering
pub mod Threading
mod Runs
use arbitrum_reth.Prelude.{
  ℕ, ◌+◌, some, List, [], ◌∷◌, ◌++◌, ◌==◌, if◌then◌else◌, length, Result, ◌>>=◌, ok_or, ok,
}
use arbitrum_reth.Prelude.Assoc
use arbitrum_reth.Derive.Batch.{batch_header}
use arbitrum_reth.Derive.Delayed.{DelayedSource, Keccak}
use arbitrum_reth.Derive.Message.{DerivedMessage}
use arbitrum_reth.L1.Errors.{L1Error, missing}
use arbitrum_reth.L1.Batches.{DeliveredBatch}
use arbitrum_reth.L1.Serialize.{
  BatchDataStats, serialize_batch, batch_data_hash, batch_data_stats, report_data_hash,
}
use arbitrum_reth.L1.Decode.{Codec, decode_payload_messages}
use arbitrum_reth.L1.Feed.{
  BroadcastFeedMessage, derived_to_feed_message, derived_to_feed_message_with_stats,
}

abbrev pub kind_batch_posting_report : ℕ
kind_batch_posting_report = 13

-- `BTreeMap<B256, BatchDataStats>`.
abbrev pub ReportStats : Type 0
ReportStats = List (ℕ × BatchDataStats)

module _ {Text : Type 0} (base64_encode : List ℕ → Text) (keccak : Keccak) (codec : Codec) where
  unfoldable pub derived_to_feed :
      DerivedMessage → ℕ → ReportStats → Result L1Error (BroadcastFeedMessage Text)
  derived_to_feed m seq report_stats =
      if m.header.kind == kind_batch_posting_report
      then (do
        dh ← ok_or (report_data_hash m.l2_msg) (missing "batch posting report data_hash")
        stats ←
            ok_or (Assoc.lookup dh report_stats)
              (missing "batch posting report stats (batch not seen)")
        ok (derived_to_feed_message_with_stats base64_encode m seq (some stats)))
      else ok (derived_to_feed_message base64_encode m seq)

  -- `for (i, m) in msgs.iter().enumerate()`, from `seq` on.
  unfoldable pub feed_all :
      List DerivedMessage → ℕ → ReportStats → Result L1Error (List (BroadcastFeedMessage Text))
  feed_all [] seq report_stats = ok []
  feed_all (m ∷ ms) seq report_stats = do
    f ← derived_to_feed m seq report_stats
    fs ← feed_all ms (seq + 1) report_stats
    ok (f ∷ fs)

  unfoldable pub batch_to_feed_messages :
      DeliveredBatch
      → List ℕ
      → ℕ
      → DelayedSource
      → ReportStats
      → ℕ
      → Result L1Error (List (BroadcastFeedMessage Text))
  batch_to_feed_messages b payload before_delayed_count delayed report_stats seq_start = do
    msgs ← decode_payload_messages codec (batch_header b.event) payload before_delayed_count delayed
    feed_all msgs seq_start report_stats

  -- The loop over the resolved batches, with its running variables.
  unfoldable pub assemble_loop :
      List (DeliveredBatch × List ℕ)
      → DelayedSource
      → ReportStats
      → ℕ
      → ℕ
      → Result L1Error (List (BroadcastFeedMessage Text))
  assemble_loop [] delayed report_stats before seq = ok []
  assemble_loop ((b, payload) ∷ resolved) delayed report_stats before seq = do
    let stats =
        Assoc.insert (batch_data_hash keccak b) (batch_data_stats (serialize_batch b)) report_stats
    msgs ← batch_to_feed_messages b payload before delayed stats seq
    more ←
        assemble_loop resolved delayed stats b.event.after_delayed_messages_read (seq + length msgs)
    ok (msgs ++ more)

  unfoldable pub assemble_feed_messages_with_seed :
      List (DeliveredBatch × List ℕ)
      → DelayedSource
      → ℕ
      → ReportStats
      → Result L1Error (List (BroadcastFeedMessage Text))
  unfolding assemble_loop
  assemble_feed_messages_with_seed resolved delayed start_delayed_count seed_stats =
      assemble_loop resolved delayed seed_stats start_delayed_count 0

  unfoldable pub assemble_feed_messages :
      List (DeliveredBatch × List ℕ)
      → DelayedSource
      → ℕ
      → Result L1Error (List (BroadcastFeedMessage Text))
  unfolding assemble_feed_messages_with_seed
  assemble_feed_messages resolved delayed start_delayed_count =
      assemble_feed_messages_with_seed resolved delayed start_delayed_count []
