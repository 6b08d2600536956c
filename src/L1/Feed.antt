-- ===== src/L1/Feed.antt =====
-- crates/arb-reth-l1/src/feed.rs: a derived message in the shape of the sequencer feed. The feed's
-- types and base64 are other crates' code: a hash or an address keeps its number instead of its hex
-- string, and base64 is a parameter.
use arbitrum_reth.Prelude.{ℕ, ◌^◌, Option, none, List, ltb, if◌then◌else◌}
use arbitrum_reth.Derive.Message.{DerivedMessage}
use arbitrum_reth.L1.Serialize.{BatchDataStats, batch_data_stats}

pub record FeedHeader : Type 0 where
  pub kind : ℕ
  pub sender : ℕ
  pub block_number : ℕ
  pub timestamp : ℕ
  pub request_id : Option ℕ
  pub base_fee_l1 : ℕ

pub record BroadcastFeedMessage (Text : Type 0) : Type 0 where
  pub sequence_number : ℕ
  pub header : FeedHeader
  pub l2msg : Text
  pub batch_data_stats : Option BatchDataStats
  pub delayed_messages_read : ℕ

-- `u64::try_from(h.l1_base_fee).unwrap_or(0)`.
unfoldable pub base_fee_u64 : ℕ → ℕ
base_fee_u64 fee = if ltb fee (2 ^ 64) then fee else 0

module _ {Text : Type 0} (base64_encode : List ℕ → Text) where
  unfoldable pub derived_to_feed_message_with_stats :
      DerivedMessage → ℕ → Option BatchDataStats → BroadcastFeedMessage Text
  unfolding base_fee_u64
  derived_to_feed_message_with_stats derived sequence_number batch_data_stats = record {
    sequence_number = sequence_number;
    header = record {
      kind = derived.header.kind;
      sender = derived.header.poster;
      block_number = derived.header.block_number;
      timestamp = derived.header.timestamp;
      request_id = derived.header.request_id;
      base_fee_l1 = base_fee_u64 derived.header.l1_base_fee;
    };
    l2msg = base64_encode derived.l2_msg;
    batch_data_stats = batch_data_stats;
    delayed_messages_read = derived.delayed_messages_read;
  }

  unfoldable pub derived_to_feed_message : DerivedMessage → ℕ → BroadcastFeedMessage Text
  unfolding derived_to_feed_message_with_stats
  derived_to_feed_message derived sequence_number =
      derived_to_feed_message_with_stats derived sequence_number none
