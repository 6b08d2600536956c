-- ===== src/Engine/Sequence/Healthy.antt =====
-- crates/arb-reth-engine/src/engine.rs: what the driver's operations give where Reth serves: its
-- channel is open, a payload depends on the parent and the attributes only, and each queued block
-- becomes canonical.
use arbitrum_reth.Engine.Sequence.Steps.{after_queue, tail_of, without_tail}
use arbitrum_reth.Engine.Sequence.{
  ArbEngineDriver, ArbPayloadAttributes, Event, PendingAppliedBlock, SealedHeader, Tree,
  apply_one_native, native_payload_attributes, on_applied, payload_requested, queue_applied_block,
  resolve_payload, send_event, settle_and_notify, settle_pending_applied, settle_result,
  block_inserted,
}
use arbitrum_reth.Prelude.{ℕ, max, ◌≡◌, refl, true, Option, none, some, List, ◌∷◌, ok}
use arbitrum_reth.L1.Feed.{BroadcastFeedMessage}

module _ {Text : Type 0} where
  pub record Serves (tree : Tree Text) (produce : ℕ → ArbPayloadAttributes Text → SealedHeader)
      : Type 0 where
    pub opens : (log : List (Event Text)) → tree.is_open log ≡ true
    pub builds :
        (log : List (Event Text)) (parent : ℕ) (attributes : ArbPayloadAttributes Text)
        → resolve_payload tree log parent attributes ≡ ok (produce parent attributes)
    pub settles :
        (log : List (Event Text)) (p : PendingAppliedBlock)
        → settle_result tree log (some p) ≡ ok (some p.sequence_number)

  -- The block that a message makes of the tip.
  unfoldable pub next_tip :
      (ℕ → ArbPayloadAttributes Text → SealedHeader)
      → SealedHeader
      → BroadcastFeedMessage Text
      → SealedHeader
  next_tip produce tip msg =
      produce tip.hash
        (record { timestamp = max msg.header.timestamp tip.timestamp; message = msg })

module _ {Text : Type 0} (tree : Tree Text) (produce : ℕ → ArbPayloadAttributes Text → SealedHeader)
    (serves : Serves tree produce) where
  settle_result-tail :
      (log : List (Event Text)) (tail : Option PendingAppliedBlock)
      → settle_result tree log tail ≡ ok (tail_of tail)
  unfolding settle_result
  settle_result-tail log none = refl
  settle_result-tail log (some p) = serves.settles log p

  pub settle_and_notify-settled :
      (d : ArbEngineDriver Text) (hash : ℕ)
      → settle_and_notify tree d hash
        ≡ (on_applied (tail_of d.pending_applied) (without_tail d), ok hash)
  unfolding settle_and_notify settle_pending_applied
  settle_and_notify-settled d hash =
      rw (settle_and_notify, settle_pending_applied, settle_result-tail d.log d.pending_applied)
        refl

  pub apply_one_native-applied :
      (n : ℕ) (msg : BroadcastFeedMessage Text) (d : ArbEngineDriver Text)
      → apply_one_native tree n msg d ≡ (
        after_queue tree n msg (next_tip produce d.tip msg) d,
        ok ((next_tip produce d.tip msg).hash, tail_of d.pending_applied),
      )
  unfolding apply_one_native send_event settle_pending_applied queue_applied_block next_tip
      native_payload_attributes
  apply_one_native-applied n msg d =
      let attributes = native_payload_attributes d msg in
      let log = payload_requested d.tip.hash attributes ∷ d.log in
      let built = next_tip produce d.tip msg in
      rw
        (
          apply_one_native,
          send_event,
          serves.opens d.log,
          settle_pending_applied,
          settle_result-tail log d.pending_applied,
          serves.builds log d.tip.hash attributes,
          queue_applied_block,
          serves.opens log,
          serves.opens (block_inserted built ∷ log),
        )
        refl
