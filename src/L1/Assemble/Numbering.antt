-- ===== src/L1/Assemble/Numbering.antt =====
-- The sequence numbers of an assembled stream.
use arbitrum_reth.Derive.Batch.{batch_header}
use arbitrum_reth.Prelude.{ℕ, suc, ◌+◌, ◌≡◌, List, [], ◌∷◌, ◌++◌, arith, length, >>=-eq-ok, ok}
use arbitrum_reth.Derive.Delayed.{DelayedSource, Keccak}
use arbitrum_reth.Derive.Message.{DerivedMessage}
use arbitrum_reth.L1.Batches.{DeliveredBatch}
use arbitrum_reth.L1.Decode.{Codec, decode_payload_messages}
use arbitrum_reth.L1.Feed.{
  BroadcastFeedMessage, derived_to_feed_message, derived_to_feed_message_with_stats,
}
use arbitrum_reth.L1.Assemble.{
  ReportStats, derived_to_feed, feed_all, batch_to_feed_messages, assemble_loop,
  assemble_feed_messages_with_seed,
}

-- The messages carry the numbers from `seq` on, without a gap.
abbrev pub Numbered : {Text : Type 0} → ℕ → List (BroadcastFeedMessage Text) → Type 0
Numbered seq [] = Unit {0}
Numbered seq (f ∷ fs) = (f.sequence_number ≡ seq) × Numbered (seq + 1) fs

Numbered-append :
    {Text : Type 0} (seq : ℕ) (xs ys : List (BroadcastFeedMessage Text))
    → Numbered seq xs
    → Numbered (seq + length xs) ys
    → Numbered seq (xs ++ ys)
Numbered-append seq [] ys hx hy = let e : seq + 0 ≡ seq = omega arith in rw e at hy
Numbered-append seq (x ∷ xs) ys hx hy = (
  hx.0,
  Numbered-append (seq + 1) xs ys hx.1
      (let e : seq + suc (length xs) ≡ seq + 1 + length xs = omega arith in rw e at hy),
)

module _ {Text : Type 0} (base64_encode : List ℕ → Text) (keccak : Keccak) (codec : Codec) where
  derived_to_feed_number :
      (m : DerivedMessage) (seq : ℕ) (stats : ReportStats) (f : BroadcastFeedMessage Text)
      → derived_to_feed base64_encode keccak codec m seq stats ≡ ok f
      → f.sequence_number ≡ seq
  unfolding derived_to_feed derived_to_feed_message derived_to_feed_message_with_stats
  derived_to_feed_number m seq stats f h = ground arith

  feed_all-Numbered :
      (ms : List DerivedMessage) (seq : ℕ) (stats : ReportStats)
      (fs : List (BroadcastFeedMessage Text))
      → feed_all base64_encode keccak codec ms seq stats ≡ ok fs
      → Numbered seq fs × (length fs ≡ length ms)
  unfolding feed_all
  feed_all-Numbered [] seq stats fs h = let e : fs ≡ [] = cc in rw e (tt, omega arith)
  feed_all-Numbered (m ∷ ms) seq stats fs h =
      let (f, e, r) = >>=-eq-ok (derived_to_feed base64_encode keccak codec m seq stats) _ h in
      let (gs, e', r') = >>=-eq-ok (feed_all base64_encode keccak codec ms (seq + 1) stats) _ r in
      let (numbered, same) = feed_all-Numbered ms (seq + 1) stats gs e' in
      let p : fs ≡ f ∷ gs = cc in
      rw p ((derived_to_feed_number m seq stats f e, numbered), omega (arith, same))

  assemble_loop-Numbered :
      (resolved : List (DeliveredBatch × List ℕ)) (delayed : DelayedSource) (stats : ReportStats)
      (before seq : ℕ) (fs : List (BroadcastFeedMessage Text))
      → assemble_loop base64_encode keccak codec resolved delayed stats before seq ≡ ok fs
      → Numbered seq fs
  unfolding assemble_loop batch_to_feed_messages
  assemble_loop-Numbered [] delayed stats before seq fs h = let e : fs ≡ [] = cc in rw e tt
  assemble_loop-Numbered ((b, payload) ∷ resolved) delayed stats before seq fs h =
      let (ms, e, r) =
        >>=-eq-ok (batch_to_feed_messages base64_encode keccak codec b payload before delayed _ seq)
          _ h in
      let (more, e', r') =
        >>=-eq-ok (assemble_loop base64_encode keccak codec resolved delayed _ _ (seq + length ms))
          _ r in
      let (derived, d, d') =
        >>=-eq-ok (decode_payload_messages codec (batch_header b.event) payload before delayed) _
          e in
      let p : fs ≡ ms ++ more = cc in
      rw p (
        Numbered-append seq ms more (feed_all-Numbered derived seq _ ms d').0
          (assemble_loop-Numbered resolved delayed _ _ (seq + length ms) more e'))

  -- Where the assembly of a run of batches succeeds, its messages are numbered from zero, one
  -- after the other, over all the batches.
  pub assemble_feed_messages_with_seed-Numbered :
      (resolved : List (DeliveredBatch × List ℕ)) (delayed : DelayedSource) (start : ℕ)
      (seed : ReportStats) (fs : List (BroadcastFeedMessage Text))
      → assemble_feed_messages_with_seed base64_encode keccak codec resolved delayed start seed
        ≡ ok fs
      → Numbered 0 fs
  unfolding assemble_feed_messages_with_seed
  assemble_feed_messages_with_seed-Numbered resolved delayed start seed fs h =
      assemble_loop-Numbered resolved delayed seed start 0 fs h
