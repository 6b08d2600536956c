-- ===== src/Engine/Sequence/Callbacks.antt =====
-- crates/arb-reth-engine/src/engine.rs: the callbacks that tell which messages are canonical.
use arbitrum_reth.Engine.Sequence.Numbering.{queued_numbers, queued_numbers-on_applied}
use arbitrum_reth.Engine.Sequence.Reached.{advance_all-Reaches}
use arbitrum_reth.Engine.Sequence.{
  ArbEngineDriver, Event, PendingAppliedBlock, Tree, advance_all, applied, block_inserted,
  head_requested, on_applied, payload_requested,
}
use arbitrum_reth.Engine.Sequence.Steps.{
  Step, Reaches, Reaches-invariant, buffered, cleared, inserted, lost, queue, queued, removed,
  requested, settled, tail_of, without_tail,
}
use arbitrum_reth.Prelude.{
  ℕ, ◌≡◌, refl, sym, ap, ◌∙◌, Bool, true, Option, none, some, List, [], ◌∷◌, ◌++◌, arith, ok,
}
use arbitrum_reth.L1.Feed.{BroadcastFeedMessage}

-- The sequence numbers of the callbacks, the newest first.
unfoldable pub callback_numbers : {Text : Type 0} → List (Event Text) → List ℕ
callback_numbers [] = []
callback_numbers (applied n ∷ log) = n ∷ callback_numbers log
callback_numbers (payload_requested parent attributes ∷ log) = callback_numbers log
callback_numbers (block_inserted built ∷ log) = callback_numbers log
callback_numbers (head_requested n built ∷ log) = callback_numbers log

abbrev pub flying : Option PendingAppliedBlock → List ℕ
flying none = []
flying (some p) = p.sequence_number ∷ []

module _ {Text : Type 0} where
  -- Every queued block but the one in flight had its callback, in the order of the queue.
  abbrev pub IsAccounted : ArbEngineDriver Text → Type 0
  IsAccounted d = queued_numbers d.log ≡ flying d.pending_applied ++ callback_numbers d.log

  callback_numbers-on_applied :
      (tail : Option PendingAppliedBlock) (d : ArbEngineDriver Text)
      → callback_numbers (on_applied (tail_of tail) d).log ≡ flying tail ++ callback_numbers d.log
  unfolding callback_numbers
  callback_numbers-on_applied none d = refl
  callback_numbers-on_applied (some p) d = refl

  Step-IsAccounted : {d e : ArbEngineDriver Text} → Step true d e → IsAccounted d → IsAccounted e
  unfolding callback_numbers queued_numbers
  Step-IsAccounted (requested d parent attributes) p = p
  Step-IsAccounted (inserted d built) p = p
  Step-IsAccounted (lost same d) p = absurd (ground arith)
  Step-IsAccounted (settled d) p =
      queued_numbers-on_applied (tail_of d.pending_applied) (without_tail d)
      ∙ p
      ∙ sym (callback_numbers-on_applied d.pending_applied (without_tail d))
  Step-IsAccounted (queued d built) p =
      queued_numbers-on_applied (tail_of d.pending_applied) (queue built d)
      ∙ ap (λ ns. d.next_seq ∷ ns) p
      ∙ sym (
          ap (λ ns. d.next_seq ∷ ns)
            (callback_numbers-on_applied d.pending_applied (queue built d)))
  Step-IsAccounted (buffered d msg later room) p = p
  Step-IsAccounted (removed d k) p = p
  Step-IsAccounted (cleared d) p = p

module _ {Text : Type 0} (tree : Tree Text) where
  -- A run that succeeds, from a driver with nothing queued and nothing in flight: the callbacks are
  -- those of the queued blocks, each once and in the order of the queue, except for the last block
  -- where it is still in flight.
  pub advance_all-callback_numbers :
      (msgs : List (BroadcastFeedMessage Text × Bool)) (d e : ArbEngineDriver Text) (hash head : ℕ)
      → IsAccounted d
      → advance_all tree msgs d hash ≡ (e, ok head)
      → queued_numbers e.log ≡ flying e.pending_applied ++ callback_numbers e.log
  advance_all-callback_numbers msgs d e hash head before run =
      let path = advance_all-Reaches tree msgs d hash in
      let path' : Reaches true d e = rw run at path in
      Reaches-invariant IsAccounted (λ a b. Step-IsAccounted) path' before
