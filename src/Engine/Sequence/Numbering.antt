-- ===== src/Engine/Sequence/Numbering.antt =====
-- crates/arb-reth-engine/src/engine.rs: which blocks the driver queues, and in which order.
use arbitrum_reth.Engine.Sequence.Reached.{advance_all-Reaches}
use arbitrum_reth.Engine.Sequence.{
  ArbEngineDriver, Event, Tree, advance_all, applied, block_inserted, head_requested, on_applied,
  payload_requested,
}
use arbitrum_reth.Engine.Sequence.Steps.{
  Step, Reaches-invariant, buffered, cleared, inserted, lost, queue, queued, removed, requested,
  settled, tail_of, without_tail,
}
use mathlib.Core.Path.{ap₂}
use arbitrum_reth.Prelude.{
  ℕ, zero, suc, ◌+◌, ◌-◌, ◌≤◌, ◌≡◌, refl, ◌∙◌, Bool, Option, none, some, List, [], ◌∷◌, arith,
}
use arbitrum_reth.L1.Feed.{BroadcastFeedMessage}

-- The sequence numbers of the blocks that were queued, the newest first.
unfoldable pub queued_numbers : {Text : Type 0} → List (Event Text) → List ℕ
queued_numbers [] = []
queued_numbers (head_requested n built ∷ log) = n ∷ queued_numbers log
queued_numbers (payload_requested parent attributes ∷ log) = queued_numbers log
queued_numbers (block_inserted built ∷ log) = queued_numbers log
queued_numbers (applied n ∷ log) = queued_numbers log

-- `count` consecutive numbers from `first` on, the greatest first.
unfoldable pub run_from : ℕ → ℕ → List ℕ
run_from first zero = []
run_from first (suc count) = (first + count) ∷ run_from first count

module _ {Text : Type 0} where
  -- Since the cursor was at `first`, the blocks queued are those of the numbers it has passed.
  abbrev pub IsNumbered : ℕ → ArbEngineDriver Text → Type 0
  IsNumbered first d =
      (count : ℕ) × (d.next_seq ≡ first + count) × (queued_numbers d.log ≡ run_from first count)

  pub queued_numbers-on_applied :
      (completed : Option ℕ) (d : ArbEngineDriver Text)
      → queued_numbers (on_applied completed d).log ≡ queued_numbers d.log
  unfolding queued_numbers
  queued_numbers-on_applied none d = refl
  queued_numbers-on_applied (some n) d = refl

  Step-IsNumbered :
      {h : Bool} (first : ℕ) {d e : ArbEngineDriver Text}
      → Step h d e
      → IsNumbered first d
      → IsNumbered first e
  unfolding queued_numbers run_from
  Step-IsNumbered first (requested d parent attributes) p = p
  Step-IsNumbered first (inserted d built) p = p
  Step-IsNumbered first (lost same d) p = p
  Step-IsNumbered first (settled d) (count, next, numbers) = (
    count,
    next,
    queued_numbers-on_applied (tail_of d.pending_applied) (without_tail d) ∙ numbers,
  )
  Step-IsNumbered first (queued d built) (count, next, numbers) = (
    suc count,
    omega (arith, next),
    queued_numbers-on_applied (tail_of d.pending_applied) (queue built d)
        ∙ ap₂ (λ n ns. n ∷ ns) next numbers,
  )
  Step-IsNumbered first (buffered d msg later room) p = p
  Step-IsNumbered first (removed d k) p = p
  Step-IsNumbered first (cleared d) p = p

module _ {Text : Type 0} (tree : Tree Text) where
  -- Whatever the messages (their order, gaps and duplicates) and whatever Reth answers, also when
  -- the run stops at an error: a driver that has queued nothing yet queues exactly the blocks of the
  -- numbers that its cursor passes, each once and in ascending order.
  pub advance_all-queued_numbers :
      (msgs : List (BroadcastFeedMessage Text × Bool)) (d : ArbEngineDriver Text) (hash : ℕ)
      → queued_numbers d.log ≡ []
      → let e = (advance_all tree msgs d hash).0 in
        (d.next_seq ≤ e.next_seq)
        × (queued_numbers e.log ≡ run_from d.next_seq (e.next_seq - d.next_seq))
  unfolding run_from
  advance_all-queued_numbers msgs d hash nothing =
      let (count, next, numbers) =
        Reaches-invariant (IsNumbered d.next_seq) (λ e f. Step-IsNumbered d.next_seq)
          (advance_all-Reaches tree msgs d hash) (0, omega arith, nothing) in
      let same : count ≡ (advance_all tree msgs d hash).0.next_seq - d.next_seq =
        omega (arith, next) in
      (omega (arith, next), rw same at numbers)
