-- ===== src/Engine/Sequence/Buffer.antt =====
-- crates/arb-reth-engine/src/engine.rs: the buffer of the messages that came too early.
use arbitrum_reth.Engine.Sequence.Reached.{advance_all-Reaches}
use arbitrum_reth.Engine.Sequence.Steps.{
  Step, Reaches-invariant, buffered, cleared, inserted, lost, queued, removed, requested, settled,
}
use arbitrum_reth.Engine.Sequence.{ArbEngineDriver, Tree, advance_all, max_pending}
use arbitrum_reth.Prelude.{
  ℕ, ◌≤◌, ◌≡◌, sym, ◌∙◌, inl, inr, Bool, some, List, arith, ltb, ◌==◌, Bool-cases, length,
}
use arbitrum_reth.Prelude.Assoc
use arbitrum_reth.Prelude.Assoc.{
  lookup-insert, lookup-remove, lookup-retain_from, length-insert, length-remove,
  length-retain_from,
}
use arbitrum_reth.L1.Feed.{BroadcastFeedMessage}

module _ {Text : Type 0} where
  -- Each entry is under its own sequence number, and there are at most `MAX_PENDING` of them.
  abbrev pub IsBuffer : ArbEngineDriver Text → Type 0
  IsBuffer d =
      ((k : ℕ) (msg : BroadcastFeedMessage Text)
        → Assoc.lookup k d.pending ≡ some msg
        → msg.sequence_number ≡ k)
      × (length d.pending ≤ max_pending)

  Step-IsBuffer : {h : Bool} {d e : ArbEngineDriver Text} → Step h d e → IsBuffer d → IsBuffer e
  Step-IsBuffer (requested d parent attributes) p = p
  Step-IsBuffer (inserted d built) p = p
  Step-IsBuffer (lost same d) p = p
  Step-IsBuffer (settled d) p = p
  Step-IsBuffer (queued d built) p = p
  Step-IsBuffer (buffered d msg later room) (keyed, few) = (
    (λ k found at.
        let at' = sym (lookup-insert msg.sequence_number k msg d.pending) ∙ at in
        elim (Bool-cases (msg.sequence_number == k)) [
          | inl t ↦ ground (arith, rw t at at')
          | inr f ↦ keyed k found (rw f at at')
        ]),
    omega (arith, room, length-insert msg.sequence_number msg d.pending),
  )
  Step-IsBuffer (removed d old) (keyed, few) = (
    (λ k found at.
        let at' = sym (lookup-remove old k d.pending) ∙ at in
        elim (Bool-cases (k == old)) [
          | inl t ↦ absurd (ground (arith, rw t at at'))
          | inr f ↦ keyed k found (rw f at at')
        ]),
    omega (arith, few, length-remove old d.pending),
  )
  Step-IsBuffer (cleared d) (keyed, few) = (
    (λ k found at.
        let at' = sym (lookup-retain_from d.next_seq k d.pending) ∙ at in
        elim (Bool-cases (ltb k d.next_seq)) [
          | inl t ↦ absurd (ground (arith, rw t at at'))
          | inr f ↦ keyed k found (rw f at at')
        ]),
    omega (arith, few, length-retain_from d.next_seq d.pending),
  )

module _ {Text : Type 0} (tree : Tree Text) where
  -- Whatever the messages and whatever Reth answers: a run keeps the buffer at no more than
  -- `MAX_PENDING` entries, each under its own sequence number.
  pub advance_all-IsBuffer :
      (msgs : List (BroadcastFeedMessage Text × Bool)) (d : ArbEngineDriver Text) (hash : ℕ)
      → IsBuffer d
      → IsBuffer (advance_all tree msgs d hash).0
  advance_all-IsBuffer msgs d hash =
      Reaches-invariant IsBuffer (λ a b. Step-IsBuffer) (advance_all-Reaches tree msgs d hash)
