-- ===== src/Engine/Sequence/Reached.antt =====
-- crates/arb-reth-engine/src/engine.rs: what a call of the driver does is a path of the moves.
use arbitrum_reth.Engine.Sequence.Steps.{
  Reaches, Reaches-trans, and_next-Reaches, apply_one_native-cases, settle_and_notify-Reaches,
  tail_of, then_, applied_, buffered, cleared, refused, one, queue, queued, removed, requested,
  stay, is_ok,
}
use arbitrum_reth.Engine.Sequence.{
  ArbEngineDriver, Outcome, Tree, advance_all, advance_with_applied_inner, after_apply, apply_next,
  apply_one_native, max_pending, native_payload_attributes, on_applied, payload_requested,
  settle_and_notify, with_event, buffer, finish, drain_pending,
}
use arbitrum_reth.Prelude.{
  ℕ, zero, suc, ◌≡◌, refl, inl, inr, Bool, true, false, List, [], ◌∷◌, arith, ltb, ltb→lt,
  Bool-cases, Option-cases, length, ok, err, stuck,
}
use arbitrum_reth.Prelude.Assoc
use arbitrum_reth.L1.Feed.{BroadcastFeedMessage}

module _ {Text : Type 0} (tree : Tree Text) where
  after_apply-Reaches :
      (n : ℕ) (msg : BroadcastFeedMessage Text) (d : ArbEngineDriver Text)
      (more : ArbEngineDriver Text → ℕ → Outcome Text ℕ)
      → n ≡ d.next_seq
      → ((e : ArbEngineDriver Text) (hash : ℕ) → Reaches (is_ok (more e hash).1) e (more e hash).0)
      → Reaches
          (is_ok (after_apply tree (apply_one_native tree n msg d) more).1)
          d
          (after_apply tree (apply_one_native tree n msg d) more).0
  after_apply-Reaches n msg d more same rest = elim (apply_one_native-cases tree n msg d) [
    | applied_ built z ↦
        let request = requested d d.tip.hash (native_payload_attributes d msg) in
        let moved = with_event (payload_requested d.tip.hash (native_payload_attributes d msg)) d in
        rw (z, same)
          (Reaches-trans (then_ (one request) (queued moved built))
            (rest (on_applied (tail_of d.pending_applied) (queue built moved)) built.hash))
    | refused e (ok a) z r absurd_ ↦ absurd absurd_
    | refused e (err x) z r _ ↦ rw z r
    | refused e stuck z r _ ↦ rw z r
  ]

  drain_pending-Reaches :
      (fuel : ℕ) (d : ArbEngineDriver Text) (hash : ℕ)
      → Reaches (is_ok (drain_pending tree fuel d hash).1) d (drain_pending tree fuel d hash).0
  unfolding drain_pending
  drain_pending-Reaches zero d hash = stay
  drain_pending-Reaches (suc fuel) d hash =
      elim (Option-cases (Assoc.lookup d.next_seq d.pending)) [
        | inl h ↦ rw (drain_pending, h) stay
        | inr (m, h) ↦
            let d' = record d { pending = Assoc.remove d.next_seq d.pending } in
            rw (drain_pending, h)
              (Reaches-trans (one (removed d d.next_seq)) (
                after_apply-Reaches d.next_seq m d' (drain_pending tree fuel) refl
                  (drain_pending-Reaches fuel)))
      ]

  finish-Reaches :
      (defer_tail : Bool) (d : ArbEngineDriver Text) (hash : ℕ)
      → Reaches (is_ok (finish tree defer_tail d hash).1) d (finish tree defer_tail d hash).0
  unfolding finish
  finish-Reaches true d hash = one (cleared d)
  finish-Reaches false d hash =
      and_next-Reaches d (settle_and_notify tree d hash) _ (settle_and_notify-Reaches tree d hash)
        (λ e a. one (cleared e))

  advance_with_applied_inner-Reaches :
      (msg : BroadcastFeedMessage Text) (defer_tail : Bool) (d : ArbEngineDriver Text)
      → Reaches
          (is_ok (advance_with_applied_inner tree msg defer_tail d).1)
          d
          (advance_with_applied_inner tree msg defer_tail d).0
  unfolding advance_with_applied_inner buffer apply_next
  advance_with_applied_inner-Reaches msg defer_tail d =
      let seq = msg.sequence_number in
      elim (Bool-cases (ltb seq d.next_seq)) [
        | inl t ↦ rw t (settle_and_notify-Reaches tree d d.tip.hash)
        | inr f ↦ elim (Bool-cases (ltb d.next_seq seq)) [
          | inl t ↦ elim (Bool-cases (ltb (length d.pending) max_pending)) [
            | inl u ↦
                rw (f, t, buffer, u)
                  (Reaches-trans
                    (one (
                      buffered d msg (ltb→lt d.next_seq seq t)
                        (ltb→lt (length d.pending) max_pending u)))
                    (settle_and_notify-Reaches tree _ d.tip.hash))
            | inr u ↦ rw (f, t, buffer, u) (settle_and_notify-Reaches tree d d.tip.hash)
          ]
          | inr g ↦
              rw (f, g, apply_next)
                (after_apply-Reaches seq msg d _ (ground arith) (λ e hash.
                  and_next-Reaches e (drain_pending tree (length e.pending) e hash)
                    (finish tree defer_tail) (drain_pending-Reaches (length e.pending) e hash)
                    (λ e' a. finish-Reaches defer_tail e' a)))
        ]
      ]

  -- Whatever Reth answers, what a run over any messages does to the driver is a path of the moves,
  -- also when it stops at an error, and a healthy one when it succeeds.
  pub advance_all-Reaches :
      (msgs : List (BroadcastFeedMessage Text × Bool)) (d : ArbEngineDriver Text) (hash : ℕ)
      → Reaches (is_ok (advance_all tree msgs d hash).1) d (advance_all tree msgs d hash).0
  unfolding advance_all
  advance_all-Reaches [] d hash = stay
  advance_all-Reaches ((msg, defer_tail) ∷ msgs) d hash =
      and_next-Reaches d (advance_with_applied_inner tree msg defer_tail d) (advance_all tree msgs)
        (advance_with_applied_inner-Reaches msg defer_tail d) (λ e a. advance_all-Reaches msgs e a)
