-- ===== src/Engine/Sequence/Chain.antt =====
-- crates/arb-reth-engine/src/engine.rs: the driver implements a chain that knows no buffer, order or
-- duplicates: the blocks of the messages up to the first one that never came.
use mathlib.Core.Path.{ap₂}
use arbitrum_reth.Engine.Sequence.Healthy.{Serves, next_tip}
use arbitrum_reth.Engine.Sequence.Healthy.{apply_one_native-applied}
use arbitrum_reth.Engine.Sequence.{
  ArbEngineDriver, ArbPayloadAttributes, Outcome, SealedHeader, Tree, on_applied, drain_pending,
}
use arbitrum_reth.Engine.Sequence.Steps.{after_queue, tail_of}
use arbitrum_reth.Prelude.{
  ℕ, zero, suc, ◌+◌, ◌≤◌, ◌<◌, ◌≡◌, refl, ap, ◌∙◌, subst, inl, inr, Bool, true, false, ◌||◌, none,
  some, List, [], ◌∷◌, arith, ◌==◌, if◌then◌else◌, Bool-cases, length, ok,
}
use arbitrum_reth.Prelude.Assoc
use arbitrum_reth.Prelude.Assoc.{
  lookup-insert, lookup-remove, lookup-retain_from, length-insert, length-remove_found,
  length-retain_from,
}
use arbitrum_reth.L1.Feed.{BroadcastFeedMessage}

unfoldable pub delivered : ℕ → List (ℕ × Bool) → Bool
delivered k [] = false
delivered k ((j, defer_tail) ∷ ks) = j == k || delivered k ks

module _ {Text : Type 0} (produce : ℕ → ArbPayloadAttributes Text → SealedHeader)
    (content : ℕ → BroadcastFeedMessage Text) where
  -- The abstract chain: the tip after `count` messages from `first` on.
  unfoldable pub replay : SealedHeader → ℕ → ℕ → SealedHeader
  unfolding next_tip
  replay tip first zero = tip
  replay tip first (suc count) = next_tip produce (replay tip first count) (content (first + count))

  -- The messages with the numbers in `ks`, as they come in, each with whether another is ready.
  unfoldable pub deliveries : List (ℕ × Bool) → List (BroadcastFeedMessage Text × Bool)
  deliveries [] = []
  deliveries ((k, defer_tail) ∷ ks) = (content k, defer_tail) ∷ deliveries ks

  -- The driver has caught up with the chain by `count` messages, all of them delivered, and holds
  -- every other one that was delivered.
  pub record CaughtUp (tip : SealedHeader) (first : ℕ) (seen : List (ℕ × Bool))
      (d : ArbEngineDriver Text) : Type 0 where
    pub count : ℕ
    pub cursor : d.next_seq ≡ first + count
    pub chain : d.tip ≡ replay tip first count
    pub passed : (i : ℕ) → i < count → delivered (first + i) seen ≡ true
    pub held :
        (k : ℕ)
        → d.next_seq ≤ k
        → Assoc.lookup k d.pending ≡ (if delivered k seen then some (content k) else none)

  -- A call ends well, with the driver caught up and waiting for a message that was not delivered.
  abbrev pub Lands : SealedHeader → ℕ → List (ℕ × Bool) → ℕ → Outcome Text ℕ → Type 0
  Lands tip first seen limit outcome =
      (e : ArbEngineDriver Text) × (head : ℕ) × (outcome ≡ (e, ok head))
      × CaughtUp tip first seen e
      × (delivered e.next_seq seen ≡ false)
      × (length e.pending ≤ limit)

module _ {Text : Type 0} (tree : Tree Text) (produce : ℕ → ArbPayloadAttributes Text → SealedHeader)
    (serves : Serves tree produce) (content : ℕ → BroadcastFeedMessage Text) (tip : SealedHeader)
    (first : ℕ) where
  -- Applying the delivered message that the cursor waits for.
  pub CaughtUp-next :
      (seen : List (ℕ × Bool)) (d e : ArbEngineDriver Text)
      → CaughtUp produce content tip first seen d
      → delivered d.next_seq seen ≡ true
      → e.next_seq ≡ d.next_seq + 1
      → e.tip ≡ next_tip produce d.tip (content d.next_seq)
      → ((k : ℕ) → d.next_seq < k → Assoc.lookup k e.pending ≡ Assoc.lookup k d.pending)
      → CaughtUp produce content tip first seen e
  unfolding replay
  CaughtUp-next seen d e c came cursor chain same = record {
    count = suc c.count;
    cursor = omega (arith, cursor, c.cursor);
    chain = chain ∙ ap₂ (λ t n. next_tip produce t (content n)) c.chain c.cursor;
    passed = λ i before. elim (Bool-cases (i == c.count)) [
      | inl t ↦
          let at : d.next_seq ≡ first + i = ground (arith, c.cursor) in
          subst (λ n. delivered n seen ≡ true) at came
      | inr f ↦ c.passed i (ground arith)
    ];
    held =
        λ k later. same k (omega (arith, later, cursor)) ∙ c.held k (omega (arith, later, cursor));
  }

  -- Another message is delivered: the cursor and the tip stay, and the buffer holds it if the cursor
  -- has not passed it.
  pub CaughtUp-deliver :
      (seen : List (ℕ × Bool)) (n : ℕ) (defer_tail : Bool) (d e : ArbEngineDriver Text)
      → CaughtUp produce content tip first seen d
      → e.next_seq ≡ d.next_seq
      → e.tip ≡ d.tip
      → ((k : ℕ)
          → d.next_seq ≤ k
          → Assoc.lookup k e.pending
            ≡ (if n == k then some (content n) else Assoc.lookup k d.pending))
      → CaughtUp produce content tip first ((n, defer_tail) ∷ seen) e
  unfolding delivered
  CaughtUp-deliver seen n defer_tail d e c cursor chain holds = record {
    count = c.count;
    cursor = cursor ∙ c.cursor;
    chain = chain ∙ c.chain;
    passed = λ i before. let h = c.passed i before in ground (arith, h);
    held = λ k later.
        let at = holds k (omega (arith, later, cursor)) in
        let old = c.held k (omega (arith, later, cursor)) in
        elim (Bool-cases (n == k)) [
          | inl t ↦
              let same : n ≡ k = ground arith in rw t (rw t at at ∙ ap (λ j. some (content j)) same)
          | inr f ↦ rw f (rw f at at ∙ old)
        ];
  }

  pub CaughtUp-same :
      (seen : List (ℕ × Bool)) (d e : ArbEngineDriver Text)
      → CaughtUp produce content tip first seen d
      → e.next_seq ≡ d.next_seq
      → e.tip ≡ d.tip
      → ((k : ℕ) → d.next_seq ≤ k → Assoc.lookup k e.pending ≡ Assoc.lookup k d.pending)
      → CaughtUp produce content tip first seen e
  CaughtUp-same seen d e c cursor chain same = record {
    count = c.count;
    cursor = cursor ∙ c.cursor;
    chain = chain ∙ c.chain;
    passed = c.passed;
    held =
        λ k later. same k (omega (arith, later, cursor)) ∙ c.held k (omega (arith, later, cursor));
  }

  drain_pending-ends :
      (fuel : ℕ) (d : ArbEngineDriver Text) (hash : ℕ)
      → Assoc.lookup d.next_seq d.pending ≡ none
      → drain_pending tree fuel d hash ≡ (d, ok hash)
  unfolding drain_pending
  drain_pending-ends zero d hash missing = refl
  drain_pending-ends (suc fuel) d hash missing = rw (drain_pending, missing) refl

  -- One round of the drain: the driver after it.
  abbrev after_round : ArbEngineDriver Text → ArbEngineDriver Text
  after_round d =
      let built = next_tip produce d.tip (content d.next_seq) in
      let rest = record d { pending = Assoc.remove d.next_seq d.pending } in
      record (on_applied (tail_of d.pending_applied)
        (after_queue tree d.next_seq (content d.next_seq) built rest)) { next_seq = d.next_seq + 1 }

  drain_pending-round :
      (fuel : ℕ) (d : ArbEngineDriver Text) (hash : ℕ)
      → Assoc.lookup d.next_seq d.pending ≡ some (content d.next_seq)
      → drain_pending tree (suc fuel) d hash
        ≡ drain_pending tree fuel (after_round d) (next_tip produce d.tip (content d.next_seq)).hash
  unfolding drain_pending
  drain_pending-round fuel d hash found =
      let rest = record d { pending = Assoc.remove d.next_seq d.pending } in
      rw
        (
          drain_pending,
          found,
          apply_one_native-applied tree produce serves d.next_seq (content d.next_seq) rest,
        )
        refl

  after_round-CaughtUp :
      (seen : List (ℕ × Bool)) (d : ArbEngineDriver Text)
      → CaughtUp produce content tip first seen d
      → delivered d.next_seq seen ≡ true
      → CaughtUp produce content tip first seen (after_round d)
  after_round-CaughtUp seen d c came =
      CaughtUp-next seen d (after_round d) c came refl refl (λ k later.
        let other : (k == d.next_seq) ≡ false = ground (arith, later) in
        rw (lookup-remove d.next_seq k d.pending, other) refl)

  -- The drain ends at a message that was not delivered: the fuel is enough.
  pub drain_pending-Lands :
      (seen : List (ℕ × Bool)) (fuel : ℕ) (d : ArbEngineDriver Text) (hash : ℕ)
      → CaughtUp produce content tip first seen d
      → length d.pending ≤ fuel
      → Lands produce content tip first seen (length d.pending) (drain_pending tree fuel d hash)
  drain_pending-Lands seen zero d hash c enough = elim (Bool-cases (delivered d.next_seq seen)) [
    | inr f ↦
        let missing = rw f at (c.held d.next_seq (omega arith)) in
        (d, hash, drain_pending-ends zero d hash missing, c, f, omega arith)
    | inl t ↦
        let found = rw t at (c.held d.next_seq (omega arith)) in
        let fewer = length-remove_found d.next_seq (content d.next_seq) d.pending found in
        absurd (omega (arith, fewer, enough))
  ]
  drain_pending-Lands seen (suc fuel) d hash c enough =
      elim (Bool-cases (delivered d.next_seq seen)) [
        | inr f ↦
            let missing = rw f at (c.held d.next_seq (omega arith)) in
            (d, hash, drain_pending-ends (suc fuel) d hash missing, c, f, omega arith)
        | inl t ↦
            let found = rw t at (c.held d.next_seq (omega arith)) in
            let fewer = length-remove_found d.next_seq (content d.next_seq) d.pending found in
            let (e, head, run, c', gap, few) =
              drain_pending-Lands seen fuel (after_round d)
                (next_tip produce d.tip (content d.next_seq)).hash (after_round-CaughtUp seen d c t)
                (omega (arith, fewer, enough)) in
            (
              e,
              head,
              drain_pending-round fuel d hash found ∙ run,
              c',
              gap,
              omega (arith, few, fewer),
            )
      ]
