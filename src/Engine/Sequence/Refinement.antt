-- ===== src/Engine/Sequence/Refinement.antt =====
-- crates/arb-reth-engine/src/engine.rs: a run of the driver, whatever the order of the messages, ends
-- with the chain of the messages up to the first one that never came.
use arbitrum_reth.Engine.Sequence.Steps.{tail_of, without_tail, after_queue}
use arbitrum_reth.Engine.Sequence.Chain.{
  CaughtUp, CaughtUp-deliver, Lands, delivered, CaughtUp-same, CaughtUp-next, drain_pending-Lands,
  deliveries, replay,
}
use arbitrum_reth.Engine.Sequence.{
  ArbEngineDriver, ArbPayloadAttributes, SealedHeader, Tree, buffer, finish, max_pending,
  on_applied, settle_and_notify, advance_with_applied_inner, apply_next, advance_all,
}
use arbitrum_reth.Engine.Sequence.Healthy.{
  Serves, next_tip, settle_and_notify-settled, apply_one_native-applied,
}
use arbitrum_reth.Prelude.{
  ℕ, suc, ◌+◌, ◌≤◌, ◌<◌, ◌≡◌, refl, sym, ap, ◌∙◌, subst, inl, inr, Bool, true, false, ◌||◌, some,
  List, [], ◌∷◌, arith, ltb, ◌==◌, if◌then◌else◌, ltb→lt, lt→ltb, Bool-cases, length, ok,
}
use arbitrum_reth.Prelude.Assoc
use arbitrum_reth.Prelude.Assoc.{
  lookup-insert, lookup-retain_from, length-insert, length-retain_from, retain_from,
}
use arbitrum_reth.L1.Feed.{BroadcastFeedMessage}

or_swap : (a b c : Bool) → (a || (b || c)) ≡ ((b || a) || c)
or_swap true true c = refl
or_swap true false c = refl
or_swap false true c = refl
or_swap false false c = refl

or_false : (a : Bool) → (a || false) ≡ a
or_false true = refl
or_false false = refl

-- The first place where a test fails is unique.
first_gap :
    (test : ℕ → Bool) (a b : ℕ)
    → ((i : ℕ) → i < a → test i ≡ true)
    → test a ≡ false
    → ((i : ℕ) → i < b → test i ≡ true)
    → test b ≡ false
    → a ≡ b
first_gap test a b below_a at_a below_b at_b = elim (Bool-cases (ltb a b)) [
  | inl t ↦ let clash = sym (below_b a (ltb→lt a b t)) ∙ at_a in absurd (ground (arith, clash))
  | inr f ↦ elim (Bool-cases (ltb b a)) [
    | inl t ↦ let clash = sym (below_a b (ltb→lt b a t)) ∙ at_b in absurd (ground (arith, clash))
    | inr g ↦ ground arith
  ]
]

-- Clearing below a key keeps what is not below it.
lookup-kept {ℓ} :
    {V : Type ℓ} (floor : ℕ) (m : List (ℕ × V)) (k : ℕ)
    → floor ≤ k
    → Assoc.lookup k (Assoc.retain_from floor m) ≡ Assoc.lookup k m
lookup-kept floor m k above =
    let not_below : ltb k floor ≡ false = ground (arith, above) in
    rw (lookup-retain_from floor k m, not_below) refl

module _ {Text : Type 0} (tree : Tree Text) (produce : ℕ → ArbPayloadAttributes Text → SealedHeader)
    (serves : Serves tree produce) (content : ℕ → BroadcastFeedMessage Text)
    (named : (k : ℕ) → (content k).sequence_number ≡ k) (tip : SealedHeader) (first : ℕ) where
  finish-Lands :
      (seen : List (ℕ × Bool)) (defer_tail : Bool) (d : ArbEngineDriver Text) (hash : ℕ)
      → CaughtUp produce content tip first seen d
      → delivered d.next_seq seen ≡ false
      → Lands produce content tip first seen (length d.pending) (finish tree defer_tail d hash)
  unfolding finish
  finish-Lands seen true d hash c gap = (
    record d { pending = Assoc.retain_from d.next_seq d.pending },
    hash,
    refl,
    CaughtUp-same tree produce serves content tip first seen d _ c refl refl
        (lookup-kept d.next_seq d.pending),
    gap,
    length-retain_from d.next_seq d.pending,
  )
  finish-Lands seen false d hash c gap =
      let e = on_applied (tail_of d.pending_applied) (without_tail d) in
      (
        record e { pending = Assoc.retain_from d.next_seq d.pending },
        hash,
        rw (finish, settle_and_notify-settled tree produce serves d hash) refl,
        CaughtUp-same tree produce serves content tip first seen d _ c refl refl
            (lookup-kept d.next_seq d.pending),
        gap,
        length-retain_from d.next_seq d.pending,
      )

  late-Lands :
      (seen : List (ℕ × Bool)) (n : ℕ) (defer_tail : Bool) (d : ArbEngineDriver Text)
      → n < d.next_seq
      → CaughtUp produce content tip first seen d
      → delivered d.next_seq seen ≡ false
      → Lands produce content tip first
          ((n, defer_tail) ∷ seen)
          (length d.pending)
          (settle_and_notify tree d d.tip.hash)
  unfolding delivered
  late-Lands seen n defer_tail d late c gap =
      let e = on_applied (tail_of d.pending_applied) (without_tail d) in
      let c' =
        CaughtUp-deliver tree produce serves content tip first seen n defer_tail d e c refl refl
          (λ k later.
            let other : (n == k) ≡ false = ground (arith, late, later) in rw other refl) in
      let other : (n == d.next_seq) ≡ false = ground (arith, late) in
      (
        e,
        d.tip.hash,
        settle_and_notify-settled tree produce serves d d.tip.hash,
        c',
        rw (other, gap) refl,
        omega arith,
      )

  early-Lands :
      (seen : List (ℕ × Bool)) (n : ℕ) (defer_tail : Bool) (d : ArbEngineDriver Text)
      → d.next_seq < n
      → length d.pending < max_pending
      → CaughtUp produce content tip first seen d
      → delivered d.next_seq seen ≡ false
      → Lands produce content tip first
          ((n, defer_tail) ∷ seen)
          (suc (length d.pending))
          (settle_and_notify tree (buffer tree (content n) d) d.tip.hash)
  unfolding delivered buffer
  early-Lands seen n defer_tail d early room c gap =
      let held = record d {
        pending = Assoc.insert (content n).sequence_number (content n) d.pending;
      } in
      let fits : ltb (length d.pending) max_pending ≡ true = lt→ltb _ _ room in
      let e = on_applied (tail_of d.pending_applied) (without_tail held) in
      let c' =
        CaughtUp-deliver tree produce serves content tip first seen n defer_tail d e c refl refl
          (λ k later.
            subst
              (λ j.
                Assoc.lookup k (Assoc.insert j (content n) d.pending)
                ≡ (if n == k then some (content n) else Assoc.lookup k d.pending))
              (sym (named n)) (lookup-insert n k (content n) d.pending)) in
      let other : (n == d.next_seq) ≡ false = ground (arith, early) in
      (
        e,
        d.tip.hash,
        rw (buffer, fits) (settle_and_notify-settled tree produce serves held d.tip.hash),
        c',
        rw (other, gap) refl,
        length-insert (content n).sequence_number (content n) d.pending,
      )

  -- The message that the cursor waits for counts as buffered, and is applied at once.
  due-Lands :
      (seen : List (ℕ × Bool)) (n : ℕ) (defer_tail : Bool) (d : ArbEngineDriver Text)
      → n ≡ d.next_seq
      → CaughtUp produce content tip first seen d
      → Lands produce content tip first
          ((n, defer_tail) ∷ seen)
          (length d.pending)
          (apply_next tree (content n) defer_tail d)
  unfolding delivered apply_next
  due-Lands seen n defer_tail d due c =
      let seen' = (n, defer_tail) ∷ seen in
      let v = record d { pending = Assoc.insert n (content n) d.pending } in
      let cv =
        CaughtUp-deliver tree produce serves content tip first seen n defer_tail d v c refl refl
          (λ k later. lookup-insert n k (content n) d.pending) in
      let msg = content n in
      let built = next_tip produce d.tip msg in
      let e =
        record (on_applied (tail_of d.pending_applied)
          (after_queue tree msg.sequence_number msg built d)) { next_seq = d.next_seq + 1 } in
      let came : delivered d.next_seq seen' ≡ true =
        (let same : (n == d.next_seq) ≡ true = ground (arith, due) in rw same refl) in
      let ce =
        CaughtUp-next tree produce serves content tip first seen' v e cv came refl
          (ap (λ j. next_tip produce d.tip (content j)) due)
          (λ k later.
            let other : (n == k) ≡ false = ground (arith, due, later) in
            sym (rw (lookup-insert n k (content n) d.pending, other) refl)) in
      let (e₁, head₁, run₁, c₁, gap₁, few₁) =
        drain_pending-Lands tree produce serves content tip first seen' (length d.pending) e
          built.hash ce (omega arith) in
      let (e₂, head₂, run₂, c₂, gap₂, few₂) = finish-Lands seen' defer_tail e₁ head₁ c₁ gap₁ in
      (
        e₂,
        head₂,
        rw
            (
              apply_next,
              apply_one_native-applied tree produce serves msg.sequence_number msg d,
              run₁,
            )
            run₂,
        c₂,
        gap₂,
        omega (arith, few₁, few₂),
      )

  advance_with_applied_inner-Lands :
      (seen : List (ℕ × Bool)) (n : ℕ) (defer_tail : Bool) (d : ArbEngineDriver Text)
      → length d.pending < max_pending
      → CaughtUp produce content tip first seen d
      → delivered d.next_seq seen ≡ false
      → Lands produce content tip first
          ((n, defer_tail) ∷ seen)
          (suc (length d.pending))
          (advance_with_applied_inner tree (content n) defer_tail d)
  unfolding advance_with_applied_inner
  advance_with_applied_inner-Lands seen n defer_tail d room c gap =
      let seq = (content n).sequence_number in
      elim (Bool-cases (ltb seq d.next_seq)) [
        | inl t ↦
            let late : n < d.next_seq = ground (arith, named n) in
            let (e, head, run, c', gap', few) = late-Lands seen n defer_tail d late c gap in
            (e, head, rw t run, c', gap', omega (arith, few))
        | inr f ↦ elim (Bool-cases (ltb d.next_seq seq)) [
          | inl t ↦
              let early : d.next_seq < n = ground (arith, named n) in
              let (e, head, run, c', gap', few) =
                early-Lands seen n defer_tail d early room c gap in
              (e, head, rw (f, t) run, c', gap', few)
          | inr g ↦
              let due : n ≡ d.next_seq = ground (arith, named n) in
              let (e, head, run, c', gap', few) = due-Lands seen n defer_tail d due c in
              (e, head, rw (f, g) run, c', gap', omega (arith, few))
        ]
      ]

  advance_all-Lands :
      (ks seen : List (ℕ × Bool)) (d : ArbEngineDriver Text) (hash : ℕ)
      → length d.pending + length ks ≤ max_pending
      → CaughtUp produce content tip first seen d
      → delivered d.next_seq seen ≡ false
      → (all : List (ℕ × Bool)) × ((k : ℕ) → delivered k all ≡ (delivered k ks || delivered k seen))
        × Lands produce content tip first all
            (length d.pending + length ks)
            (advance_all tree (deliveries produce content ks) d hash)
  unfolding delivered advance_all deliveries
  advance_all-Lands [] seen d hash room c gap =
      (seen, (λ k. refl), (d, hash, refl, c, gap, omega arith))
  advance_all-Lands ((n, defer_tail) ∷ ks) seen d hash room c gap =
      let (e, head, run, c', gap', few) =
        advance_with_applied_inner-Lands seen n defer_tail d (omega (arith, room)) c gap in
      let (all, same, (e₂, head₂, run₂, c₂, gap₂, few₂)) =
        advance_all-Lands ks ((n, defer_tail) ∷ seen) e head (omega (arith, room, few)) c' gap' in
      (
        all,
        (λ k. same k ∙ or_swap (delivered k ks) (n == k) (delivered k seen)),
        (e₂, head₂, rw run run₂, c₂, gap₂, omega (arith, few, few₂)),
      )

  -- Where Reth serves, and no more messages come than the buffer takes: whatever their order and
  -- however often each comes, the run succeeds, and the driver has applied the messages from
  -- `first` up to the first one that never came: its tip is the one that the chain of those
  -- messages has, and its cursor waits for the one that is missing.
  pub advance_all-replays :
      (ks : List (ℕ × Bool)) (d : ArbEngineDriver Text) (hash : ℕ)
      → d.next_seq ≡ first
      → d.tip ≡ tip
      → d.pending ≡ []
      → length ks ≤ max_pending
      → (e : ArbEngineDriver Text) × (head count : ℕ) × (advance_all tree
            (deliveries produce content ks)
            d
            hash
          ≡ (e, ok head))
        × (e.tip ≡ replay produce content tip first count)
        × (e.next_seq ≡ first + count)
        × ((i : ℕ) → i < count → delivered (first + i) ks ≡ true)
        × (delivered (first + count) ks ≡ false)
  unfolding delivered replay Assoc.lookup
  advance_all-replays ks d hash at_first at_tip empty few =
      let c : CaughtUp produce content tip first [] d = record {
        count = 0;
        cursor = omega (arith, at_first);
        chain = at_tip;
        passed = λ i before. absurd (omega (arith, before));
        held = λ k later. rw empty refl;
      } in
      let (all, same, (e, head, run, c', gap, _)) =
        advance_all-Lands ks [] d hash (rw empty (omega (arith, few))) c refl in
      let agree : (k : ℕ) → delivered k ks ≡ delivered k all =
        (λ k. sym (same k ∙ or_false (delivered k ks))) in
      (
        e,
        head,
        c'.count,
        run,
        c'.chain,
        c'.cursor,
        (λ i before. agree (first + i) ∙ c'.passed i before),
        agree (first + c'.count) ∙ subst (λ k. delivered k all ≡ false) c'.cursor gap,
      )

  -- Two deliveries of the same messages, in any order, with any duplicates and with any overlap of
  -- the tails: under the conditions of `advance_all-replays` on both, the two runs end with the
  -- same tip and the same cursor.
  pub advance_all-agrees :
      (ks js : List (ℕ × Bool)) (d : ArbEngineDriver Text) (hash : ℕ)
      → d.next_seq ≡ first
      → d.tip ≡ tip
      → d.pending ≡ []
      → length ks ≤ max_pending
      → length js ≤ max_pending
      → ((k : ℕ) → delivered k ks ≡ delivered k js)
      → let e = (advance_all tree (deliveries produce content ks) d hash).0 in
        let f = (advance_all tree (deliveries produce content js) d hash).0 in
        (e.tip ≡ f.tip) × (e.next_seq ≡ f.next_seq)
  advance_all-agrees ks js d hash at_first at_tip empty few_ks few_js same =
      let (e, _, count, run, chain, cursor, passed, gap) =
        advance_all-replays ks d hash at_first at_tip empty few_ks in
      let (f, _, count', run', chain', cursor', passed', gap') =
        advance_all-replays js d hash at_first at_tip empty few_js in
      let level : count ≡ count' =
        first_gap (λ i. delivered (first + i) ks) count count' passed gap
          (λ i before. same (first + i) ∙ passed' i before) (same (first + count') ∙ gap') in
      rw (run, run')
        (
          chain ∙ ap (replay produce content tip first) level ∙ sym chain',
          cursor ∙ ap (λ c. first + c) level ∙ sym cursor',
        )
