-- ===== src/L1/Delayed/Chain.antt =====
-- What a verified accumulator chain says, and what the body check says.
use arbitrum_reth.Prelude.{
  ℕ, zero, suc, ◌+◌, ◌≡◌, refl, sym, ap, ◌∙◌, subst, ◌↔◌, true, List, [], ◌∷◌, map, arith, length,
  ok_or, >>=-eq-ok, ok,
}
use arbitrum_reth.Derive.Delayed.{
  DelayedMessage, Keccak, message_data_hash, message_hash, accumulator, accumulate,
}
use arbitrum_reth.L1.Delayed.{
  DelayedEvent, message_of, into_message, pair_bodies, verify_accumulator_chain, find_body,
}

-- The numbers from one on, as many as wanted.
unfoldable pub numbers_from : ℕ → ℕ → List ℕ
numbers_from start zero = []
numbers_from start (suc n) = start ∷ numbers_from (start + 1) n

-- The accumulators that the inbox passes through, from one on, as messages of these hashes arrive:
-- the one before each of them.
unfoldable pub accumulators_from : Keccak → ℕ → List ℕ → List ℕ
accumulators_from keccak acc [] = []
accumulators_from keccak acc (hash ∷ hashes) =
    acc ∷ accumulators_from keccak (accumulate keccak acc hash) hashes

-- The specification of a chain, by the first message alone: the indices count up from its index, and
-- what the messages say of the inbox before them is what it passes through from the accumulator
-- before the first, when messages of their hashes arrive.
abbrev pub IsChain : Keccak → List DelayedMessage → Type 0
IsChain keccak [] = Unit {0}
IsChain keccak (first ∷ rest) =
    let ms = first ∷ rest in
    (map (λ (m : DelayedMessage). m.inbox_seq_num) ms
      ≡ numbers_from first.inbox_seq_num (length ms))
    × (map (λ (m : DelayedMessage). m.before_inbox_acc) ms
        ≡ accumulators_from keccak first.before_inbox_acc (map (message_hash keccak) ms))

-- Two lists with the same front, where the second goes on from `next` as `g` does, which begins with
-- what it is given.
next_iff :
    (g after : ℕ → List ℕ)
    → ((x : ℕ) → g x ≡ x ∷ after x)
    → (x next y : ℕ) (ys : List ℕ) → (x ∷ y ∷ ys ≡ x ∷ g next) ↔ (next ≡ y) × (y ∷ ys ≡ g y)
next_iff g after begins x next y ys = (
  (λ h.
      let tail : y ∷ ys ≡ g next = cc in
      let whole : y ∷ ys ≡ next ∷ after next = tail ∙ begins next in
      let same : next ≡ y = cc in (same, subst (λ n. y ∷ ys ≡ g n) same tail)),
  (λ (same, tail). ap (λ zs. x ∷ zs) (tail ∙ ap g (sym same))),
)

-- The code's test on neighbours, with the equations that it tests.
pair_iff :
    (keccak : Keccak) (a b : DelayedMessage) (ms : List DelayedMessage)
    → (verify_accumulator_chain keccak (a ∷ b ∷ ms) ≡ true)
      ↔ (b.inbox_seq_num ≡ a.inbox_seq_num + 1)
        × (accumulator keccak a ≡ b.before_inbox_acc)
        × (verify_accumulator_chain keccak (b ∷ ms) ≡ true)
unfolding verify_accumulator_chain
pair_iff keccak a b ms = ((λ h. ground arith), (λ h. ground arith))

-- One more message in front of a chain.
front_iff :
    (keccak : Keccak) (a b : DelayedMessage) (ms : List DelayedMessage)
    → IsChain keccak (a ∷ b ∷ ms)
      ↔ (b.inbox_seq_num ≡ a.inbox_seq_num + 1)
        × (accumulator keccak a ≡ b.before_inbox_acc)
        × IsChain keccak (b ∷ ms)
unfolding numbers_from accumulators_from accumulator accumulate
front_iff keccak a b ms =
    let seqs : List ℕ = map (λ (m : DelayedMessage). m.inbox_seq_num) ms in
    let accs : List ℕ = map (λ (m : DelayedMessage). m.before_inbox_acc) ms in
    let hashes : List ℕ = map (message_hash keccak) ms in
    let hash : ℕ = message_hash keccak b in
    let numbers =
      next_iff (λ n. numbers_from n (length (b ∷ ms))) (λ n. numbers_from (n + 1) (length ms))
        (λ n. refl) a.inbox_seq_num (a.inbox_seq_num + 1) b.inbox_seq_num seqs in
    let chain =
      next_iff (λ n. accumulators_from keccak n (hash ∷ hashes))
        (λ n. accumulators_from keccak (accumulate keccak n hash) hashes) (λ n. refl)
        a.before_inbox_acc (accumulator keccak a) b.before_inbox_acc accs in
    (
      (λ (nums, befores).
          let (p, p') = numbers.0 nums in let (q, q') = chain.0 befores in (sym p, q, (p', q'))),
      (λ (p, q, (p', q')). (numbers.1 (sym p, p'), chain.1 (q, q'))),
    )

-- `verify_accumulator_chain` accepts exactly the runs whose indices are consecutive, and whose
-- accumulators before each message are those that the inbox passes through, from the one before the
-- first message, as the messages arrive.
pub verify_accumulator_chain_iff :
    (keccak : Keccak) (ms : List DelayedMessage)
    → (verify_accumulator_chain keccak ms ≡ true) ↔ IsChain keccak ms
unfolding verify_accumulator_chain numbers_from accumulators_from
verify_accumulator_chain_iff keccak [] = ((λ _. tt), (λ _. refl))
verify_accumulator_chain_iff keccak (a ∷ []) = ((λ _. (refl, refl)), (λ _. refl))
verify_accumulator_chain_iff keccak (a ∷ b ∷ ms) =
    let ih = verify_accumulator_chain_iff keccak (b ∷ ms) in
    let pair = pair_iff keccak a b ms in
    let front = front_iff keccak a b ms in
    (
      (λ h. let (p, q, r) = pair.0 h in front.1 (p, q, ih.0 r)),
      (λ h. let (p, q, r) = front.0 h in pair.1 (p, q, ih.1 r)),
    )

-- The events' messages with bodies whose hashes are the recorded ones.
abbrev pub Verified : Keccak → List DelayedEvent → List DelayedMessage → Type 0
Verified keccak [] [] = Unit {0}
Verified keccak [] (m ∷ ms) = ⊥
Verified keccak (e ∷ es) [] = ⊥
Verified keccak (e ∷ es) (m ∷ ms) =
    (m ≡ message_of e m.body) × (keccak m.body ≡ e.message_data_hash) × Verified keccak es ms

into_message-eq-ok :
    (keccak : Keccak) (e : DelayedEvent) (body : List ℕ) (m : DelayedMessage)
    → into_message keccak e body ≡ ok m
    → (m ≡ message_of e m.body) × (keccak m.body ≡ e.message_data_hash)
unfolding into_message message_data_hash
into_message-eq-ok keccak e body m h = ground arith

-- Where the pairing succeeds, each message is its event's, in the order of the events, and its body
-- hashes to the value recorded on chain.
pub pair_bodies-Verified :
    (keccak : Keccak) (es : List DelayedEvent) (bodies : List ((ℕ × ℕ) × List ℕ))
    (ms : List DelayedMessage)
    → pair_bodies keccak es bodies ≡ ok ms
    → Verified keccak es ms
unfolding pair_bodies
pair_bodies-Verified keccak [] bodies ms h = let e : ms ≡ [] = cc in rw e tt
pair_bodies-Verified keccak (e ∷ es) bodies ms h =
    let (body, b, r) = >>=-eq-ok (ok_or (find_body e.index e.inbox bodies) _) _ h in
    let (m, p, r') = >>=-eq-ok (into_message keccak e body) _ r in
    let (rest, q, r'') = >>=-eq-ok (pair_bodies keccak es bodies) _ r' in
    let (same, hash) = into_message-eq-ok keccak e body m p in
    let whole : ms ≡ m ∷ rest = cc in
    rw whole (same, hash, pair_bodies-Verified keccak es bodies rest q)
