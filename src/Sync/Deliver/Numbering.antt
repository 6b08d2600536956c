-- ===== src/Sync/Deliver/Numbering.antt =====
-- What a derived window sends, in closed form.
use arbitrum_reth.Prelude.Bytes.{IsU64}
use mathlib.Core.Path.{ap₂}
use arbitrum_reth.Prelude.{
  ℕ, zero, suc, ◌+◌, ◌-◌, ◌^◌, ◌≤◌, ◌<◌, min, ◌≡◌, refl, sym, ap, ◌∙◌, inl, inr, Bool, true, false,
  Option, none, some, List, [], ◌∷◌, arith, ltb, leb, ◌==◌, if◌then◌else◌, Bool-cases, length, take,
  drop, Result, ok,
}
use arbitrum_reth.L1.Feed.{BroadcastFeedMessage}
use arbitrum_reth.Sync.Errors.{L1SyncCompletion, frontier_reached}
use arbitrum_reth.Sync.Deliver.{
  Closed, WindowDelivery, set_sequence_number, wrapping_sub, enqueue_loop, enqueue_derived_window,
}

-- The frontier, when one of the messages from `bn` on is its block.
abbrev pub reached : Option ℕ → ℕ → Option L1SyncCompletion
reached none end = none
reached (some frontier) end = if ltb frontier end then some (frontier_reached frontier) else none

-- The frontier lies at `bn` or later, and behind the durable tip.
abbrev pub Ahead : Option ℕ → ℕ → ℕ → Type 0
Ahead none db_tip bn = Unit
Ahead (some frontier) db_tip bn = (db_tip < frontier) × (bn ≤ frontier)

wrapping_sub-eq : (a b : ℕ) → b ≤ a → IsU64 a → wrapping_sub a b ≡ a - b
wrapping_sub-eq a b h k = omega arith

reached-none :
    (frontier : Option ℕ) (db_tip end : ℕ)
    → end ≤ db_tip + 1
    → Ahead frontier db_tip (db_tip + 1)
    → reached frontier end ≡ none
reached-none none db_tip end h a = refl
reached-none (some f) db_tip end h (a, b) = ground arith

abbrev pub delivery : ℕ → Option L1SyncCompletion → Result Closed WindowDelivery
delivery skipped frontier = ok (record { skipped = skipped; frontier = frontier })

module _ {Text : Type 0} where
  -- The messages of the blocks from `bn` on, each with its index from the genesis block.
  abbrev pub numbered : ℕ → ℕ → List (BroadcastFeedMessage Text) → List (BroadcastFeedMessage Text)
  numbered genesis bn [] = []
  numbered genesis bn (m ∷ ms) = set_sequence_number m (bn - genesis) ∷ numbered genesis (bn + 1) ms

  -- Of the messages from block `bn` on, those up to the frontier's.
  abbrev pub up_to :
      Option ℕ → ℕ → List (BroadcastFeedMessage Text) → List (BroadcastFeedMessage Text)
  up_to none bn ms = ms
  up_to (some frontier) bn ms = take (frontier + 1 - bn) ms

  take_nil : (n : ℕ) → take {A = BroadcastFeedMessage Text} n [] ≡ []
  take_nil zero = refl
  take_nil (suc n) = refl

  -- Past the tip.
  send_all :
      (db_tip genesis : ℕ) (frontier : Option ℕ) (is_open : ℕ → Bool)
      (ms : List (BroadcastFeedMessage Text)) (bn sends skipped : ℕ)
      → ((n : ℕ) → is_open n ≡ true)
      → genesis ≤ bn
      → bn + length ms ≤ 2 ^ 64
      → db_tip < bn
      → Ahead frontier db_tip bn
      → let d = enqueue_loop is_open db_tip genesis frontier ms bn sends skipped in
        (d.sent ≡ numbered genesis bn (up_to frontier bn ms))
        × (d.result ≡ delivery skipped (reached frontier (bn + length ms)))
  unfolding enqueue_loop
  send_all db_tip genesis none is_open [] bn sends skipped opens g u t a = (refl, refl)
  send_all db_tip genesis (some f) is_open [] bn sends skipped opens g u t a =
      let e : ltb f (bn + 0) ≡ false = ground arith in
      (ap (numbered genesis bn) (sym (take_nil (f + 1 - bn))), rw e refl)
  send_all db_tip genesis none is_open (m ∷ ms) bn sends skipped opens g u t a =
      let (s, r) =
        send_all db_tip genesis none is_open ms (bn + 1) (sends + 1) skipped opens (omega arith)
          (omega arith) (omega arith) record {} in
      let past : leb bn db_tip ≡ false = ground arith in
      let w = wrapping_sub-eq bn genesis g (omega arith) in
      (rw (past, opens sends, w, s) refl, rw (past, opens sends) r)
  send_all db_tip genesis (some f) is_open (m ∷ ms) bn sends skipped opens g u t (a, b) =
      let past : leb bn db_tip ≡ false = ground arith in
      let w = wrapping_sub-eq bn genesis g (omega arith) in
      let q : f + 1 - bn ≡ suc (f + 1 - (bn + 1)) = omega arith in
      let k : bn + 1 + length ms ≡ bn + suc (length ms) = omega arith in
      elim (Bool-cases (f == bn)) [
        | inl e ↦
            let same : f ≡ bn = ground arith in
            let none_left : f + 1 - (bn + 1) ≡ 0 = omega arith in
            let hit : ltb f (bn + suc (length ms)) ≡ true = ground arith in
            (
              rw (past, opens sends, e, w, q, none_left) refl,
              rw (past, opens sends, e, hit)
                  (ap (λ x. delivery skipped (some (frontier_reached x))) (sym same)),
            )
        | inr n ↦
            let (s, r) =
              send_all db_tip genesis (some f) is_open ms (bn + 1) (sends + 1) skipped opens
                (omega arith) (omega arith) (omega arith) (a, ground arith) in
            (
              rw (past, opens sends, n, w, s, q) refl,
              rw (past, opens sends, n) (r ∙ ap (λ x. delivery skipped (reached (some f) x)) k),
            )
      ]

  up_to_nil :
      (frontier : Option ℕ) (bn n : ℕ)
      → up_to frontier bn (drop {A = BroadcastFeedMessage Text} n []) ≡ []
  up_to_nil none bn zero = refl
  up_to_nil none bn (suc n) = refl
  up_to_nil (some f) bn zero = take_nil (f + 1 - bn)
  up_to_nil (some f) bn (suc n) = take_nil (f + 1 - bn)

  skip_then_send :
      (db_tip genesis : ℕ) (frontier : Option ℕ) (is_open : ℕ → Bool)
      (ms : List (BroadcastFeedMessage Text)) (bn skipped : ℕ)
      → ((n : ℕ) → is_open n ≡ true)
      → genesis ≤ db_tip + 1
      → bn + length ms ≤ 2 ^ 64
      → bn ≤ db_tip + 1
      → Ahead frontier db_tip (db_tip + 1)
      → let d = enqueue_loop is_open db_tip genesis frontier ms bn 0 skipped in
        (d.sent
          ≡ numbered genesis (db_tip + 1) (up_to frontier (db_tip + 1) (drop (db_tip + 1 - bn) ms)))
        × (d.result
            ≡ delivery
                (skipped + min (db_tip + 1 - bn) (length ms))
                (reached frontier (bn + length ms)))
  unfolding enqueue_loop
  skip_then_send db_tip genesis frontier is_open [] bn skipped opens g u t a = (
    ap (numbered genesis (db_tip + 1)) (sym (up_to_nil frontier (db_tip + 1) (db_tip + 1 - bn))),
    ap₂ delivery (omega arith) (sym (reached-none frontier db_tip (bn + 0) (omega arith) a)),
  )
  skip_then_send db_tip genesis frontier is_open (m ∷ ms) bn skipped opens g u t a =
      let k : bn + 1 + length ms ≡ bn + suc (length ms) = omega arith in
      elim (Bool-cases (leb bn db_tip)) [
        | inl e ↦
            let q : db_tip + 1 - bn ≡ suc (db_tip + 1 - (bn + 1)) = ground arith in
            let (s, r) =
              skip_then_send db_tip genesis frontier is_open ms (bn + 1) (skipped + 1) opens g
                (omega arith) (ground arith) a in
            (rw (e, q) s, rw e (r ∙ ap₂ delivery (ground arith) (ap (reached frontier) k)))
        | inr e ↦
            let same : bn ≡ db_tip + 1 = ground arith in
            let z : db_tip + 1 - bn ≡ 0 = omega arith in
            let ahead : Ahead frontier db_tip bn = rw same a in
            let (s, r) =
              send_all db_tip genesis frontier is_open (m ∷ ms) bn 0 skipped opens (omega arith) u
                (omega arith) ahead in
            (s ∙ rw (z, same) refl, r ∙ ap₂ delivery (omega arith) refl)
      ]

  -- A window that starts at or before the block behind the durable tip `db_tip`, sent to an open
  -- channel: its blocks up to the tip are dropped and counted. The others go out in order, each with
  -- its distance from the genesis block as sequence number, up to the frontier block, whose sending
  -- is reported.
  pub enqueue_derived_window-numbered :
      (db_tip genesis : ℕ) (frontier : Option ℕ) (is_open : ℕ → Bool)
      (messages : List (BroadcastFeedMessage Text)) (next_l2 : ℕ)
      → ((n : ℕ) → is_open n ≡ true)
      → genesis ≤ db_tip + 1
      → next_l2 + length messages ≤ 2 ^ 64
      → next_l2 ≤ db_tip + 1
      → Ahead frontier db_tip (db_tip + 1)
      → let d = enqueue_derived_window is_open messages next_l2 db_tip genesis frontier in
        let fresh = drop (db_tip + 1 - next_l2) messages in
        (d.sent ≡ numbered genesis (db_tip + 1) (up_to frontier (db_tip + 1) fresh))
        × (d.result
            ≡ delivery
                (min (db_tip + 1 - next_l2) (length messages))
                (reached frontier (next_l2 + length messages)))
  unfolding enqueue_derived_window
  enqueue_derived_window-numbered db_tip genesis frontier is_open messages next_l2 opens g u t a =
      let (s, r) =
        skip_then_send db_tip genesis frontier is_open messages next_l2 0 opens g u t a in
      (s, r ∙ ap₂ delivery (omega arith) refl)
