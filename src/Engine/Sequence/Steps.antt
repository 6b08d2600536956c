-- ===== src/Engine/Sequence/Steps.antt =====
-- crates/arb-reth-engine/src/engine.rs: the moves of the driver as a relation. A block in flight is
-- lost only where a call fails, so `healthy` paths are without that move.
use arbitrum_reth.Prelude.Assoc.{retain_from}
use arbitrum_reth.Engine.Sequence.{
  ArbEngineDriver, ArbPayloadAttributes, Outcome, SealedHeader, and_next, block_inserted,
  head_requested, max_pending, on_applied, payload_requested, Tree, settle_and_notify,
  settle_pending_applied, settle_result, with_event, EngineError, Event, PendingAppliedBlock,
  not_canonicalized, was_observable, apply_one_native, native_payload_attributes,
  queue_applied_block, send_failed, resolve_payload, send_event, wait_for_head,
}
use arbitrum_reth.Prelude.{
  ℕ, ◌+◌, ◌<◌, ◌≡◌, refl, ◌⊎◌, inl, inr, Bool, true, false, ◌||◌, Option, none, some, List, ◌∷◌,
  arith, Bool-cases, Option-cases, length, Result, Result-cases, ok, err, stuck,
}
use arbitrum_reth.Prelude.Assoc
use arbitrum_reth.L1.Feed.{BroadcastFeedMessage}

-- The sequence number of the block in flight.
abbrev pub tail_of : Option PendingAppliedBlock → Option ℕ
tail_of none = none
tail_of (some p) = some p.sequence_number

module _ {Text : Type 0} where
  abbrev pub without_tail : ArbEngineDriver Text → ArbEngineDriver Text
  without_tail d = record d { pending_applied = none }

  abbrev pub queue : SealedHeader → ArbEngineDriver Text → ArbEngineDriver Text
  queue built d = record d {
    tip = built;
    pending_applied = some (record { sequence_number = d.next_seq; new_header = built });
    next_seq = d.next_seq + 1;
    log = head_requested d.next_seq built ∷ block_inserted built ∷ d.log;
  }

  pub data Step (healthy : Bool) : ArbEngineDriver Text → ArbEngineDriver Text → Type 0 where
    requested :
        (d : ArbEngineDriver Text) (parent : ℕ) (attributes : ArbPayloadAttributes Text)
        → Step healthy d (with_event (payload_requested parent attributes) d)
    inserted :
        (d : ArbEngineDriver Text) (built : SealedHeader)
        → Step healthy d (with_event (block_inserted built) d)
    lost : healthy ≡ false → (d : ArbEngineDriver Text) → Step healthy d (without_tail d)
    settled :
        (d : ArbEngineDriver Text)
        → Step healthy d (on_applied (tail_of d.pending_applied) (without_tail d))
    queued :
        (d : ArbEngineDriver Text) (built : SealedHeader)
        → Step healthy d (on_applied (tail_of d.pending_applied) (queue built d))
    buffered :
        (d : ArbEngineDriver Text) (msg : BroadcastFeedMessage Text)
        → d.next_seq < msg.sequence_number
        → length d.pending < max_pending
        → Step healthy d (record d { pending = Assoc.insert msg.sequence_number msg d.pending })
    removed :
        (d : ArbEngineDriver Text) (k : ℕ)
        → Step healthy d (record d { pending = Assoc.remove k d.pending })
    cleared :
        (d : ArbEngineDriver Text)
        → Step healthy d (record d { pending = Assoc.retain_from d.next_seq d.pending })

  pub data Reaches (healthy : Bool) (s : ArbEngineDriver Text) : ArbEngineDriver Text → Type 0 where
    stay : Reaches healthy s s
    then_ :
        {d e : ArbEngineDriver Text} → Reaches healthy s d → Step healthy d e → Reaches healthy s e

  pub Reaches-trans :
      {h : Bool} {d e f : ArbEngineDriver Text} → Reaches h d e → Reaches h e f → Reaches h d f
  Reaches-trans r stay = r
  Reaches-trans r (then_ q s) = then_ (Reaches-trans r q) s

  pub one : {h : Bool} {d e : ArbEngineDriver Text} → Step h d e → Reaches h d e
  one s = then_ stay s

  Step-weaken : {h : Bool} {d e : ArbEngineDriver Text} → Step true d e → Step h d e
  Step-weaken (requested d parent attributes) = requested d parent attributes
  Step-weaken (inserted d built) = inserted d built
  Step-weaken (lost same d) = absurd (ground arith)
  Step-weaken (settled d) = settled d
  Step-weaken (queued d built) = queued d built
  Step-weaken (buffered d msg later room) = buffered d msg later room
  Step-weaken (removed d k) = removed d k
  Step-weaken (cleared d) = cleared d

  pub Reaches-weaken : {h : Bool} {d e : ArbEngineDriver Text} → Reaches true d e → Reaches h d e
  Reaches-weaken stay = stay
  Reaches-weaken (then_ r s) = then_ (Reaches-weaken r) (Step-weaken s)

  -- An invariant of the moves holds wherever they lead.
  pub Reaches-invariant :
      {h : Bool} (P : ArbEngineDriver Text → Type 0)
      → ((d e : ArbEngineDriver Text) → Step h d e → P d → P e)
      → {d e : ArbEngineDriver Text} → Reaches h d e
      → P d
      → P e
  Reaches-invariant P keeps stay p = p
  Reaches-invariant P keeps (then_ {d} {e} r s) p = keeps d e s (Reaches-invariant P keeps r p)

abbrev pub is_ok {ℓ κ} : {E : Type ℓ} {A : Type κ} → Result E A → Bool
is_ok (ok a) = true
is_ok (err e) = false
is_ok stuck = false

abbrev pub IsFailure {ℓ κ} : {E : Type ℓ} {A : Type κ} → Result E A → Type 0
IsFailure (ok a) = ⊥
IsFailure (err e) = Unit
IsFailure stuck = Unit

module _ {Text A B : Type 0} where
  -- A chain of computations leads where its parts lead, and loses nothing where it succeeds.
  pub and_next-Reaches :
      (d : ArbEngineDriver Text) (outcome : Outcome Text A)
      (more : ArbEngineDriver Text → A → Outcome Text B)
      → Reaches (is_ok outcome.1) d outcome.0
      → ((e : ArbEngineDriver Text) (a : A) → Reaches (is_ok (more e a).1) e (more e a).0)
      → Reaches (is_ok (and_next outcome more).1) d (and_next outcome more).0
  and_next-Reaches d (e, ok a) more r rest = Reaches-trans (Reaches-weaken r) (rest e a)
  and_next-Reaches d (e, err f) more r rest = r
  and_next-Reaches d (e, stuck) more r rest = r

module _ {Text : Type 0} (tree : Tree Text) where
  -- Settling gives the block that was in flight, or an error.
  pub settle_result-cases :
      (log : List (Event Text)) (tail : Option PendingAppliedBlock)
      → (settle_result tree log tail ≡ ok (tail_of tail))
        ⊎ ((e : EngineError) × (settle_result tree log tail ≡ err e))
  unfolding settle_result
  settle_result-cases log none = inl refl
  settle_result-cases log (some p) = elim (Option-cases (tree.final_fcu log p.new_header)) [
    | inr (e, h) ↦ inr (e, rw (settle_result, h) refl)
    | inl h ↦
        elim (Bool-cases (
          was_observable tree log p.new_header
          || wait_for_head (tree.polls log p.new_header) p.new_header)) [
            | inl t ↦ inl (rw (settle_result, h, t) refl)
            | inr f ↦ inr (not_canonicalized p.new_header.number, rw (settle_result, h, f) refl)
          ]
  ]

  pub settle_and_notify-Reaches :
      (d : ArbEngineDriver Text) (hash : ℕ)
      → Reaches (is_ok (settle_and_notify tree d hash).1) d (settle_and_notify tree d hash).0
  unfolding settle_and_notify settle_pending_applied
  settle_and_notify-Reaches d hash = elim (settle_result-cases d.log d.pending_applied) [
    | inl h ↦ rw (settle_and_notify, settle_pending_applied, h) (one (settled d))
    | inr (e, h) ↦ rw (settle_and_notify, settle_pending_applied, h) (one (lost refl d))
  ]

  -- The driver once a block is queued, before the callback and the cursor.
  abbrev pub after_queue :
      ℕ → BroadcastFeedMessage Text → SealedHeader → ArbEngineDriver Text → ArbEngineDriver Text
  after_queue n msg built d = record d {
    tip = built;
    pending_applied = some (record { sequence_number = n; new_header = built });
    log =
        head_requested n built
        ∷ block_inserted built
        ∷ payload_requested d.tip.hash (native_payload_attributes d msg)
        ∷ d.log;
  }

  -- A message is applied, or the call fails on the way with no block queued.
  pub data Application (n : ℕ) (msg : BroadcastFeedMessage Text) (d : ArbEngineDriver Text)
      : Type 0 where
    applied_ :
        (built : SealedHeader)
        → apply_one_native tree n msg d
          ≡ (after_queue n msg built d, ok (built.hash, tail_of d.pending_applied))
        → Application n msg d
    refused :
        (e : ArbEngineDriver Text) (r : Result EngineError (ℕ × Option ℕ))
        → apply_one_native tree n msg d ≡ (e, r)
        → Reaches false d e
        → IsFailure r
        → Application n msg d

  queue_applied_block-cases :
      (n : ℕ) (built : SealedHeader) (d : ArbEngineDriver Text)
      → (queue_applied_block tree n built d ≡ (
        record d {
          tip = built;
          pending_applied = some (record { sequence_number = n; new_header = built });
          log = head_requested n built ∷ block_inserted built ∷ d.log;
        },
        ok built.hash,
      ))
        ⊎ ((e : ArbEngineDriver Text) × (queue_applied_block tree n built d ≡ (e, err send_failed))
            × Reaches false d e)
  unfolding queue_applied_block send_event
  queue_applied_block-cases n built d = elim (Bool-cases (tree.is_open d.log)) [
    | inr f ↦ inr (d, rw (queue_applied_block, send_event, f) refl, stay)
    | inl t ↦ elim (Bool-cases (tree.is_open (block_inserted built ∷ d.log))) [
      | inr f ↦ inr (
        with_event (block_inserted built) d,
        rw (queue_applied_block, send_event, t, f) refl,
        one (inserted d built),
      )
      | inl u ↦ inl (rw (queue_applied_block, send_event, t, u) refl)
    ]
  ]

  pub apply_one_native-cases :
      (n : ℕ) (msg : BroadcastFeedMessage Text) (d : ArbEngineDriver Text) → Application n msg d
  unfolding apply_one_native send_event settle_pending_applied
  apply_one_native-cases n msg d =
      let attributes = native_payload_attributes d msg in
      let d₁ = with_event (payload_requested d.tip.hash attributes) d in
      let to₁ : Reaches false d d₁ = one (requested d d.tip.hash attributes) in
      let to₂ : Reaches false d (without_tail d₁) = then_ to₁ (lost refl d₁) in
      elim (Bool-cases (tree.is_open d.log)) [
        | inr f ↦ refused d (err send_failed) (rw (apply_one_native, send_event, f) refl) stay tt
        | inl t ↦ elim (settle_result-cases d₁.log d.pending_applied) [
          | inr (x, c) ↦
              refused (without_tail d₁) (err x)
                (rw (apply_one_native, send_event, t, settle_pending_applied, c) refl) to₂ tt
          | inl c ↦ elim (Result-cases (resolve_payload tree d₁.log d.tip.hash attributes)) [
            | inr (inl (x, q)) ↦
                refused (without_tail d₁) (err x)
                  (rw (apply_one_native, send_event, t, settle_pending_applied, c, q) refl) to₂ tt
            | inr (inr q) ↦
                refused (without_tail d₁) stuck
                  (rw (apply_one_native, send_event, t, settle_pending_applied, c, q) refl) to₂ tt
            | inl (built, q) ↦ elim (queue_applied_block-cases n built (without_tail d₁)) [
              | inr (e, z, r) ↦
                  refused e (err send_failed)
                    (rw (apply_one_native, send_event, t, settle_pending_applied, c, q, z) refl)
                    (Reaches-trans to₂ r) tt
              | inl z ↦
                  applied_ built
                    (rw (apply_one_native, send_event, t, settle_pending_applied, c, q, z) refl)
            ]
          ]
        ]
      ]
