-- ===== src/Engine/Sequence.antt =====
-- crates/arb-reth-engine/src/engine.rs: the driver's sequence reconciliation, from one incoming message
-- to the blocks it queues. Reth's engine tree, its payload builder and its provider are a parameter
-- whose answers may depend on all that was sent before. Timings and metrics are left out.
pub mod Steps
pub mod Reached
pub mod Numbering
pub mod Callbacks
pub mod Buffer
pub mod Healthy
pub mod Chain
pub mod Refinement
mod Runs
use arbitrum_reth.Prelude.Assoc.{retain_from}
use arbitrum_reth.Prelude.{
  ℕ, zero, suc, ◌+◌, ◌-◌, max, Bool, true, false, ◌&&◌, ◌||◌, Option, none, some, List, [], ◌∷◌,
  ltb, ◌==◌, if◌then◌else◌, length, Result, ◌>>=◌, ok_or, ok, err, stuck,
}
use arbitrum_reth.Prelude.Assoc
use arbitrum_reth.L1.Feed.{BroadcastFeedMessage}

pub record SealedHeader : Type 0 where
  pub hash : ℕ
  pub number : ℕ
  pub timestamp : ℕ

-- The errors of one message; `await_failed` is an error of an awaited answer, whatever its text.
pub data EngineError : Type 0 where
  send_failed : EngineError
  await_failed : EngineError
  no_payload_id : EngineError
  payload_disappeared : EngineError
  no_execution_output : EngineError
  not_canonicalized : ℕ → EngineError

abbrev pub max_pending : ℕ
max_pending = 50_000

pub record ArbPayloadAttributes (Text : Type 0) : Type 0 where
  pub timestamp : ℕ
  pub message : BroadcastFeedMessage Text

pub record PendingAppliedBlock : Type 0 where
  pub sequence_number : ℕ
  pub new_header : SealedHeader

-- What the driver does to the world: its requests to the tree, the final one with the sequence number
-- of its block, and the callbacks.
pub data Event (Text : Type 0) : Type 0 where
  payload_requested : ℕ → ArbPayloadAttributes Text → Event Text
  block_inserted : SealedHeader → Event Text
  head_requested : ℕ → SealedHeader → Event Text
  applied : ℕ → Event Text

-- One round of the wait for the head: what the provider and the in-memory state show, the
-- observations that are there, whether the deadline has passed, and the next observation before it.
pub record Poll : Type 0 where
  pub block_hash : Option ℕ
  pub canonical_head : SealedHeader
  pub observed : List (ℕ × ℕ)
  pub past_deadline : Bool
  pub received : Option (ℕ × ℕ)

-- What Reth answers. Each answer takes the events before it, the newest first.
pub record Tree (Text : Type 0) : Type 0 where
  pub is_open : List (Event Text) → Bool
  pub payload_fcu :
      List (Event Text) → ℕ → ArbPayloadAttributes Text → Result EngineError (Option ℕ)
  pub resolve_kind :
      List (Event Text)
      → ℕ
      → ArbPayloadAttributes Text
      → ℕ
      → Option (Result EngineError (Option SealedHeader))
  pub final_fcu : List (Event Text) → SealedHeader → Option EngineError
  pub block_hash : List (Event Text) → ℕ → Option ℕ
  pub canonical_head : List (Event Text) → SealedHeader
  pub polls : List (Event Text) → SealedHeader → List Poll

-- The driver's state, and what it did so far, the newest first.
pub record ArbEngineDriver (Text : Type 0) : Type 0 where
  pub tip : SealedHeader
  pub pending_applied : Option PendingAppliedBlock
  pub next_seq : ℕ
  pub pending : List (ℕ × BroadcastFeedMessage Text)
  pub log : List (Event Text)

-- A computation that changes the driver and may fail: the change stays when it fails.
abbrev pub Outcome : Type 0 → Type 0 → Type 0
Outcome Text A = ArbEngineDriver Text × Result EngineError A

abbrev pub and_next :
    {Text A B : Type 0}
    → Outcome Text A
    → (ArbEngineDriver Text → A → Outcome Text B)
    → Outcome Text B
and_next (d, ok a) next = next d a
and_next (d, err e) next = (d, err e)
and_next (d, stuck) next = (d, stuck)

-- The cursor of a new driver: the message of the block after the tip.
unfoldable pub first_seq : SealedHeader → ℕ → ℕ
first_seq tip genesis_block = tip.number - genesis_block + 1

module _ {Text : Type 0} where
  abbrev pub with_event : Event Text → ArbEngineDriver Text → ArbEngineDriver Text
  with_event event d = record d { log = event ∷ d.log }

  -- `on_applied`, for the block that was settled, if any.
  abbrev pub on_applied : Option ℕ → ArbEngineDriver Text → ArbEngineDriver Text
  on_applied completed d = record d {
    log = elim completed [ none ↦ d.log | some sequence_number ↦ applied sequence_number ∷ d.log ];
  }

  unfoldable pub spawn : SealedHeader → ℕ → ArbEngineDriver Text
  unfolding first_seq
  spawn genesis_tip genesis_block = record {
    tip = genesis_tip;
    pending_applied = none;
    next_seq = first_seq genesis_tip genesis_block;
    pending = [];
    log = [];
  }

  unfoldable pub native_payload_attributes :
      ArbEngineDriver Text → BroadcastFeedMessage Text → ArbPayloadAttributes Text
  native_payload_attributes d msg = record {
    timestamp = max msg.header.timestamp d.tip.timestamp;
    message = msg;
  }

-- The provider or the in-memory head shows the block.
unfoldable pub is_shown : Option ℕ → SealedHeader → SealedHeader → Bool
is_shown block_hash head header =
    let in_memory = head.number == header.number && head.hash == header.hash in
    elim block_hash [
      | some hash ↦ if hash == header.hash then true else in_memory
      | none ↦ in_memory
    ]

abbrev pub names : ℕ × ℕ → SealedHeader → Bool
names (number, hash) header = number == header.number && hash == header.hash

unfoldable pub any_names : List (ℕ × ℕ) → SealedHeader → Bool
any_names [] header = false
any_names (seen ∷ rest) header = names seen header || any_names rest header

-- The rounds until the deadline of twenty seconds.
unfoldable pub wait_for_head : List Poll → SealedHeader → Bool
unfolding is_shown any_names
wait_for_head [] header = false
wait_for_head (poll ∷ polls) header =
    let more = wait_for_head polls header in
    if is_shown poll.block_hash poll.canonical_head header || any_names poll.observed header
    then true
    else if poll.past_deadline
    then false
    else elim poll.received [ none ↦ false | some seen ↦ names seen header || more ]

module _ {Text : Type 0} (tree : Tree Text) where
  unfoldable pub was_observable : List (Event Text) → SealedHeader → Bool
  unfolding is_shown
  was_observable log header =
      is_shown (tree.block_hash log header.number) (tree.canonical_head log) header

  -- How the block that was in flight ends, if there was one.
  unfoldable pub settle_result :
      List (Event Text) → Option PendingAppliedBlock → Result EngineError (Option ℕ)
  unfolding was_observable wait_for_head
  settle_result log none = ok none
  settle_result log (some p) = elim (tree.final_fcu log p.new_header) [
    | some e ↦ err e
    | none ↦
        if was_observable log p.new_header
          || wait_for_head (tree.polls log p.new_header) p.new_header
        then ok (some p.sequence_number)
        else err (not_canonicalized p.new_header.number)
  ]

  -- `take` empties the slot in every case.
  unfoldable pub settle_pending_applied : ArbEngineDriver Text → Outcome Text (Option ℕ)
  unfolding settle_result
  settle_pending_applied d =
      (record d { pending_applied = none }, settle_result d.log d.pending_applied)

  unfoldable pub send_event : Event Text → ArbEngineDriver Text → Outcome Text (List (Event Text))
  send_event event d =
      if tree.is_open d.log then (with_event event d, ok (event ∷ d.log)) else (d, err send_failed)

  -- The payload that Reth builds on the parent from the attributes.
  unfoldable pub resolve_payload :
      List (Event Text) → ℕ → ArbPayloadAttributes Text → Result EngineError SealedHeader
  resolve_payload log parent attributes = tree.payload_fcu log parent attributes >>= λ payload.
      ok_or payload no_payload_id >>= λ id.
      ok_or (tree.resolve_kind log parent attributes id) payload_disappeared >>= λ built.
      built >>= λ block. ok_or block no_execution_output

  unfoldable pub queue_applied_block : ℕ → SealedHeader → ArbEngineDriver Text → Outcome Text ℕ
  unfolding send_event
  queue_applied_block sequence_number built d =
      and_next (send_event (block_inserted built) d) (λ d₁ sent₁.
        and_next (send_event (head_requested sequence_number built) d₁) (λ d₂ sent₂. (
          record d₂ {
            tip = built;
            pending_applied =
                some (record { sequence_number = sequence_number; new_header = built });
          },
          ok built.hash,
        )))

  unfoldable pub apply_one_native :
      ℕ → BroadcastFeedMessage Text → ArbEngineDriver Text → Outcome Text (ℕ × Option ℕ)
  unfolding native_payload_attributes settle_pending_applied resolve_payload queue_applied_block
  apply_one_native sequence_number msg d =
      let parent = d.tip.hash in
      let attributes = native_payload_attributes d msg in
      and_next (send_event (payload_requested parent attributes) d) (λ d₁ sent.
        and_next (settle_pending_applied d₁) (λ d₂ completed.
          and_next (d₂, resolve_payload d₂.log parent attributes)
            (λ d₃ built.
              and_next (queue_applied_block sequence_number built d₃)
                (λ d₄ hash. (d₄, ok (hash, completed))))))

  -- After a block is queued: the callback of the one before it, and the cursor moves on.
  abbrev pub after_apply :
      Outcome Text (ℕ × Option ℕ) → (ArbEngineDriver Text → ℕ → Outcome Text ℕ) → Outcome Text ℕ
  after_apply outcome next = and_next outcome (λ d result.
      let (hash, completed) = result in
      let d' = on_applied completed d in next (record d' { next_seq = d'.next_seq + 1 }) hash)

  -- `while let Some(buffered) = pending.remove(&next_seq)`. The fuel bounds its rounds.
  unfoldable pub drain_pending : ℕ → ArbEngineDriver Text → ℕ → Outcome Text ℕ
  unfolding apply_one_native
  drain_pending zero d hash = (d, ok hash)
  drain_pending (suc fuel) d hash = elim (Assoc.lookup d.next_seq d.pending) [
    | none ↦ (d, ok hash)
    | some buffered ↦
        after_apply
          (apply_one_native d.next_seq buffered
            (record d { pending = Assoc.remove d.next_seq d.pending }))
          (drain_pending fuel)
  ]

  unfoldable pub settle_and_notify : ArbEngineDriver Text → ℕ → Outcome Text ℕ
  unfolding settle_pending_applied
  settle_and_notify d hash =
      and_next (settle_pending_applied d) (λ d' completed. (on_applied completed d', ok hash))

  -- After the contiguous run: the tail is settled unless it may stay in flight, and the buffer is
  -- cleared below the cursor.
  unfoldable pub finish : Bool → ArbEngineDriver Text → ℕ → Outcome Text ℕ
  unfolding settle_and_notify
  finish defer_tail d hash =
      and_next (if defer_tail then (d, ok hash) else settle_and_notify d hash)
        (λ d' hash'. (record d' { pending = Assoc.retain_from d'.next_seq d'.pending }, ok hash'))

  unfoldable pub buffer : BroadcastFeedMessage Text → ArbEngineDriver Text → ArbEngineDriver Text
  buffer msg d =
      if ltb (length d.pending) max_pending
      then record d { pending = Assoc.insert msg.sequence_number msg d.pending }
      else d

  -- The message that the cursor waits for: each entry of the buffer is drained at most once, so
  -- their number is enough fuel.
  unfoldable pub apply_next :
      BroadcastFeedMessage Text → Bool → ArbEngineDriver Text → Outcome Text ℕ
  unfolding apply_one_native drain_pending finish
  apply_next msg defer_tail d =
      after_apply (apply_one_native msg.sequence_number msg d)
        (λ d₁ hash. and_next (drain_pending (length d₁.pending) d₁ hash) (finish defer_tail))

  unfoldable pub advance_with_applied_inner :
      BroadcastFeedMessage Text → Bool → ArbEngineDriver Text → Outcome Text ℕ
  unfolding settle_and_notify buffer apply_next
  advance_with_applied_inner msg defer_tail d =
      let seq = msg.sequence_number in
      if ltb seq d.next_seq
      then settle_and_notify d d.tip.hash
      else if ltb d.next_seq seq
      then settle_and_notify (buffer msg d) d.tip.hash
      else apply_next msg defer_tail d

  unfoldable pub advance_with_applied :
      BroadcastFeedMessage Text → ArbEngineDriver Text → Outcome Text ℕ
  unfolding advance_with_applied_inner
  advance_with_applied msg d = advance_with_applied_inner msg false d

  -- The driver over the messages of its channel, each with whether another one is ready. It stops at
  -- the first error.
  unfoldable pub advance_all :
      List (BroadcastFeedMessage Text × Bool) → ArbEngineDriver Text → ℕ → Outcome Text ℕ
  unfolding advance_with_applied_inner
  advance_all [] d hash = (d, ok hash)
  advance_all ((msg, defer_tail) ∷ msgs) d hash =
      and_next (advance_with_applied_inner msg defer_tail d) (advance_all msgs)
