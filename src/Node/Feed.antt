-- ===== src/Node/Feed.antt =====
-- crates/arb-reth-node/src/feed.rs: the race of the feed's sources. The first copy of a sequence
-- number goes to the engine. Metrics and sockets are left out; an instant is a number.
pub mod Race
pub mod Eviction
mod Runs
use arbitrum_reth.Prelude.Assoc.{contains_key}
use arbitrum_reth.Prelude.{
  ℕ, zero, suc, ◌+◌, ◌-◌, ◌^◌, Bool, true, false, not, ◌&&◌, none, some, List, [], ◌∷◌, ltb, ◌==◌,
  if◌then◌else◌, length,
}
use arbitrum_reth.Prelude.Assoc
use arbitrum_reth.L1.Feed.{BroadcastFeedMessage}

abbrev pub max_recent_sequences : ℕ
max_recent_sequences = 16_384

abbrev pub u64_max : ℕ
u64_max = 2 ^ 64 - 1

pub data Observation : Type 0 where
  first : Observation
  duplicate : ℕ → Observation
  stale : Observation

-- The sequences seen, each with the instant at which its first copy was ready.
pub record SequenceRace : Type 0 where
  pub next_resume : ℕ
  pub recent : List (ℕ × ℕ)

-- `while recent.contains_key(&next_resume)`. The fuel bounds its rounds.
unfoldable pub advance : ℕ → List (ℕ × ℕ) → ℕ → ℕ
advance zero recent next = next
advance (suc fuel) recent next =
    let rest = advance fuel recent (next + 1) in
    if Assoc.contains_key next recent && not (next == u64_max) then rest else next

-- `while recent.len() > MAX_RECENT_SEQUENCES { recent.pop_first(); }`.
unfoldable pub evict : List (ℕ × ℕ) → List (ℕ × ℕ)
evict [] = []
evict (entry ∷ recent) =
    let rest = evict recent in
    if ltb max_recent_sequences (length (entry ∷ recent)) then rest else entry ∷ recent

-- A new sequence: each round of `advance` passes another key, so their number is enough.
unfoldable pub see : SequenceRace → ℕ → ℕ → SequenceRace
unfolding advance evict
see race sequence ready_at =
    let recent = Assoc.insert sequence ready_at race.recent in
    record { next_resume = advance (length recent) recent race.next_resume; recent = evict recent }

unfoldable pub observe : SequenceRace → ℕ → ℕ → Observation × SequenceRace
unfolding see
observe race sequence ready_at = elim (Assoc.lookup sequence race.recent) [
  | some winner_ready_at ↦ (duplicate winner_ready_at, race)
  | none ↦
      if ltb sequence race.next_resume then (stale, race) else (first, see race sequence ready_at)
]

pub record FeedIngress (Text : Type 0) : Type 0 where
  pub message : BroadcastFeedMessage Text
  pub ready_for_channel_at : ℕ

-- What the coordinator sent, and the shared reconnect cursor.
pub record Coordinated (Text : Type 0) : Type 0 where
  pub output : List (BroadcastFeedMessage Text)
  pub resume_sequence : ℕ

module _ {Text : Type 0} where
  abbrev pub forward : BroadcastFeedMessage Text → Coordinated Text → Coordinated Text
  forward m c = record { output = m ∷ c.output; resume_sequence = c.resume_sequence }

  -- What an observation leads to: `again` goes on with the next item. It takes the race, the number
  -- of sends and the cursor.
  abbrev pub after_observe :
      Observation × SequenceRace
      → BroadcastFeedMessage Text
      → Bool
      → ℕ
      → ℕ
      → (SequenceRace → ℕ → ℕ → Coordinated Text)
      → Coordinated Text
  after_observe (duplicate winner_ready_at, race) m sent sends resume again =
      again race sends resume
  after_observe (stale, race) m sent sends resume again = again race sends resume
  after_observe (first, race) m true sends resume again =
      forward m (again race (sends + 1) race.next_resume)
  after_observe (first, race) m false sends resume again = record {
    output = [];
    resume_sequence = race.next_resume;
  }

  -- The loop over the received items; `is_open` tells whether the n-th send finds the receiver.
  unfoldable pub coordinate_loop :
      (ℕ → Bool) → List (FeedIngress Text) → SequenceRace → ℕ → ℕ → Coordinated Text
  unfolding observe
  coordinate_loop is_open [] race sends resume = record { output = []; resume_sequence = resume }
  coordinate_loop is_open (item ∷ items) race sends resume =
      after_observe (observe race item.message.sequence_number item.ready_for_channel_at)
        item.message (is_open sends) sends resume (coordinate_loop is_open items)

  unfoldable pub coordinate : (ℕ → Bool) → ℕ → List (FeedIngress Text) → Coordinated Text
  unfolding coordinate_loop
  coordinate is_open resume_sequence items =
      coordinate_loop is_open items (record { next_resume = resume_sequence; recent = [] }) 0
        resume_sequence
