-- ===== src/Engine/Sequence/Runs.antt =====
-- Five messages that come out of order and twice, to a tree that always serves.
use arbitrum_reth.Engine.Sequence.Refinement.{advance_all-replays, advance_all-agrees}
use arbitrum_reth.Engine.Sequence.Callbacks.{advance_all-callback_numbers, callback_numbers, flying}
use arbitrum_reth.Engine.Sequence.Chain.{delivered, deliveries, replay}
use arbitrum_reth.Engine.Sequence.{
  ArbEngineDriver, ArbPayloadAttributes, SealedHeader, Tree, advance_all, resolve_payload,
  settle_result, spawn, was_observable, Poll, any_names, is_shown, wait_for_head,
}
use arbitrum_reth.Engine.Sequence.Buffer.{IsBuffer, advance_all-IsBuffer}
use arbitrum_reth.Engine.Sequence.Numbering.{advance_all-queued_numbers, queued_numbers, run_from}
use arbitrum_reth.Engine.Sequence.Healthy.{Serves}
use arbitrum_reth.Prelude.{
  ℕ, ◌+◌, ◌-◌, ◌≤◌, ◌<◌, ◌≡◌, refl, inl, inr, Bool, true, false, ◌||◌, none, some, List, [], ◌∷◌,
  ◌++◌, arith, ◌==◌, ==_refl, Bool-cases, ok,
}
use arbitrum_reth.Prelude.Assoc
use arbitrum_reth.L1.Feed.{BroadcastFeedMessage}

abbrev message : ℕ → BroadcastFeedMessage ℕ
message k = record {
  sequence_number = k;
  header = record {
    kind = 3;
    sender = 1;
    block_number = 2;
    timestamp = 100 + k;
    request_id = none;
    base_fee_l1 = 0;
  };
  l2msg = 5;
  batch_data_stats = none;
  delayed_messages_read = 1;
}

-- The hash and the number of a block are one more than its parent's hash.
abbrev produce : ℕ → ArbPayloadAttributes ℕ → SealedHeader
produce parent attributes = record {
  hash = parent + 1;
  number = parent + 1;
  timestamp = attributes.timestamp;
}

-- The head is observed at once.
abbrev poll : SealedHeader → Poll
poll header = record {
  block_hash = some header.hash;
  canonical_head = record { hash = 0; number = 0; timestamp = 0 };
  observed = [];
  past_deadline = false;
  received = none;
}

abbrev tree : Tree ℕ
tree = record {
  is_open = λ log. true;
  payload_fcu = λ log parent attributes. ok (some 1);
  resolve_kind = λ log parent attributes id. some (ok (some (produce parent attributes)));
  final_fcu = λ log header. none;
  block_hash = λ log number. none;
  canonical_head = λ log. record { hash = 0; number = 0; timestamp = 0 };
  polls = λ log header. poll header ∷ [];
}

or_true : (a : Bool) → (a || true) ≡ true
or_true true = refl
or_true false = refl

waits : (header : SealedHeader) → wait_for_head (poll header ∷ []) header ≡ true
unfolding wait_for_head is_shown any_names
waits header = simp (==_refl)

tree-Serves : Serves tree produce
unfolding resolve_payload settle_result
tree-Serves = record {
  opens = λ log. refl;
  builds = λ log parent attributes. refl;
  settles = λ log p.
      rw (settle_result, waits p.new_header, or_true (was_observable tree log p.new_header)) refl;
}

abbrev genesis : SealedHeader
genesis = record { hash = 10; number = 10; timestamp = 102 }

abbrev driver : ArbEngineDriver ℕ
driver = record { tip = genesis; pending_applied = none; next_seq = 3; pending = []; log = [] }

abbrev order : List (ℕ × Bool)
order = (4, false) ∷ (6, false) ∷ (4, true) ∷ (3, true) ∷ (2, false) ∷ []

abbrev other_order : List (ℕ × Bool)
other_order = (2, true) ∷ (3, false) ∷ (6, false) ∷ (4, false) ∷ []

spawned : (spawn {Text = ℕ} genesis 8).next_seq ≡ 3
unfolding spawn
spawned = refl

advance_all-queued_numbers_example :
    let e = (advance_all tree (deliveries produce message order) driver 10).0 in
    (3 ≤ e.next_seq) × (queued_numbers e.log ≡ run_from 3 (e.next_seq - 3))
unfolding queued_numbers
advance_all-queued_numbers_example =
    advance_all-queued_numbers tree (deliveries produce message order) driver 10 refl

final_run :
    (head : ℕ) × (advance_all tree (deliveries produce message order) driver 10
      ≡ ((advance_all tree (deliveries produce message order) driver 10).0, ok head))
unfolding advance_all deliveries Assoc.insert Assoc.lookup Assoc.remove
final_run = (12, refl)

advance_all-callback_numbers_example :
    let e = (advance_all tree (deliveries produce message order) driver 10).0 in
    queued_numbers e.log ≡ flying e.pending_applied ++ callback_numbers e.log
unfolding queued_numbers callback_numbers
advance_all-callback_numbers_example =
    advance_all-callback_numbers tree (deliveries produce message order) driver
      (advance_all tree (deliveries produce message order) driver 10).0 10 final_run.0 refl
      final_run.1

advance_all-IsBuffer_example :
    IsBuffer (advance_all tree (deliveries produce message order) driver 10).0
unfolding Assoc.lookup
advance_all-IsBuffer_example =
    advance_all-IsBuffer tree (deliveries produce message order) driver 10
      ((λ k msg found. absurd (ground (arith, found))), omega arith)

advance_all-replays_example :
    (e : ArbEngineDriver ℕ) × (head count : ℕ) × (advance_all tree
        (deliveries produce message order)
        driver
        10
      ≡ (e, ok head))
    × (e.tip ≡ replay produce message genesis 3 count)
    × (e.next_seq ≡ 3 + count)
    × ((i : ℕ) → i < count → delivered (3 + i) order ≡ true)
    × (delivered (3 + count) order ≡ false)
advance_all-replays_example =
    advance_all-replays tree produce tree-Serves message (λ k. refl) genesis 3 order driver 10 refl
      refl refl (omega arith)

same_messages : (k : ℕ) → delivered k order ≡ delivered k other_order
unfolding delivered
same_messages k = elim (Bool-cases (4 == k)) [ inl t ↦ ground arith | inr f ↦ ground arith ]

advance_all-agrees_example :
    let e = (advance_all tree (deliveries produce message order) driver 10).0 in
    let f = (advance_all tree (deliveries produce message other_order) driver 10).0 in
    (e.tip ≡ f.tip) × (e.next_seq ≡ f.next_seq)
advance_all-agrees_example =
    advance_all-agrees tree produce tree-Serves message (λ k. refl) genesis 3 order other_order
      driver 10 refl refl refl (omega arith) (omega arith) same_messages
