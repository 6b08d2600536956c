-- ===== src/L1/Delayed.antt =====
-- crates/arb-reth-l1/src/delayed.rs: delayed-inbox messages from the logs of L1. The RPC provider is
-- outside the model: a scan is the list of logs that it returned.
pub mod Chain
mod Runs
use Prim.Native.String.{String}
use arbitrum_reth.Prelude.{
  ℕ, ◌+◌, ◌*◌, ◌%◌, ◌^◌, Bool, true, not, ◌&&◌, Option, none, some, List, [], ◌∷◌, ltb, leb, ◌==◌,
  if◌then◌else◌, length, get_elem?, take, drop, Result, ◌>>=◌, ok_or, ok, err,
}
use arbitrum_reth.Prelude.Assoc
use arbitrum_reth.Prelude.Bytes.{from_be_bytes}
use arbitrum_reth.Derive.Batch.{word, u64_at, u64_word, low_byte, event_data_wrong_len}
use arbitrum_reth.Derive.Delayed.{
  DelayedMessage, DelayedMap, Keccak, message_data_hash, accumulator, from_messages,
}
use arbitrum_reth.L1.Errors.{L1Error, missing, batch, blob}

pub record DelayedEvent : Type 0 where
  pub index : ℕ
  pub before_inbox_acc : ℕ
  pub inbox : ℕ
  pub kind : ℕ
  pub sender : ℕ
  pub message_data_hash : ℕ
  pub base_fee_l1 : ℕ
  pub timestamp : ℕ
  pub l1_block : ℕ

-- The message that the metadata and the body make, before the check.
abbrev pub message_of : DelayedEvent → List ℕ → DelayedMessage
message_of e body = record {
  kind = e.kind;
  sender = e.sender;
  block_number = e.l1_block;
  timestamp = e.timestamp;
  inbox_seq_num = e.index;
  base_fee_l1 = e.base_fee_l1;
  body = body;
  before_inbox_acc = e.before_inbox_acc;
}

-- The index in the error text is left out.
unfoldable pub into_message : Keccak → DelayedEvent → List ℕ → Result L1Error DelayedMessage
unfolding message_data_hash
into_message keccak e body =
    if message_data_hash keccak (message_of e body) == e.message_data_hash
    then ok (message_of e body)
    else err (blob "delayed body hash mismatch")

-- `bodies.get(&(index, inbox))`: keyed by the index and the emitter.
unfoldable pub find_body : ℕ → ℕ → List ((ℕ × ℕ) × List ℕ) → Option (List ℕ)
find_body index inbox [] = none
find_body index inbox (((i, a), body) ∷ bodies) =
    if i == index && a == inbox then some body else find_body index inbox bodies

-- `fetch_delayed`: the events in ascending order of the index, each paired with its body.
unfoldable pub pair_bodies :
    Keccak → List DelayedEvent → List ((ℕ × ℕ) × List ℕ) → Result L1Error (List DelayedMessage)
unfolding into_message find_body
pair_bodies keccak [] bodies = ok []
pair_bodies keccak (e ∷ es) bodies = do
  body ←
      ok_or (find_body e.index e.inbox bodies) (missing "delayed message body for (index, inbox)")
  m ← into_message keccak e body
  ms ← pair_bodies keccak es bodies
  ok (m ∷ ms)

-- `fetch_metas` puts the events in a map by index.
unfoldable pub metas_of : List DelayedEvent → List (ℕ × DelayedEvent) → List (ℕ × DelayedEvent)
metas_of [] metas = metas
metas_of (e ∷ es) metas = metas_of es (Assoc.insert e.index e metas)

unfoldable pub fetch_delayed :
    Keccak → List DelayedEvent → List ((ℕ × ℕ) × List ℕ) → Result L1Error (List DelayedMessage)
unfolding metas_of pair_bodies
fetch_delayed keccak events bodies = pair_bodies keccak (Assoc.values (metas_of events [])) bodies

unfoldable pub fetch_delayed_map :
    Keccak → List DelayedEvent → List ((ℕ × ℕ) × List ℕ) → Result L1Error DelayedMap
unfolding fetch_delayed
fetch_delayed_map keccak events bodies = do
  ms ← fetch_delayed keccak events bodies
  ok (from_messages ms)

-- `msgs.windows(2).all(..)`.
unfoldable pub verify_accumulator_chain : Keccak → List DelayedMessage → Bool
verify_accumulator_chain keccak [] = true
verify_accumulator_chain keccak (a ∷ []) = true
verify_accumulator_chain keccak (a ∷ b ∷ ms) =
    (b.inbox_seq_num == a.inbox_seq_num + 1 && accumulator keccak a == b.before_inbox_acc)
    && verify_accumulator_chain keccak (b ∷ ms)

-- `t.0[24..32]` of the indexed topic 1, as a u64; a topic is the number of its 32 bytes.
abbrev pub topic_low_u64 : ℕ → ℕ
topic_low_u64 t = t % 2 ^ 64

unfoldable pub topic_u64 : List ℕ → String → Result L1Error ℕ
topic_u64 topics what = ok_or (get_elem? topics 1) (missing what) >>= λ t. ok (topic_low_u64 t)

unfoldable pub parse_message_delivered : List ℕ → List ℕ → ℕ → Result L1Error DelayedEvent
parse_message_delivered (t0 ∷ t1 ∷ t2 ∷ more) bytes l1_block =
    if not (length bytes == 6 * 32)
    then err (batch (event_data_wrong_len (length bytes)))
    else ok (record {
      index = topic_low_u64 t1;
      before_inbox_acc = t2;
      inbox = from_be_bytes (drop 12 (word bytes 0));
      kind = low_byte (word bytes 1);
      sender = from_be_bytes (drop 12 (word bytes 2));
      message_data_hash = from_be_bytes (word bytes 3);
      base_fee_l1 = from_be_bytes (word bytes 4);
      timestamp = u64_word bytes 5;
      l1_block = l1_block;
    })
parse_message_delivered topics bytes l1_block = err (missing "MessageDelivered indexed topics")

-- `abi.encode(bytes)`: an offset word, a length word and the body.
unfoldable pub parse_inbox_message_data : List ℕ → Result L1Error (List ℕ)
parse_inbox_message_data bytes =
    let len = from_be_bytes (take 32 (drop 32 bytes)) in
    if ltb (length bytes) 64
    then err (missing "InboxMessageDelivered data head")
    else if leb (2 ^ 64) len
    then err (missing "InboxMessageDelivered length overflow")
    else if ltb (length bytes) (64 + len)
    then err (missing "InboxMessageDelivered body")
    else ok (take len (drop 64 bytes))
