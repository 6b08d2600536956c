-- ===== src/Derive/Delayed.antt =====
-- crates/arb-reth-derive/src/delayed.rs: delayed-inbox messages. keccak256 is a parameter, and a
-- `DelayedSource` is the function that its one method is.
use arbitrum_reth.Prelude.{ℕ, Option, none, some, List, [], ◌∷◌, ◌++◌}
use arbitrum_reth.Prelude.Bytes.{from_be_bytes, to_be_bytes}
use arbitrum_reth.Prelude.Assoc
use arbitrum_reth.Derive.Message.{DerivedMessage}

-- `keccak256`: a hash is the number that its 32 bytes write.
abbrev pub Keccak : Type 0
Keccak = List ℕ → ℕ

pub record DelayedMessage : Type 0 where
  pub kind : ℕ
  pub sender : ℕ
  pub block_number : ℕ
  pub timestamp : ℕ
  pub inbox_seq_num : ℕ
  pub base_fee_l1 : ℕ
  pub body : List ℕ
  pub before_inbox_acc : ℕ

unfoldable pub delayed_message_hash : Keccak → ℕ → ℕ → ℕ → ℕ → ℕ → ℕ → ℕ → ℕ
delayed_message_hash keccak kind sender block timestamp seq base_fee body_hash = keccak (
    (kind ∷ [])
    ++ (to_be_bytes 20 sender
        ++ (to_be_bytes 8 block
            ++ (to_be_bytes 8 timestamp
                ++ (to_be_bytes 32 seq ++ (to_be_bytes 32 base_fee ++ to_be_bytes 32 body_hash))))))

unfoldable pub message_data_hash : Keccak → DelayedMessage → ℕ
message_data_hash keccak m = keccak m.body

unfoldable pub message_hash : Keccak → DelayedMessage → ℕ
unfolding delayed_message_hash message_data_hash
message_hash keccak m =
    delayed_message_hash keccak m.kind m.sender m.block_number m.timestamp m.inbox_seq_num
      m.base_fee_l1 (message_data_hash keccak m)

-- The accumulator step: `keccak256(beforeAcc ++ messageHash)`.
unfoldable pub accumulate : Keccak → ℕ → ℕ → ℕ
accumulate keccak before_acc hash = keccak (to_be_bytes 32 before_acc ++ to_be_bytes 32 hash)

unfoldable pub accumulator : Keccak → DelayedMessage → ℕ
accumulator keccak m =
    keccak (to_be_bytes 32 m.before_inbox_acc ++ to_be_bytes 32 (message_hash keccak m))

unfoldable pub request_id : DelayedMessage → ℕ
request_id m = from_be_bytes (to_be_bytes 32 m.inbox_seq_num)

unfoldable pub to_derived : DelayedMessage → ℕ → DerivedMessage
unfolding request_id
to_derived m delayed_messages_read = record {
  header = record {
    kind = m.kind;
    poster = m.sender;
    block_number = m.block_number;
    timestamp = m.timestamp;
    request_id = some (request_id m);
    l1_base_fee = m.base_fee_l1;
  };
  l2_msg = m.body;
  delayed_messages_read = delayed_messages_read;
}

abbrev pub DelayedSource : Type 0
DelayedSource = ℕ → Option DelayedMessage

unfoldable pub no_delayed : DelayedSource
no_delayed index = none

abbrev pub DelayedMap : Type 0
DelayedMap = List (ℕ × DelayedMessage)

-- `collect` into a `BTreeMap`: a later message replaces an earlier one of its index.
insert_all : List DelayedMessage → DelayedMap → DelayedMap
insert_all [] m = m
insert_all (d ∷ ds) m = insert_all ds (Assoc.insert d.inbox_seq_num d m)

unfoldable pub from_messages : List DelayedMessage → DelayedMap
unfolding insert_all
from_messages msgs = insert_all msgs []

unfoldable pub map_source : DelayedMap → DelayedSource
map_source m index = Assoc.lookup index m
