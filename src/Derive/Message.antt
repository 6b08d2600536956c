-- ===== src/Derive/Message.antt =====
-- crates/arb-reth-derive/src/message.rs: the messages a batch decodes into. An address, a hash and
-- a U256 are numbers (big-endian), a `Vec<u8>` is a list of numbers.
use arbitrum_reth.Prelude.{ℕ, List, Option}

abbrev pub batch_poster_address : ℕ
batch_poster_address = 0xA4B000000000000000000073657175656e636572

abbrev pub kind_l2_message : ℕ
kind_l2_message = 3

pub record L1IncomingMessageHeader : Type 0 where
  pub kind : ℕ
  pub poster : ℕ
  pub block_number : ℕ
  pub timestamp : ℕ
  pub request_id : Option ℕ
  pub l1_base_fee : ℕ

pub record DerivedMessage : Type 0 where
  pub header : L1IncomingMessageHeader
  pub l2_msg : List ℕ
  pub delayed_messages_read : ℕ
