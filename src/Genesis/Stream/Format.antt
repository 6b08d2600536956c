-- ===== src/Genesis/Stream/Format.antt =====
-- crates/arb-reth-genesis/src/snapshot_stream.rs: the tags of the format, its records and the state of a
-- reader.
use arbitrum_reth.Prelude.{ℕ, Bool, Option, List, [], ◌∷◌}

abbrev pub magic : List ℕ
magic = 65 ∷ 82 ∷ 66 ∷ 83 ∷ 78 ∷ 65 ∷ 80 ∷ 50 ∷ []

abbrev pub section_manifest : ℕ
section_manifest = 0xf1

abbrev pub section_blocks : ℕ
section_blocks = 0xf2

abbrev pub section_history : ℕ
section_history = 0xf3

abbrev pub section_state : ℕ
section_state = 0xf4

abbrev pub section_end : ℕ
section_end = 0xff

abbrev pub rec_end : ℕ
rec_end = 0x00

abbrev pub rec_header : ℕ
rec_header = 0x01

abbrev pub rec_body : ℕ
rec_body = 0x02

abbrev pub rec_receipts : ℕ
rec_receipts = 0x03

abbrev pub rec_account : ℕ
rec_account = 0x04

abbrev pub rec_storage : ℕ
rec_storage = 0x05

abbrev pub rec_code : ℕ
rec_code = 0x06

abbrev pub history_version_raw_slots : ℕ
history_version_raw_slots = 1

pub record ResumePoint : Type 0 where
  pub l1_block : ℕ
  pub delayed_count : ℕ
  pub l2_block : ℕ

pub record Manifest : Type 0 where
  pub block : ℕ
  pub root : ℕ
  pub state_id : ℕ
  pub hash : ℕ
  pub resume : Option ResumePoint

pub record PreviousAccount : Type 0 where
  pub nonce : ℕ
  pub balance : ℕ
  pub code_hash : Option ℕ

pub record HistoryAccount : Type 0 where
  pub address : ℕ
  pub previous : Option PreviousAccount
  pub storage : List (ℕ × ℕ)

pub record HistoryObject : Type 0 where
  pub state_id : ℕ
  pub block : ℕ
  pub parent_root : ℕ
  pub post_root : ℕ
  pub accounts : List HistoryAccount

pub data Record : Type 0 where
  header : ℕ → ℕ → List ℕ → Record
  body : ℕ → List ℕ → Record
  receipts : ℕ → List ℕ → Record
  history : HistoryObject → Record
  account : ℕ → ℕ → ℕ → Option ℕ → Record
  storage_slot : ℕ → ℕ → Record
  code_blob : ℕ → List ℕ → Record

pub record SnapshotStream : Type 0 where
  pub inner : List ℕ
  pub manifest : Manifest
  pub section : ℕ
  pub last_block : Option (ℕ × ℕ)
  pub last_history : Option (ℕ × ℕ)
  pub held : Option Record
  pub finished : Bool
