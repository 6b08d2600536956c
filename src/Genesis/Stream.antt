-- ===== src/Genesis/Stream.antt =====
-- crates/arb-reth-genesis/src/snapshot_stream.rs: the reader of a full-snapshot stream. keccak256 is a
-- parameter; the inner reader is the list of the bytes that are left.
pub mod Bytes
pub mod Format
pub mod Linked
pub mod Given
pub mod Reads
pub mod Varint
pub mod Transactions
mod Runs
use arbitrum_reth.Genesis.Stream.Format.{
  magic, section_manifest, section_blocks, section_history, section_state, section_end, rec_end,
  rec_header, rec_body, rec_receipts, rec_account, rec_storage, rec_code, history_version_raw_slots,
  ResumePoint, Manifest, PreviousAccount, HistoryAccount, Record, SnapshotStream, header, body,
  receipts, history, account, storage_slot, code_blob,
}
use arbitrum_reth.Derive.Multiplexer.Step.{l1_block}
use arbitrum_reth.Derive.Multiplexer.Clock.{delayed_count}
use arbitrum_reth.Prelude.{
  ℕ, zero, suc, ◌+◌, ◌%◌, ◌^◌, Bool, true, false, not, ◌&&◌, ◌||◌, Option, none, some, List, [],
  ◌∷◌, ltb, leb, ◌==◌, if◌then◌else◌, Result, ◌>>=◌, ok_or, ok, err,
}
use arbitrum_reth.Prelude.Bytes.{from_be_bytes, to_be_bytes}
use arbitrum_reth.L1.Decode.{same_bytes}
use arbitrum_reth.Genesis.Stream.Bytes.{
  StreamError, Read, above_convert_point, bad_header, bad_magic, blocks_jump, code_hash_mismatch,
  does_not_advance, expected_blocks, header_field, header_hash_mismatch, history_ends_early,
  invalid_tag, no_history, not_the_manifest, optional_b256, read_b256, read_blob, read_exact,
  read_failed, read_short_bytes, read_short_u256, read_u8, read_uvarint, root_chain_broken,
  root_mismatch, unsupported_version, wrong_parent,
}

unfoldable pub read_resume : Read (Option ResumePoint)
unfolding read_u8 read_uvarint
read_resume bs = read_u8 bs >>= λ (flag, bs₁).
    if not (flag == 1)
    then ok (none, bs₁)
    else read_uvarint bs₁ >>= λ (l1, bs₂). read_uvarint bs₂ >>= λ (delayed, bs₃).
        read_uvarint bs₃ >>= λ (l2, bs₄).
        ok (some (record { l1_block = l1; delayed_count = delayed; l2_block = l2 }), bs₄)

unfoldable pub read_manifest : Read Manifest
unfolding read_uvarint read_b256 read_resume
read_manifest bs = read_uvarint bs >>= λ (block, bs₁). read_b256 bs₁ >>= λ (root, bs₂).
    read_uvarint bs₂ >>= λ (state_id, bs₃). read_b256 bs₃ >>= λ (hash, bs₄).
    read_resume bs₄ >>= λ (resume, bs₅).
    ok (
      record { block = block; root = root; state_id = state_id; hash = hash; resume = resume },
      bs₅,
    )

unfoldable pub open_stream : List ℕ → Result StreamError SnapshotStream
unfolding read_exact read_u8 read_manifest
open_stream bs = read_exact 8 bs >>= λ (found, bs₁).
    if not (same_bytes found magic)
    then err bad_magic
    else read_u8 bs₁ >>= λ (tag, bs₂).
        if not (tag == section_manifest)
        then err (not_the_manifest tag)
        else read_manifest bs₂ >>= λ (manifest, bs₃). ok (record {
          inner = bs₃;
          manifest = manifest;
          section = section_manifest;
          last_block = none;
          last_history = none;
          held = none;
          finished = false;
        })

unfoldable pub unread : Record → SnapshotStream → SnapshotStream
unread record_ s = record s { held = some record_ }

-- What `next_record` gives: a record or the end, and the stream after it.
abbrev pub Next : Type 0
Next = Result StreamError (Option Record × SnapshotStream)

abbrev pub give : Record → List ℕ → SnapshotStream → Next
give record_ bs s = ok (some record_, record s { inner = bs })

-- The number and the parent must follow the last block, if there is one. The sum wraps.
unfoldable pub check_link : Option (ℕ × ℕ) → ℕ → List ℕ → Result StreamError (Unit {0})
check_link none block parent = ok tt
check_link (some (last_number, last_hash)) block parent =
    if not (block == (last_number + 1) % 2 ^ 64)
    then err (blocks_jump last_number block)
    else if not (same_bytes parent (to_be_bytes 32 last_hash))
    then err (wrong_parent block)
    else ok tt

-- The block and the root must follow the last history object, if there is one.
unfoldable pub check_history_link : Option (ℕ × ℕ) → ℕ → ℕ → ℕ → Result StreamError (Unit {0})
check_history_link none state_id block parent_root = ok tt
check_history_link (some (last_block, last_post)) state_id block parent_root =
    if leb block last_block
    then err (does_not_advance block last_block)
    else if not (parent_root == last_post)
    then err (root_chain_broken block)
    else ok tt

unfoldable pub read_previous : Read (Option PreviousAccount)
unfolding read_u8 read_uvarint read_short_u256 read_short_bytes optional_b256
read_previous bs = read_u8 bs >>= λ (present, bs₁).
    if present == 0
    then ok (none, bs₁)
    else read_uvarint bs₁ >>= λ (nonce, bs₂). read_short_u256 bs₂ >>= λ (balance, bs₃).
        read_short_bytes bs₃ >>= λ (code_hash, bs₄). optional_b256 code_hash >>= λ hash.
        ok (some (record { nonce = nonce; balance = balance; code_hash = hash }), bs₄)

unfoldable pub read_slots : ℕ → Read (List (ℕ × ℕ))
unfolding read_b256 read_short_u256
read_slots zero bs = ok ([], bs)
read_slots (suc n) bs = read_b256 bs >>= λ (key, bs₁). read_short_u256 bs₁ >>= λ (value, bs₂).
    read_slots n bs₂ >>= λ (slots, bs₃). ok ((key, value) ∷ slots, bs₃)

unfoldable pub read_accounts : ℕ → Read (List HistoryAccount)
unfolding read_exact read_previous read_uvarint read_slots
read_accounts zero bs = ok ([], bs)
read_accounts (suc n) bs = read_exact 20 bs >>= λ (address, bs₁).
    read_previous bs₁ >>= λ (previous, bs₂). read_uvarint bs₂ >>= λ (slots, bs₃).
    read_slots slots bs₃ >>= λ (storage, bs₄). read_accounts n bs₄ >>= λ (accounts, bs₅). ok (
      record { address = from_be_bytes address; previous = previous; storage = storage } ∷ accounts,
      bs₅,
    )

-- The tests on a history object, before its accounts are read.
unfoldable pub check_history : SnapshotStream → ℕ → ℕ → ℕ → ℕ → Result StreamError (Unit {0})
unfolding check_history_link
check_history s state_id block version parent_root =
    if not (version == history_version_raw_slots)
    then err (unsupported_version version)
    else if ltb s.manifest.block block
    then err (above_convert_point block)
    else check_history_link s.last_history state_id block parent_root

unfoldable pub read_history : SnapshotStream → List ℕ → Next
unfolding read_uvarint read_u8 read_b256 check_history read_accounts
read_history s bs = read_uvarint bs >>= λ (state_id, bs₁). read_uvarint bs₁ >>= λ (block, bs₂).
    read_u8 bs₂ >>= λ (version, bs₃). read_b256 bs₃ >>= λ (parent_root, bs₄).
    read_b256 bs₄ >>= λ (post_root, bs₅).
    check_history s state_id block version parent_root >>= λ checked.
    read_uvarint bs₅ >>= λ (count, bs₆). read_accounts count bs₆ >>= λ (accounts, bs₇).
    give
      (history (record {
        state_id = state_id;
        block = block;
        parent_root = parent_root;
        post_root = post_root;
        accounts = accounts;
      }))
      bs₇ (record s { last_history = some (block, post_root) })

abbrev pub opens_section : ℕ → ℕ → Bool
opens_section section tag =
    section == section_manifest && tag == section_blocks
    || (section == section_blocks && tag == section_history
        || section == section_history && tag == section_state)

module _ (keccak256 : List ℕ → ℕ) where
  unfoldable pub check_header : SnapshotStream → ℕ → ℕ → List ℕ → Result StreamError (Unit {0})
  unfolding header_field check_link
  check_header s block hash rlp =
      if not (keccak256 rlp == hash)
      then err (header_hash_mismatch block)
      else if ltb s.manifest.block block
      then err (above_convert_point block)
      else ok_or (header_field rlp 0) (bad_header block) >>= λ parent.
          check_link s.last_block block parent

  unfoldable pub read_header : SnapshotStream → List ℕ → Next
  unfolding read_uvarint read_b256 read_blob check_header
  read_header s bs = read_uvarint bs >>= λ (block, bs₁). read_b256 bs₁ >>= λ (hash, bs₂).
      read_blob bs₂ >>= λ (rlp, bs₃). check_header s block hash rlp >>= λ checked.
      give (header block hash rlp) bs₃ (record s { last_block = some (block, hash) })

  unfoldable pub read_numbered : (ℕ → List ℕ → Record) → SnapshotStream → List ℕ → Next
  unfolding read_uvarint read_blob
  read_numbered make s bs = read_uvarint bs >>= λ (block, bs₁).
      read_blob bs₁ >>= λ (rlp, bs₂). give (make block rlp) bs₂ s

  unfoldable pub read_account : SnapshotStream → List ℕ → Next
  unfolding read_b256 read_uvarint read_short_u256 read_short_bytes optional_b256
  read_account s bs = read_b256 bs >>= λ (hashed_address, bs₁). read_uvarint bs₁ >>= λ (nonce, bs₂).
      read_short_u256 bs₂ >>= λ (balance, bs₃). read_short_bytes bs₃ >>= λ (code_hash, bs₄).
      optional_b256 code_hash >>= λ hash. give (account hashed_address nonce balance hash) bs₄ s

  unfoldable pub read_storage : SnapshotStream → List ℕ → Next
  unfolding read_b256 read_short_u256
  read_storage s bs = read_b256 bs >>= λ (hashed_slot, bs₁).
      read_short_u256 bs₁ >>= λ (value, bs₂). give (storage_slot hashed_slot value) bs₂ s

  unfoldable pub read_code : SnapshotStream → List ℕ → Next
  unfolding read_b256 read_blob
  read_code s bs = read_b256 bs >>= λ (hash, bs₁). read_blob bs₁ >>= λ (code, bs₂).
      if not (keccak256 code == hash)
      then err code_hash_mismatch
      else give (code_blob hash code) bs₂ s

  -- A tag of a record, in a section that takes it.
  unfoldable pub read_record : SnapshotStream → ℕ → List ℕ → Next
  unfolding read_header read_numbered read_history read_account read_storage read_code
  read_record s tag bs =
      if s.section == section_blocks && tag == rec_header
      then read_header s bs
      else if s.section == section_blocks && tag == rec_body
      then read_numbered body s bs
      else if s.section == section_blocks && tag == rec_receipts
      then read_numbered receipts s bs
      else if s.section == section_history && tag == rec_header
      then read_history s bs
      else if s.section == section_state && tag == rec_account
      then read_account s bs
      else if s.section == section_state && tag == rec_storage
      then read_storage s bs
      else if s.section == section_state && tag == rec_code
      then read_code s bs
      else err (invalid_tag s.section tag)

  -- The loop over the tags, up to a record or the end.
  unfoldable pub next_tag : SnapshotStream → List ℕ → Next
  unfolding read_record
  next_tag s [] = err read_failed
  next_tag s (tag ∷ bs) =
      let opens = opens_section s.section tag in
      let more = next_tag (if opens then record s { section = tag } else s) bs in
      if opens
      then more
      else if s.section == section_state && tag == section_end
      then ok (none, record s { inner = bs; finished = true })
      else if s.section == section_manifest
      then err (expected_blocks tag)
      else if tag == rec_end
      then more
      else read_record s tag bs

  unfoldable pub next_record : SnapshotStream → Next
  unfolding next_tag
  next_record s = elim s.held [
    | some record_ ↦ ok (some record_, record s { held = none })
    | none ↦ if s.finished then ok (none, s) else next_tag s s.inner
  ]

-- The last history object must end at the exported state root.
unfoldable pub check_history_meets_state : SnapshotStream → Result StreamError (Unit {0})
check_history_meets_state s = elim s.last_history [
  | none ↦ err no_history
  | some (block, post_root) ↦
      if not (block == s.manifest.block)
      then err (history_ends_early block)
      else if not (post_root == s.manifest.root)
      then err root_mismatch
      else ok tt
]

-- The records of a reader: the one that was found, and the rest.
unfoldable pub add_record :
    Option Record
    → SnapshotStream
    → Result StreamError (List Record × SnapshotStream)
    → Result StreamError (List Record × SnapshotStream)
add_record none s rest = ok ([], s)
add_record (some record_) s rest = rest >>= λ (records, s'). ok (record_ ∷ records, s')

-- A reader that takes the records one after the other, up to the end or at most `n` of them.
unfoldable pub read_records :
    (List ℕ → ℕ) → ℕ → SnapshotStream → Result StreamError (List Record × SnapshotStream)
unfolding next_record add_record
read_records keccak256 zero s = ok ([], s)
read_records keccak256 (suc n) s =
    next_record keccak256 s >>= λ (found, s'). add_record found s' (read_records keccak256 n s')
