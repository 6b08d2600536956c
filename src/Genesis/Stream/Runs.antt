-- ===== src/Genesis/Stream/Runs.antt =====
-- crates/arb-reth-genesis/src/snapshot_stream.rs: a stream with one header and one history object, and
-- a hash that is the length.
use arbitrum_reth.Genesis.Stream.Varint.{put_uvarint, read_uvarint-put_uvarint}
use arbitrum_reth.Genesis.Stream.Transactions.{
  leaves, transactions_of, transactions_root, transactions_root-ne-stuck,
}
use arbitrum_reth.Genesis.Stream.Format.{
  magic, section_manifest, section_state, Manifest, Record, SnapshotStream, header, history,
}
use arbitrum_reth.L1.Decode.{same_bytes}
use arbitrum_reth.Genesis.Stream.Linked.{Linked, last_history_of}
use arbitrum_reth.Genesis.Stream.Reads.{open_stream-Linked}
use arbitrum_reth.Genesis.Stream.Bytes.{read_uvarint, no_history}
use arbitrum_reth.Prelude.Bytes.{to_be_bytes, from_be_bytes}
use arbitrum_reth.Genesis.Stream.{open_stream, check_history_meets_state, read_records}
use arbitrum_reth.Prelude.{
  ℕ, ◌≡◌, refl, ◌≢◌, ◌↔◌, true, false, none, some, List, [], ◌∷◌, ◌++◌, arith, length, ◌>>=◌, ok,
  err, stuck,
}

abbrev word : ℕ → List ℕ
word n = to_be_bytes 32 n

-- A list with one field, the parent's hash.
abbrev some_header : List ℕ
some_header = 0xe1 ∷ 0xa0 ∷ word 7

abbrev some_records : List ℕ
some_records =
    0xf2 ∷ 1 ∷ 5 ∷ word 34
    ++ 34 ∷ some_header
    ++ 0 ∷ 0xf3 ∷ 1 ∷ 1 ∷ 5 ∷ 1 ∷ word 3
    ++ word 9
    ++ 0 ∷ 0 ∷ 0xf4 ∷ 0 ∷ 0xff ∷ []

abbrev some_stream : List ℕ
some_stream = magic ++ 0xf1 ∷ 5 ∷ word 9 ++ 1 ∷ word 34 ++ 0 ∷ some_records

abbrev some_manifest : Manifest
some_manifest = record { block = 5; root = 9; state_id = 1; hash = 34; resume = none }

abbrev opened : SnapshotStream
opened = record {
  inner = some_records;
  manifest = some_manifest;
  section = section_manifest;
  last_block = none;
  last_history = none;
  held = none;
  finished = false;
}

abbrev read : List Record
read =
    header 5 34 some_header
    ∷ history (record { state_id = 1; block = 5; parent_root = 3; post_root = 9; accounts = [] })
    ∷ []

abbrev at_end : SnapshotStream
at_end = record {
  inner = [];
  manifest = some_manifest;
  section = section_state;
  last_block = some (5, 34);
  last_history = some (5, 9);
  held = none;
  finished = true;
}

opens : open_stream some_stream ≡ ok opened
unfolding open_stream to_be_bytes same_bytes from_be_bytes
opens = refl

reads : read_records length 3 opened ≡ ok (read, at_end)
unfolding read_records to_be_bytes from_be_bytes
reads = refl

meets : check_history_meets_state at_end ≡ ok tt
unfolding check_history_meets_state
meets = refl

open_stream-Linked_example :
    Linked length some_manifest none none read
    × ((check_history_meets_state at_end ≡ ok tt) ↔ (last_history_of none read ≡ some (5, 9)))
open_stream-Linked_example =
    open_stream-Linked length 3 some_stream opened (read, at_end) opens reads

-- Before the history section there is no history object, and the last test fails.
reads_header :
    (read_records length 1 opened >>= λ out. check_history_meets_state out.1) ≡ err no_history
unfolding read_records check_history_meets_state to_be_bytes from_be_bytes
reads_header = refl

-- Nine groups of zeros and a last group whose bit has no place in 64 bits: no overflow is reported.
read_uvarint_wide :
    read_uvarint (128 ∷ 128 ∷ 128 ∷ 128 ∷ 128 ∷ 128 ∷ 128 ∷ 128 ∷ 128 ∷ 2 ∷ []) ≡ ok (0, [])
unfolding read_uvarint
read_uvarint_wide = refl

read_uvarint-put_uvarint_example :
    (bs : List ℕ) × (put_uvarint 300 ≡ ok bs) × (read_uvarint (bs ++ 9 ∷ []) ≡ ok (300, 9 ∷ []))
read_uvarint-put_uvarint_example = read_uvarint-put_uvarint 300 (9 ∷ []) (omega arith)

put_300 : put_uvarint 300 ≡ ok (0xac ∷ 0x02 ∷ [])
unfolding put_uvarint
put_300 = refl

-- A legacy transaction and a typed one, no uncles.
abbrev some_body : List ℕ
some_body = 0xc7 ∷ 0xc5 ∷ 0xc1 ∷ 0x05 ∷ 0x82 ∷ 0x02 ∷ 0x03 ∷ 0xc0 ∷ []

some_leaves :
    (transactions_of some_body >>= λ txs. leaves (length txs) txs)
    ≡ ok ((0xc1 ∷ 0x05 ∷ []) ∷ (0x02 ∷ 0x03 ∷ []) ∷ [])
unfolding transactions_of leaves
some_leaves = refl

transactions_root-ne-stuck_example : transactions_root length some_body ≢ stuck
transactions_root-ne-stuck_example = transactions_root-ne-stuck length some_body
