-- ===== src/Genesis/Stream/Linked.antt =====
-- crates/arb-reth-genesis/src/snapshot_stream.rs: what the records of a stream that is read have in
-- common: the headers are one chain of hashes, and the history objects one chain of roots.
use arbitrum_reth.Genesis.Stream.Format.{
  history_version_raw_slots, Manifest, HistoryObject, Record, SnapshotStream, header, body,
  receipts, history, account, storage_slot, code_blob,
}
use arbitrum_reth.Genesis.Stream.{check_history_link, check_link, check_header, check_history}
use arbitrum_reth.Prelude.{
  ℕ, ◌+◌, ◌%◌, ◌^◌, ◌≤◌, ◌<◌, ◌≡◌, inl, inr, true, Option, none, some, List, [], ◌∷◌, arith, ltb,
  ◌==◌, Bool-cases, >>=-eq-ok, ok_or-some, ok,
}
use arbitrum_reth.Prelude.Bytes.{to_be_bytes}
use arbitrum_reth.L1.Decode.{same_bytes}
use arbitrum_reth.Genesis.Stream.Bytes.{header_field}

-- A step from a block to the next one.
abbrev pub Builds : Option (ℕ × ℕ) → ℕ → List ℕ → Type 0
Builds none block rlp = Unit
Builds (some (last_number, last_hash)) block rlp =
    (parent : List ℕ) × (block ≡ (last_number + 1) % 2 ^ 64)
    × (header_field rlp 0 ≡ some parent)
    × (same_bytes parent (to_be_bytes 32 last_hash) ≡ true)

-- A step from a history object to the next one.
abbrev pub Advances : Option (ℕ × ℕ) → HistoryObject → Type 0
Advances none object = Unit
Advances (some (last_block, last_post)) object =
    (last_block < object.block) × (object.parent_root ≡ last_post)

module _ (keccak256 : List ℕ → ℕ) where
  -- What the tests of a record ask, at a last block and a last history object.
  abbrev pub Allowed : Manifest → Option (ℕ × ℕ) → Option (ℕ × ℕ) → Record → Type 0
  Allowed m b h (header block hash rlp) =
      (keccak256 rlp ≡ hash) × (block ≤ m.block) × Builds b block rlp
  Allowed m b h (history object) = (object.block ≤ m.block) × Advances h object
  Allowed m b h (code_blob hash code) = keccak256 code ≡ hash
  Allowed m b h (body block rlp) = Unit
  Allowed m b h (receipts block rlp) = Unit
  Allowed m b h (account address nonce balance code_hash) = Unit
  Allowed m b h (storage_slot slot value) = Unit

abbrev pub block_after : Option (ℕ × ℕ) → Record → Option (ℕ × ℕ)
block_after b (header block hash rlp) = some (block, hash)
block_after b _ = b

abbrev pub history_after : Option (ℕ × ℕ) → Record → Option (ℕ × ℕ)
history_after h (history object) = some (object.block, object.post_root)
history_after h _ = h

unfoldable pub last_history_of : Option (ℕ × ℕ) → List Record → Option (ℕ × ℕ)
last_history_of h [] = h
last_history_of h (r ∷ rs) = last_history_of (history_after h r) rs

module _ (keccak256 : List ℕ → ℕ) where
  -- A list of records whose headers are one chain and whose history objects are one chain.
  abbrev pub Linked : Manifest → Option (ℕ × ℕ) → Option (ℕ × ℕ) → List Record → Type 0
  Linked m b h [] = Unit
  Linked m b h (r ∷ rs) =
      Allowed keccak256 m b h r × Linked m (block_after b r) (history_after h r) rs

  -- A record that was given, and the stream after it.
  abbrev pub Given : SnapshotStream → Option Record × SnapshotStream → Type 0
  Given s (none, s') =
      (s'.last_block ≡ s.last_block)
      × (s'.last_history ≡ s.last_history)
      × (s'.manifest ≡ s.manifest)
      × (s'.held ≡ s.held)
  Given s (some r, s') =
      Allowed keccak256 s.manifest s.last_block s.last_history r
      × (s'.last_block ≡ block_after s.last_block r)
      × (s'.last_history ≡ history_after s.last_history r)
      × (s'.manifest ≡ s.manifest)
      × (s'.held ≡ s.held)

  check_link-Builds :
      (b : Option (ℕ × ℕ)) (block : ℕ) (rlp parent : List ℕ)
      → header_field rlp 0 ≡ some parent
      → check_link b block parent ≡ ok tt
      → Builds b block rlp
  unfolding check_link
  check_link-Builds none block rlp parent field h = tt
  check_link-Builds (some (n, hash)) block rlp parent field h =
      (parent, ground arith, field, ground arith)

  check_history_link-Advances :
      (last : Option (ℕ × ℕ)) (object : HistoryObject)
      → check_history_link last object.state_id object.block object.parent_root ≡ ok tt
      → Advances last object
  unfolding check_history_link
  check_history_link-Advances none object h = tt
  check_history_link-Advances (some (block, root)) object h = (ground arith, ground arith)

  pub check_header-Allowed :
      (s : SnapshotStream) (block hash : ℕ) (rlp : List ℕ)
      → check_header keccak256 s block hash rlp ≡ ok tt
      → Allowed keccak256 s.manifest s.last_block s.last_history (header block hash rlp)
  unfolding check_header
  check_header-Allowed s block hash rlp passed = elim (Bool-cases (keccak256 rlp == hash)) [
    | inr f ↦ absurd (ground (arith, rw f at passed))
    | inl t ↦ elim (Bool-cases (ltb s.manifest.block block)) [
      | inl u ↦ absurd (ground (arith, rw (t, u) at passed))
      | inr g ↦
          let rest = rw (t, g) at passed in
          let (parent, field, linked) = >>=-eq-ok _ _ rest in
          (
            ground arith,
            ground arith,
            check_link-Builds s.last_block block rlp parent (ok_or-some _ _ field) linked,
          )
    ]
  ]

  pub check_history-Allowed :
      (s : SnapshotStream) (version : ℕ) (object : HistoryObject)
      → check_history s object.state_id object.block version object.parent_root ≡ ok tt
      → Allowed keccak256 s.manifest s.last_block s.last_history (history object)
  unfolding check_history
  check_history-Allowed s version object passed =
      elim (Bool-cases (version == history_version_raw_slots)) [
        | inr f ↦ absurd (ground (arith, rw f at passed))
        | inl t ↦ elim (Bool-cases (ltb s.manifest.block object.block)) [
          | inl u ↦ absurd (ground (arith, rw (t, u) at passed))
          | inr g ↦ (
            ground arith,
            check_history_link-Advances s.last_history object (rw (t, g) at passed),
          )
        ]
      ]
