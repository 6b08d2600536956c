-- ===== src/Genesis/Stream/Given.antt =====
-- crates/arb-reth-genesis/src/snapshot_stream.rs: what each arm of the loop over the tags gives.
use arbitrum_reth.Genesis.Stream.Format.{
  section_blocks, section_history, section_state, rec_header, rec_body, rec_receipts, rec_account,
  rec_storage, rec_code, HistoryObject, Record, SnapshotStream, body, receipts, history, account,
  storage_slot, code_blob,
}
use arbitrum_reth.Genesis.Stream.Linked.{Given, check_header-Allowed, check_history-Allowed}
use arbitrum_reth.Genesis.Stream.{
  read_header, check_header, read_history, check_history, read_account, read_code, read_numbered,
  read_storage, Next, read_accounts, read_record,
}
use arbitrum_reth.Prelude.{
  subst_ok, ℕ, ◌≡◌, refl, ◌⊎◌, inl, inr, ◌&&◌, Option, some, List, arith, ◌==◌, Bool-cases,
  >>=-eq-ok, ok,
}
use arbitrum_reth.Genesis.Stream.Bytes.{
  optional_b256, read_b256, read_blob, read_short_bytes, read_short_u256, read_u8, read_uvarint,
}

module _ (keccak256 : List ℕ → ℕ) where
  given :
      (s s' : SnapshotStream) (r : Record) (out : Option Record × SnapshotStream)
      → Given keccak256 s (some r, s')
      → ◌≡◌ {A = Next} (ok (some r, s')) (ok out)
      → Given keccak256 s out
  given s s' r out g h = subst_ok (Given keccak256 s) h g

  read_header-Given :
      (s : SnapshotStream) (bs : List ℕ) (out : Option Record × SnapshotStream)
      → read_header keccak256 s bs ≡ ok out
      → Given keccak256 s out
  unfolding read_header
  read_header-Given s bs out h =
      let (number, _, h₁) = >>=-eq-ok (read_uvarint bs) _ h in
      let (hash, _, h₂) = >>=-eq-ok (read_b256 number.1) _ h₁ in
      let (rlp, _, h₃) = >>=-eq-ok (read_blob hash.1) _ h₂ in
      let (checked, passed, h₄) = >>=-eq-ok (check_header keccak256 s number.0 hash.0 rlp.0) _ h₃ in
      given s _ _ out
        (check_header-Allowed keccak256 s number.0 hash.0 rlp.0 passed, refl, refl, refl, refl) h₄

  read_history-Given :
      (s : SnapshotStream) (bs : List ℕ) (out : Option Record × SnapshotStream)
      → read_history s bs ≡ ok out
      → Given keccak256 s out
  unfolding read_history
  read_history-Given s bs out h =
      let (state_id, _, h₁) = >>=-eq-ok (read_uvarint bs) _ h in
      let (block, _, h₂) = >>=-eq-ok (read_uvarint state_id.1) _ h₁ in
      let (version, _, h₃) = >>=-eq-ok (read_u8 block.1) _ h₂ in
      let (parent, _, h₄) = >>=-eq-ok (read_b256 version.1) _ h₃ in
      let (post, _, h₅) = >>=-eq-ok (read_b256 parent.1) _ h₄ in
      let (checked, passed, h₆) =
        >>=-eq-ok (check_history s state_id.0 block.0 version.0 parent.0) _ h₅ in
      let (count, _, h₇) = >>=-eq-ok (read_uvarint post.1) _ h₆ in
      let (accounts, _, h₈) = >>=-eq-ok (read_accounts count.0 count.1) _ h₇ in
      let object : HistoryObject = record {
        state_id = state_id.0;
        block = block.0;
        parent_root = parent.0;
        post_root = post.0;
        accounts = accounts.0;
      } in
      let s' = record s { inner = accounts.1; last_history = some (block.0, post.0) } in
      given s s' (history object) out
        (check_history-Allowed keccak256 s version.0 object passed, refl, refl, refl, refl) h₈

  read_numbered-Given :
      (s : SnapshotStream) (bs : List ℕ) (out : Option Record × SnapshotStream)
      → (read_numbered keccak256 body s bs ≡ ok out)
        ⊎ (read_numbered keccak256 receipts s bs ≡ ok out)
      → Given keccak256 s out
  unfolding read_numbered
  read_numbered-Given s bs out (inl h) =
      let (number, _, h₁) = >>=-eq-ok (read_uvarint bs) _ h in
      let (rlp, _, h₂) = >>=-eq-ok (read_blob number.1) _ h₁ in
      given s (record s { inner = rlp.1 }) (body number.0 rlp.0) out (tt, refl, refl, refl, refl) h₂
  read_numbered-Given s bs out (inr h) =
      let (number, _, h₁) = >>=-eq-ok (read_uvarint bs) _ h in
      let (rlp, _, h₂) = >>=-eq-ok (read_blob number.1) _ h₁ in
      given s (record s { inner = rlp.1 }) (receipts number.0 rlp.0) out
        (tt, refl, refl, refl, refl) h₂

  read_account-Given :
      (s : SnapshotStream) (bs : List ℕ) (out : Option Record × SnapshotStream)
      → read_account keccak256 s bs ≡ ok out
      → Given keccak256 s out
  unfolding read_account
  read_account-Given s bs out h =
      let (address, _, h₁) = >>=-eq-ok (read_b256 bs) _ h in
      let (nonce, _, h₂) = >>=-eq-ok (read_uvarint address.1) _ h₁ in
      let (balance, _, h₃) = >>=-eq-ok (read_short_u256 nonce.1) _ h₂ in
      let (code, _, h₄) = >>=-eq-ok (read_short_bytes balance.1) _ h₃ in
      let (hash, _, h₅) = >>=-eq-ok (optional_b256 code.0) _ h₄ in
      given s (record s { inner = code.1 }) (account address.0 nonce.0 balance.0 hash) out
        (tt, refl, refl, refl, refl) h₅

  read_storage-Given :
      (s : SnapshotStream) (bs : List ℕ) (out : Option Record × SnapshotStream)
      → read_storage keccak256 s bs ≡ ok out
      → Given keccak256 s out
  unfolding read_storage
  read_storage-Given s bs out h =
      let (slot, _, h₁) = >>=-eq-ok (read_b256 bs) _ h in
      let (value, _, h₂) = >>=-eq-ok (read_short_u256 slot.1) _ h₁ in
      given s (record s { inner = value.1 }) (storage_slot slot.0 value.0) out
        (tt, refl, refl, refl, refl) h₂

  read_code-Given :
      (s : SnapshotStream) (bs : List ℕ) (out : Option Record × SnapshotStream)
      → read_code keccak256 s bs ≡ ok out
      → Given keccak256 s out
  unfolding read_code
  read_code-Given s bs out h =
      let (hash, _, h₁) = >>=-eq-ok (read_b256 bs) _ h in
      let (code, _, h₂) = >>=-eq-ok (read_blob hash.1) _ h₁ in
      elim (Bool-cases (keccak256 code.0 == hash.0)) [
        | inr f ↦ absurd (ground (arith, rw f at h₂))
        | inl t ↦
            given s (record s { inner = code.1 }) (code_blob hash.0 code.0) out
              (ground arith, refl, refl, refl, refl) (rw t at h₂)
      ]

  pub read_record-Given :
      (s : SnapshotStream) (tag : ℕ) (bs : List ℕ) (out : Option Record × SnapshotStream)
      → read_record keccak256 s tag bs ≡ ok out
      → Given keccak256 s out
  unfolding read_record
  read_record-Given s tag bs out h =
      elim (Bool-cases (s.section == section_blocks && tag == rec_header)) [
        | inl t ↦ read_header-Given s bs out (rw t at h)
        | inr f ↦
            let h = rw f at h in
            elim (Bool-cases (s.section == section_blocks && tag == rec_body)) [
              | inl t ↦ read_numbered-Given s bs out (inl (rw t at h))
              | inr f ↦
                  let h = rw f at h in
                  elim (Bool-cases (s.section == section_blocks && tag == rec_receipts)) [
                    | inl t ↦ read_numbered-Given s bs out (inr (rw t at h))
                    | inr f ↦
                        let h = rw f at h in
                        elim (Bool-cases (s.section == section_history && tag == rec_header)) [
                          | inl t ↦ read_history-Given s bs out (rw t at h)
                          | inr f ↦
                              let h = rw f at h in
                              elim (Bool-cases (s.section == section_state && tag == rec_account)) [
                                | inl t ↦ read_account-Given s bs out (rw t at h)
                                | inr f ↦
                                    let h = rw f at h in
                                    elim (Bool-cases
                                      (s.section == section_state && tag == rec_storage)) [
                                        | inl t ↦ read_storage-Given s bs out (rw t at h)
                                        | inr f ↦
                                            let h = rw f at h in
                                            elim (Bool-cases
                                              (s.section == section_state && tag == rec_code)) [
                                                | inl t ↦ read_code-Given s bs out (rw t at h)
                                                | inr f ↦ absurd (ground (arith, rw f at h))
                                              ]
                                      ]
                              ]
                        ]
                  ]
            ]
      ]
