-- ===== src/Genesis/Stream/Reads.antt =====
-- crates/arb-reth-genesis/src/snapshot_stream.rs: what a reader of the whole stream is given.
use arbitrum_reth.Genesis.Stream.Format.{
  magic, section_manifest, section_state, section_end, rec_end, Manifest, Record, SnapshotStream,
}
use arbitrum_reth.L1.Decode.{same_bytes}
use arbitrum_reth.Genesis.Stream.Bytes.{
  StreamError, history_ends_early, no_history, read_exact, read_u8, root_mismatch,
}
use arbitrum_reth.Genesis.Stream.Given.{read_record-Given}
use arbitrum_reth.Genesis.Stream.Linked.{Given, Linked, last_history_of}
use arbitrum_reth.Prelude.{
  ℕ, zero, suc, ◌≡◌, refl, ap, ◌∙◌, subst, ◌↔◌, inl, inr, Bool, true, false, not, ◌&&◌, Option,
  none, some, List, [], ◌∷◌, arith, ◌==◌, if◌then◌else◌, Bool-cases, Result, >>=-eq-ok, subst_ok,
  ok, err,
}
use arbitrum_reth.Genesis.Stream.{
  next_tag, next_record, read_records, open_stream, opens_section, check_history_meets_state, Next,
  read_manifest, add_record,
}

module _ (keccak256 : List ℕ → ℕ) where
  section-Given :
      (s : SnapshotStream) (tag : ℕ) (out : Option Record × SnapshotStream)
      → Given keccak256 (record s { section = tag }) out
      → Given keccak256 s out
  section-Given s tag (none, s') g = g
  section-Given s tag (some r, s') g = g

  ended :
      (s s' : SnapshotStream) (out : Option Record × SnapshotStream)
      → Given keccak256 s (none, s')
      → ◌≡◌ {A = Next} (ok (none, s')) (ok out)
      → Given keccak256 s out
  ended s s' out g h = subst_ok (Given keccak256 s) h g

  next_tag-Given :
      (s : SnapshotStream) (bs : List ℕ) (out : Option Record × SnapshotStream)
      → next_tag keccak256 s bs ≡ ok out
      → Given keccak256 s out
  unfolding next_tag
  next_tag-Given s [] out h = absurd (ground (arith, h))
  next_tag-Given s (tag ∷ bs) out h = elim (Bool-cases (opens_section s.section tag)) [
    | inl t ↦
        let s' : SnapshotStream = record s { section = tag } in
        section-Given s tag out (next_tag-Given s' bs out (rw t at h))
    | inr f ↦
        let h₁ = rw f at h in
        elim (Bool-cases (s.section == section_state && tag == section_end)) [
          | inl t ↦
              ended s (record s { inner = bs; finished = true }) out (refl, refl, refl, refl)
                (rw t at h₁)
          | inr f ↦
              let h₂ = rw f at h₁ in
              elim (Bool-cases (s.section == section_manifest)) [
                | inl t ↦ absurd (ground (arith, rw t at h₂))
                | inr f ↦
                    let h₃ = rw f at h₂ in
                    elim (Bool-cases (tag == rec_end)) [
                      | inl t ↦ next_tag-Given s bs out (rw t at h₃)
                      | inr f ↦ read_record-Given keccak256 s tag bs out (rw f at h₃)
                    ]
              ]
        ]
  ]

  finished-Given :
      (s : SnapshotStream) (finished : Bool) (out : Option Record × SnapshotStream)
      → (if finished then ok (none, s) else next_tag keccak256 s s.inner) ≡ ok out
      → Given keccak256 s out
  finished-Given s true out h = ended s s out (refl, refl, refl, refl) h
  finished-Given s false out h = next_tag-Given s s.inner out h

  next_record-Given :
      (s : SnapshotStream) (out : Option Record × SnapshotStream)
      → s.held ≡ none
      → next_record keccak256 s ≡ ok out
      → Given keccak256 s out
  unfolding next_record
  next_record-Given s out free h =
      finished-Given s s.finished out (subst (λ held. unheld held ≡ ok out) free h)
    where
      unheld : Option Record → Next
      unheld held = elim held [
        | some record_ ↦ ok (some record_, record s { held = none })
        | none ↦ if s.finished then ok (none, s) else next_tag keccak256 s s.inner
      ]

  -- What a run of records keeps: its records are linked, and its end has the last history object.
  abbrev ReadFrom : SnapshotStream → List Record → SnapshotStream → Type 0
  ReadFrom s rs s' =
      Linked keccak256 s.manifest s.last_block s.last_history rs
      × (s'.last_history ≡ last_history_of s.last_history rs)
      × (s'.manifest ≡ s.manifest)

  more-ReadFrom :
      (s s₁ s' : SnapshotStream) (r : Record) (rs : List Record)
      → Given keccak256 s (some r, s₁)
      → ReadFrom s₁ rs s'
      → ReadFrom s (r ∷ rs) s'
  unfolding last_history_of
  more-ReadFrom s s₁ s' r rs (allowed, eb, eh, em, eheld) (linked, last, em') =
      ((allowed, rw (eb, eh, em) at linked), rw eh at last, em' ∙ em)

  held-Given :
      (s s₁ : SnapshotStream) (r : Record) → Given keccak256 s (some r, s₁) → s₁.held ≡ s.held
  held-Given s s₁ r (allowed, eb, eh, em, eheld) = eheld

  add_record-Linked :
      (s s₁ : SnapshotStream) (r : Option Record) (out : List Record × SnapshotStream)
      (rest : Result StreamError (List Record × SnapshotStream))
      → Given keccak256 s (r, s₁)
      → ((o : List Record × SnapshotStream) → s₁.held ≡ s.held → rest ≡ ok o → ReadFrom s₁ o.0 o.1)
      → add_record r s₁ rest ≡ ok out
      → ReadFrom s out.0 out.1
  unfolding add_record last_history_of
  add_record-Linked s s₁ none out rest (eb, eh, em, eheld) after h =
      subst_ok (λ o. ReadFrom s o.0 o.1) h (tt, eh, em)
  add_record-Linked s s₁ (some r) out rest g after h =
      let (o, read, h₁) = >>=-eq-ok rest _ h in
      subst_ok (λ o. ReadFrom s o.0 o.1) h₁
        (more-ReadFrom s s₁ o.1 r o.0 g (after o (held-Given s s₁ r g) read))

  read_records-Linked :
      (n : ℕ) (s : SnapshotStream) (out : List Record × SnapshotStream)
      → s.held ≡ none
      → read_records keccak256 n s ≡ ok out
      → ReadFrom s out.0 out.1
  unfolding read_records last_history_of
  read_records-Linked zero s out free h = subst_ok (λ o. ReadFrom s o.0 o.1) h (tt, refl, refl)
  read_records-Linked (suc n) s out free h =
      let (found, read, h₁) = >>=-eq-ok (next_record keccak256 s) _ h in
      add_record-Linked s found.1 found.0 out (read_records keccak256 n found.1)
        (next_record-Given s found free read)
        (λ o held. read_records-Linked n found.1 o (held ∙ free)) h₁

abbrev Fresh : SnapshotStream → Type 0
Fresh s = (s.last_block ≡ none) × (s.last_history ≡ none) × (s.held ≡ none)

fresh :
    (s₁ s : SnapshotStream)
    → Fresh s₁
    → ◌≡◌ {A = Result StreamError SnapshotStream} (ok s₁) (ok s)
    → Fresh s
fresh s₁ s f h = subst_ok Fresh h f

open_stream-fresh : (bs : List ℕ) (s : SnapshotStream) → open_stream bs ≡ ok s → Fresh s
unfolding open_stream
open_stream-fresh bs s h =
    let (found, _, h₁) = >>=-eq-ok (read_exact 8 bs) _ h in
    elim (Bool-cases (same_bytes found.0 magic)) [
      | inr f ↦ absurd (ground (arith, rw f at h₁))
      | inl t ↦
          let (tag, _, h₂) = >>=-eq-ok (read_u8 found.1) _ (rw t at h₁) in
          elim (Bool-cases (tag.0 == section_manifest)) [
            | inr f ↦ absurd (ground (arith, rw f at h₂))
            | inl t ↦
                let (manifest, _, h₃) = >>=-eq-ok (read_manifest tag.1) _ (rw t at h₂) in
                fresh _ s (refl, refl, refl) h₃
          ]
    ]

pair : {a b c d : ℕ} → a ≡ b → c ≡ d → ◌≡◌ {A = ℕ × ℕ} (a, c) (b, d)
pair p q = λ i. (p i, q i)

-- The last test, on the manifest and the last history object.
abbrev meets : Manifest → Option (ℕ × ℕ) → Result StreamError (Unit {0})
meets m none = err no_history
meets m (some (block, post_root)) =
    if not (block == m.block)
    then err (history_ends_early block)
    else if not (post_root == m.root)
    then err root_mismatch
    else ok tt

meets_iff :
    (m : Manifest) (last : Option (ℕ × ℕ))
    → (meets m last ≡ ok tt) ↔ (last ≡ some (m.block, m.root))
meets_iff m none = ((λ h. absurd (ground (arith, h))), (λ h. cc))
meets_iff m (some (block, root)) = (
  (λ h.
      let eb : block ≡ m.block = ground (arith, h) in
      let er : root ≡ m.root = ground (arith, h) in ap (λ p. some p) (pair eb er)),
  (λ h.
      let eb : block ≡ m.block = ap (λ o. elim o [ some p ↦ p.0 | none ↦ 0 ]) h in
      let er : root ≡ m.root = ap (λ o. elim o [ some p ↦ p.1 | none ↦ 0 ]) h in ground arith),
)

check_history_meets_state_iff :
    (m : Manifest) (s : SnapshotStream) (last : Option (ℕ × ℕ))
    → s.manifest ≡ m
    → s.last_history ≡ last
    → (check_history_meets_state s ≡ ok tt) ↔ (last ≡ some (m.block, m.root))
unfolding check_history_meets_state
check_history_meets_state_iff m s last em el =
    subst (λ m. (check_history_meets_state s ≡ ok tt) ↔ (last ≡ some (m.block, m.root))) em
      (subst
        (λ l.
          (check_history_meets_state s ≡ ok tt) ↔ (l ≡ some (s.manifest.block, s.manifest.root)))
        el (meets_iff s.manifest s.last_history))

-- A stream that opens, and at most n records of it that are read, up to its end or before it: the
-- headers are one chain of hashes and the history objects one chain of roots, none of them above the
-- manifest's block, and each header and code blob has the hash that it names. The last test passes
-- exactly when the last history object that was read is at the manifest's block and root. keccak256
-- is any function.
pub open_stream-Linked :
    (keccak256 : List ℕ → ℕ) (n : ℕ) (bs : List ℕ) (s : SnapshotStream)
    (out : List Record × SnapshotStream)
    → open_stream bs ≡ ok s
    → read_records keccak256 n s ≡ ok out
    → Linked keccak256 s.manifest none none out.0
      × ((check_history_meets_state out.1 ≡ ok tt)
          ↔ (last_history_of none out.0 ≡ some (s.manifest.block, s.manifest.root)))
open_stream-Linked keccak256 n bs s out opened read =
    let (eb, eh, eheld) = open_stream-fresh bs s opened in
    let (linked, last, em) = read_records-Linked keccak256 n s out eheld read in
    (
      rw (eb, eh) at linked,
      check_history_meets_state_iff s.manifest out.1 (last_history_of none out.0) em
          (rw eh at last),
    )
