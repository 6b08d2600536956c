-- ===== src/Genesis/Stream/Transactions.antt =====
-- crates/arb-reth-genesis/src/snapshot_stream.rs: transactions_root. The root of a trie is a parameter.
use arbitrum_reth.Prelude.{
  ℕ, zero, suc, ◌+◌, ◌-◌, ◌%◌, ◌^◌, ◌≤◌, ◌<◌, ◌≡◌, refl, sym, ap, subst, ◌≢◌, inl, inr, Bool, true,
  not, ◌&&◌, ◌||◌, Option, none, some, List, [], ◌∷◌, arith, ltb, leb, ◌==◌, if◌then◌else◌,
  Bool-cases, length, take, drop, length-drop, Result, ◌>>=◌, ok_or, >>=-ne-stuck, ok_or-some,
  ok_or-ne-stuck, ok, err, stuck,
}
use arbitrum_reth.Genesis.Stream.Bytes.{
  StreamError, bad_body, rlp_split, rlp_item, rlp_lengths, get_range, be_usize,
}

-- The loop over the items of the list: a round takes an item, so their bytes are enough fuel.
unfoldable pub leaves : ℕ → List ℕ → Result StreamError (List (List ℕ))
unfolding rlp_split
leaves fuel [] = ok []
leaves zero (b ∷ bs) = stuck
leaves (suc fuel) (b ∷ bs) =
    let is_list = leb 0xc0 b in
    ok_or (rlp_split (b ∷ bs) is_list) bad_body >>= λ (payload, next).
    leaves fuel next >>= λ encoded.
    ok ((if is_list then take (length (b ∷ bs) - length next) (b ∷ bs) else payload) ∷ encoded)

unfoldable pub transactions_of : List ℕ → Result StreamError (List ℕ)
unfolding rlp_split
transactions_of body_rlp = ok_or (rlp_split body_rlp true) bad_body >>= λ (inner, rest). elim rest [
  | b ∷ bs ↦ err bad_body
  | [] ↦ ok_or (rlp_split inner true) bad_body >>= λ (txs, uncles). ok txs
]

unfoldable pub transactions_root : (List (List ℕ) → ℕ) → List ℕ → Result StreamError ℕ
unfolding transactions_of leaves
transactions_root ordered_trie_root body_rlp = transactions_of body_rlp >>= λ txs.
    leaves (length txs) txs >>= λ encoded. ok (ordered_trie_root encoded)

-- An item without a header is one byte.
lengths_bare : (blob : List ℕ) (prefix len : ℕ) → rlp_lengths blob prefix ≡ some (0, len) → len ≡ 1
unfolding rlp_lengths
lengths_bare blob prefix len h = elim (Bool-cases (ltb prefix 0x80)) [
  | inl t ↦ some_one len (rw t at h)
  | inr f ↦
      let h₁ = rw f at h in
      elim (Bool-cases (ltb prefix 0xb8)) [
        | inl t ↦ absurd (ground (arith, rw t at h₁))
        | inr f ↦
            let h₂ = rw f at h₁ in
            elim (Bool-cases (ltb prefix 0xc0)) [
              | inl t ↦ absurd (
                  long-header (prefix - 0xb7) (get_range blob 1 (1 + (prefix - 0xb7))) len
                    (rw t at h₂))
              | inr f ↦
                  let h₃ = rw f at h₂ in
                  elim (Bool-cases (ltb prefix 0xf8)) [
                    | inl t ↦ absurd (ground (arith, rw t at h₃))
                    | inr f ↦ absurd (
                        long-header (prefix - 0xf7) (get_range blob 1 (1 + (prefix - 0xf7))) len
                          (rw f at h₃))
                  ]
            ]
      ]
]
  where
    some_one : (len : ℕ) → ◌≡◌ {A = Option (ℕ × ℕ)} (some (0, 1)) (some (0, len)) → len ≡ 1
    some_one len h = sym (ap (λ o. elim o [ some p ↦ p.1 | none ↦ 0 ]) h)

    long-header :
        (n : ℕ) (o : Option (List ℕ)) (len : ℕ)
        → ◌≡◌ {A = Option (ℕ × ℕ)}
            (elim o [ none ↦ none | some bytes ↦ some (1 + n, be_usize 0 bytes) ])
            (some (0, len))
        → ⊥
    long-header n none len h = ground (arith, h)
    long-header n (some bytes) len h =
        let zero_head : 1 + n ≡ 0 = ap (λ o. elim o [ some p ↦ p.0 | none ↦ 0 ]) h in omega arith

get_range-some :
    (blob payload : List ℕ) (from to : ℕ)
    → get_range blob from to ≡ some payload
    → (from ≤ to) × (to ≤ length blob)
unfolding get_range
get_range-some blob payload from to h = elim (Bool-cases (leb from to && leb to (length blob))) [
  | inl t ↦ (ground arith, ground arith)
  | inr f ↦ absurd (ground (arith, rw f at h))
]

item-shorter :
    (blob : List ℕ) (want : Bool) (prefix head len : ℕ) (payload rest : List ℕ)
    → (head ≡ 0 → len ≡ 1)
    → 0 < length blob
    → rlp_item blob want prefix (head, len) ≡ some (payload, rest)
    → length rest < length blob
unfolding rlp_item
item-shorter blob want prefix head len payload rest bare nonempty h =
    let end = (head + len) % 2 ^ 64 in
    let positive : head ≡ 0 → 0 < end =
      λ bare_head. let one : head + len ≡ 1 = omega (arith, bare bare_head) in omega arith in
    elim (Bool-cases (leb 0xc0 prefix && not want || not (leb 0xc0 prefix) && want)) [
      | inl t ↦ absurd (ground (arith, rw t at h))
      | inr f ↦ cut end (get_range blob head end) refl positive (rw f at h)
    ]
  where
    cut :
        (end : ℕ) (o : Option (List ℕ))
        → get_range blob head end ≡ o
        → (head ≡ 0 → 0 < end)
        → ◌≡◌ {A = Option (List ℕ × List ℕ)}
            (elim o [ none ↦ none | some found ↦ some (found, drop end blob) ])
            (some (payload, rest))
        → length rest < length blob
    cut end none e positive h = absurd (ground (arith, h))
    cut end (some found) e positive h =
        let (above, within) = get_range-some blob found head end e in
        let rest_is : drop end blob ≡ rest = ap (λ o. elim o [ some p ↦ p.1 | none ↦ rest ]) h in
        let left = length-drop end blob in
        let shorter : length (drop end blob) < length blob = elim (Bool-cases (head == 0)) [
          | inl t ↦ let p = positive (ground arith) in omega arith
          | inr f ↦ let p : 0 < head = ground arith in omega arith
        ] in
        subst (λ r. length r < length blob) rest_is shorter

lengths-shorter :
    (blob : List ℕ) (want : Bool) (prefix : ℕ) (lengths : Option (ℕ × ℕ)) (payload rest : List ℕ)
    → 0 < length blob
    → rlp_lengths blob prefix ≡ lengths
    → ◌≡◌ {A = Option (List ℕ × List ℕ)}
        (elim lengths [ none ↦ none | some l ↦ rlp_item blob want prefix l ])
        (some (payload, rest))
    → length rest < length blob
lengths-shorter blob want prefix none payload rest nonempty e h = absurd (ground (arith, h))
lengths-shorter blob want prefix (some (head, len)) payload rest nonempty e h =
    item-shorter blob want prefix head len payload rest
      (λ bare.
        lengths_bare blob prefix len (subst (λ n. rlp_lengths blob prefix ≡ some (n, len)) bare e))
      nonempty h

-- An item that is split off takes a byte at least.
pub rlp_split-shorter :
    (blob : List ℕ) (want : Bool) (payload rest : List ℕ)
    → rlp_split blob want ≡ some (payload, rest)
    → length rest < length blob
unfolding rlp_split
rlp_split-shorter [] want payload rest h = absurd (ground (arith, h))
rlp_split-shorter (b ∷ bs) want payload rest h =
    lengths-shorter (b ∷ bs) want b (rlp_lengths (b ∷ bs) b) payload rest (omega arith) refl h

leaves-ne-stuck : (fuel : ℕ) (bs : List ℕ) → length bs ≤ fuel → leaves fuel bs ≢ stuck
unfolding leaves
leaves-ne-stuck fuel [] enough = λ h. absurd (ground (arith, h))
leaves-ne-stuck zero (b ∷ bs) enough = absurd (omega arith)
leaves-ne-stuck (suc fuel) (b ∷ bs) enough =
    >>=-ne-stuck _ _ (ok_or-ne-stuck (rlp_split (b ∷ bs) (leb 0xc0 b)) bad_body)
      (λ (payload, next) split.
        >>=-ne-stuck _ _
          (leaves-ne-stuck fuel next (
            omega
              (arith, rlp_split-shorter (b ∷ bs) (leb 0xc0 b) payload next (ok_or-some _ _ split))))
          (λ encoded e h. absurd (ground (arith, h))))

transactions_of-ne-stuck : (body_rlp : List ℕ) → transactions_of body_rlp ≢ stuck
unfolding transactions_of
transactions_of-ne-stuck body_rlp =
    >>=-ne-stuck _ _ (ok_or-ne-stuck (rlp_split body_rlp true) bad_body)
      (λ found split. no_rest found.0 found.1)
  where
    no_rest :
        (inner rest : List ℕ)
        → elim rest [
          | b ∷ bs ↦ err bad_body
          | [] ↦ ok_or (rlp_split inner true) bad_body >>= λ (txs, uncles). ok txs
        ]
          ≢ stuck
    no_rest inner (b ∷ bs) = λ h. absurd (ground (arith, h))
    no_rest inner [] =
        >>=-ne-stuck _ _ (ok_or-ne-stuck (rlp_split inner true) bad_body)
          (λ found split h. absurd (ground (arith, h)))

-- The loop over a body's transactions ends: whatever the bytes, the root is computed or the body is
-- refused. The root of a trie is any function.
pub transactions_root-ne-stuck :
    (ordered_trie_root : List (List ℕ) → ℕ) (body_rlp : List ℕ)
    → transactions_root ordered_trie_root body_rlp ≢ stuck
unfolding transactions_root
transactions_root-ne-stuck ordered_trie_root body_rlp =
    >>=-ne-stuck _ _ (transactions_of-ne-stuck body_rlp) (λ txs found.
      >>=-ne-stuck _ _ (leaves-ne-stuck (length txs) txs (omega arith))
        (λ encoded read h. absurd (ground (arith, h))))
