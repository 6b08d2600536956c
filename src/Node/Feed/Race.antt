-- ===== src/Node/Feed/Race.antt =====
-- The first-wins rule, while nothing is evicted: no sequence number is forwarded twice.
use arbitrum_reth.Prelude.{
  ℕ, zero, suc, ◌+◌, ◌≤◌, ◌<◌, ◌≡◌, refl, ◌≢◌, ◌⊎◌, inl, inr, Bool, true, false, ◌||◌, List, [],
  ◌∷◌, arith, ltb, ◌==◌, if◌then◌else◌, Bool-cases, Option-cases, length, All,
}
use arbitrum_reth.Prelude.Assoc
use arbitrum_reth.Prelude.Assoc.{lookup-insert, contains_key}
use arbitrum_reth.L1.Feed.{BroadcastFeedMessage}
use arbitrum_reth.Node.Feed.{
  SequenceRace, first, stale, duplicate, FeedIngress, max_recent_sequences, advance, evict, see,
  observe, coordinate_loop, coordinate,
}

-- A sequence number that is not new: seen, or behind the cursor.
unfoldable pub is_known : SequenceRace → ℕ → Bool
is_known race s = Assoc.contains_key s race.recent || ltb s race.next_resume

advance_le : (fuel : ℕ) (recent : List (ℕ × ℕ)) (next : ℕ) → next ≤ advance fuel recent next
unfolding advance
advance_le zero recent next = omega arith
advance_le (suc fuel) recent next = ground (arith, advance_le fuel recent (next + 1))

-- The cursor passes only sequence numbers that were seen.
advance-seen :
    (fuel : ℕ) (recent : List (ℕ × ℕ)) (next s : ℕ)
    → next ≤ s
    → s < advance fuel recent next
    → Assoc.contains_key s recent ≡ true
unfolding advance
advance-seen zero recent next s h k = absurd (omega arith)
advance-seen (suc fuel) recent next s h k = elim (Bool-cases (Assoc.contains_key next recent)) [
  | inr f ↦ absurd (ground arith)
  | inl t ↦ elim (Bool-cases (s == next)) [
    | inl e ↦ let same : s ≡ next = ground arith in rw same t
    | inr n ↦ advance-seen fuel recent (next + 1) s (ground arith) (ground arith)
  ]
]

pub evict_short :
    (recent : List (ℕ × ℕ)) → length recent ≤ max_recent_sequences → evict recent ≡ recent
unfolding evict
evict_short [] h = refl
evict_short (entry ∷ recent) h = ground arith

length-evict_le : (recent : List (ℕ × ℕ)) → length (evict recent) ≤ length recent
unfolding evict
length-evict_le [] = omega arith
length-evict_le (entry ∷ recent) = ground (arith, length-evict_le recent)

length-insert_le : (s v : ℕ) (m : List (ℕ × ℕ)) → length (Assoc.insert s v m) ≤ length m + 1
unfolding Assoc.insert
length-insert_le s v [] = omega arith
length-insert_le s v ((j, w) ∷ m) = ground (arith, length-insert_le s v m)

contains_key-insert :
    (s j v : ℕ) (m : List (ℕ × ℕ))
    → Assoc.contains_key j (Assoc.insert s v m) ≡ (if s == j then true else Assoc.contains_key j m)
unfolding Assoc.contains_key
contains_key-insert s j v m =
    rw (Assoc.contains_key, lookup-insert s j v m)
      (elim (Bool-cases (s == j)) [ inl t ↦ rw t refl | inr f ↦ rw f refl ])

module _ (race : SequenceRace) (s ready_at : ℕ) where
  see-known :
      (j : ℕ)
      → length race.recent < max_recent_sequences
      → is_known race j ≡ true ⊎ (s ≡ j)
      → is_known (see race s ready_at) j ≡ true
  unfolding is_known see
  see-known j room known =
      let m = Assoc.insert s ready_at race.recent in
      let le = length-insert_le s ready_at race.recent in
      let up = advance_le (length m) m race.next_resume in
      rw (evict_short m (omega arith), contains_key-insert s j ready_at race.recent)
        (ground (arith, up))

  observe-cases :
      ((observe race s ready_at ≡ (first, see race s ready_at)) × (is_known race s ≡ false))
      ⊎ (((w : ℕ) × (observe race s ready_at ≡ (duplicate w, race)))
          ⊎ (observe race s ready_at ≡ (stale, race)))
  unfolding observe is_known Assoc.contains_key
  observe-cases = elim (Option-cases (Assoc.lookup s race.recent)) [
    | inr (w, e) ↦ inr (inl (w, rw (observe, e) refl))
    | inl e ↦ elim (Bool-cases (ltb s race.next_resume)) [
      | inl t ↦ inr (inr (rw (observe, e, t) refl))
      | inr f ↦ inl (rw (observe, e, f) refl, rw (is_known, Assoc.contains_key, e, f) refl)
    ]
  ]

  length-see : length (see race s ready_at).recent ≤ length race.recent + 1
  unfolding see
  length-see =
      let a = length-insert_le s ready_at race.recent in
      let b = length-evict_le (Assoc.insert s ready_at race.recent) in omega arith

module _ {Text : Type 0} where
  abbrev pub IsNew : SequenceRace → BroadcastFeedMessage Text → Type 0
  IsNew race m = is_known race m.sequence_number ≡ false

  -- No two of the messages have the same sequence number.
  abbrev pub Distinct : List (BroadcastFeedMessage Text) → Type 0
  Distinct [] = Unit {0}
  Distinct (m ∷ ms) =
      All (λ (n : BroadcastFeedMessage Text). m.sequence_number ≢ n.sequence_number) ms
      × Distinct ms

  still-IsNew :
      (race : SequenceRace) (s ready_at : ℕ) (ms : List (BroadcastFeedMessage Text))
      → length race.recent < max_recent_sequences
      → All (IsNew (see race s ready_at)) ms
      → All (IsNew race) ms × All (λ (n : BroadcastFeedMessage Text). s ≢ n.sequence_number) ms
  still-IsNew race s ready_at [] room new = (tt, tt)
  still-IsNew race s ready_at (m ∷ ms) room (new, rest) =
      let (a, b) = still-IsNew race s ready_at ms room rest in
      let known = see-known race s ready_at m.sequence_number room in
      (
        (
          elim (Bool-cases (is_known race m.sequence_number)) [
            | inl t ↦ let k = known (inl t) in cc
            | inr f ↦ f
          ],
          a,
        ),
        (λ e. let k = known (inr e) in cc, b),
      )

  new_above :
      (resume : ℕ) (ms : List (BroadcastFeedMessage Text))
      → All (IsNew (record { next_resume = resume; recent = [] })) ms
      → All (λ (m : BroadcastFeedMessage Text). resume ≤ m.sequence_number) ms
  unfolding is_known Assoc.contains_key Assoc.lookup
  new_above resume [] new = tt
  new_above resume (m ∷ ms) (new, rest) = (ground arith, new_above resume ms rest)

  coordinate_loop-Distinct :
      (is_open : ℕ → Bool) (items : List (FeedIngress Text)) (race : SequenceRace)
      (sends resume : ℕ)
      → length race.recent + length items ≤ max_recent_sequences
      → let out = (coordinate_loop is_open items race sends resume).output in
        All (IsNew race) out × Distinct out
  unfolding coordinate_loop
  coordinate_loop-Distinct is_open [] race sends resume room = (tt, tt)
  coordinate_loop-Distinct is_open (item ∷ items) race sends resume room =
      let s = item.message.sequence_number in
      let r = item.ready_for_channel_at in
      elim (observe-cases race s r) [
        | inr (inl (w, e)) ↦
            rw e (coordinate_loop-Distinct is_open items race sends resume (omega arith))
        | inr (inr e) ↦
            rw e (coordinate_loop-Distinct is_open items race sends resume (omega arith))
        | inl (e, new) ↦ elim (Bool-cases (is_open sends)) [
          | inr f ↦ rw (e, f) (tt, tt)
          | inl t ↦
              let le = length-see race s r in
              let (a, b) =
                coordinate_loop-Distinct is_open items (see race s r) (sends + 1)
                  (see race s r).next_resume (omega arith) in
              let (c, d) = still-IsNew race s r _ (omega arith) a in rw (e, t) ((new, c), (d, b))
        ]
      ]

  -- Of at most 16,384 copies received since the start, no sequence number is forwarded twice, and
  -- none below the cursor of the start.
  pub coordinate-Distinct :
      (is_open : ℕ → Bool) (resume_sequence : ℕ) (items : List (FeedIngress Text))
      → length items ≤ max_recent_sequences
      → let out = (coordinate is_open resume_sequence items).output in
        Distinct out
        × All (λ (m : BroadcastFeedMessage Text). resume_sequence ≤ m.sequence_number) out
  unfolding coordinate
  coordinate-Distinct is_open resume_sequence items room =
      let start : SequenceRace = record { next_resume = resume_sequence; recent = [] } in
      let (new, distinct) =
        coordinate_loop-Distinct is_open items start 0 resume_sequence (omega arith) in
      (distinct, new_above resume_sequence _ new)
