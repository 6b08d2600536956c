-- ===== src/Node/Feed/Eviction.antt =====
-- A sequence number behind a full race: its copies are all forwarded.
use arbitrum_reth.Prelude.Assoc.{contains_key}
use arbitrum_reth.Prelude.{
  ℕ, zero, suc, ◌≤◌, ◌<◌, ◌≡◌, refl, true, false, none, List, [], ◌∷◌, arith, ltb, ◌==◌, length,
  All,
}
use arbitrum_reth.Prelude.Assoc
use arbitrum_reth.Node.Feed.Race.{evict_short}
use arbitrum_reth.Node.Feed.{
  SequenceRace, first, max_recent_sequences, advance, evict, see, observe,
}

-- Every key of the map lies above `s`.
abbrev pub KeysAbove : ℕ → List (ℕ × ℕ) → Type 0
KeysAbove s m = All (λ (entry : ℕ × ℕ). s < entry.0) m

lookup_above : (s j : ℕ) (m : List (ℕ × ℕ)) → KeysAbove s m → j ≤ s → Assoc.lookup j m ≡ none
unfolding Assoc.lookup
lookup_above s j [] h k = refl
lookup_above s j ((i, v) ∷ m) (h, hs) k = ground (arith, lookup_above s j m hs k)

insert_above : (s v : ℕ) (m : List (ℕ × ℕ)) → KeysAbove s m → Assoc.insert s v m ≡ (s, v) ∷ m
unfolding Assoc.insert
insert_above s v [] h = refl
insert_above s v ((i, w) ∷ m) (h, hs) = ground arith

not_contained :
    (n s v : ℕ) (m : List (ℕ × ℕ))
    → n < s
    → KeysAbove s m
    → Assoc.contains_key n ((s, v) ∷ m) ≡ false
unfolding Assoc.contains_key Assoc.lookup
not_contained n s v m h above =
    let e : s == n ≡ false = ground arith in
    rw (Assoc.contains_key, e, lookup_above s n m above (omega arith)) refl

advance_stays :
    (fuel : ℕ) (m : List (ℕ × ℕ)) (next : ℕ)
    → Assoc.contains_key next m ≡ false
    → advance fuel m next ≡ next
unfolding advance
advance_stays zero m next h = refl
advance_stays (suc fuel) m next h = rw h refl

evict_full :
    (entry : ℕ × ℕ) (m : List (ℕ × ℕ)) → length m ≡ max_recent_sequences → evict (entry ∷ m) ≡ m
unfolding evict
evict_full entry m h =
    let long : ltb max_recent_sequences (suc (length m)) ≡ true = ground arith in
    rw long (evict_short m (omega arith))

-- When the race holds 16,384 sequence numbers, all above `s`, and the cursor is below `s`, a copy of
-- `s` counts as the first one, and leaves the race as it was: every later copy counts as first, too.
pub observe_full :
    (race : SequenceRace) (s ready_at : ℕ)
    → length race.recent ≡ max_recent_sequences
    → KeysAbove s race.recent
    → race.next_resume < s
    → observe race s ready_at ≡ (first, race)
unfolding observe see
observe_full race s ready_at full above below =
    let l = lookup_above s s race.recent above (omega arith) in
    let i = insert_above s ready_at race.recent above in
    let c : Assoc.contains_key race.next_resume ((s, ready_at) ∷ race.recent) ≡ false =
      not_contained race.next_resume s ready_at race.recent below above in
    let k = advance_stays (length ((s, ready_at) ∷ race.recent)) _ race.next_resume c in
    let e = evict_full (s, ready_at) race.recent full in
    let f : ltb s race.next_resume ≡ false = ground arith in rw (observe, l, f, see, i, k, e) refl
