-- ===== src/Sync/Resume/Compaction.antt =====
-- What `compact_history` keeps: the recent tail whole, and of the old part the earliest boundary of
-- each bucket of L2 blocks.
use arbitrum_reth.Prelude.{
  ℕ, zero, suc, ◌+◌, ◌-◌, ◌/◌, ◌≤◌, ◌<◌, ◌≡◌, refl, sym, ap, ◌∙◌, subst, ◌⊎◌, inl, inr, false,
  Option, none, some, List, [], ◌∷◌, ◌++◌, arith, leb, ◌==◌, leb→le, le→leb, ==_iff, Bool-cases,
  Option-cases, length, take, drop, length-append, length-drop, All, drop-append, take-append_drop,
  All-take,
}
use arbitrum_reth.Sync.Resume.{
  L1ResumeCheckpoint, L1ResumeLog, recent_checkpoints, historical_checkpoint_l2_interval,
  prefer_later, find_last, resume_for, compact_old, compact_history,
}
use arbitrum_reth.Sync.Resume.Order.{Above, Ascending, IsAscending, AtOrBelow}

-- The bucket of 100,000 L2 blocks that a boundary lies in.
abbrev pub bucket_of : L1ResumeCheckpoint → ℕ
bucket_of cp = cp.l2_block / historical_checkpoint_l2_interval

-- The second find serves in place of the first: it fails only if the first does, and else lies in
-- the same bucket, not above it.
abbrev pub Serves : Option L1ResumeCheckpoint → Option L1ResumeCheckpoint → Type 0
Serves none r = r ≡ none
Serves (some cp) r =
    (kept : L1ResumeCheckpoint) × (r ≡ some kept)
    × (kept.l2_block ≤ cp.l2_block)
    × (bucket_of kept ≡ bucket_of cp)

-- Or the first find lies in a bucket whose first boundary has been kept already, and the second
-- fails.
abbrev Late : ℕ → Option L1ResumeCheckpoint → Option L1ResumeCheckpoint → Type 0
Late last full r = (cp : L1ResumeCheckpoint) × (full ≡ some cp) × (r ≡ none) × (bucket_of cp ≡ last)

find_last-le :
    (cps : List L1ResumeCheckpoint) (tip : ℕ) (c : L1ResumeCheckpoint)
    → find_last cps tip ≡ some c
    → c.l2_block ≤ tip
unfolding find_last
find_last-le [] tip c h = cc
find_last-le (d ∷ cps) tip c h = elim (Option-cases (find_last cps tip)) [
  | inl e ↦ ground arith
  | inr (later, e) ↦
      let same : later ≡ c = ground arith in find_last-le cps tip c (e ∙ ap some same)
]

find_last-Above :
    (a : ℕ) (cps : List L1ResumeCheckpoint) (tip : ℕ) (c : L1ResumeCheckpoint)
    → Above a cps
    → find_last cps tip ≡ some c
    → a < c.l2_block
unfolding find_last
find_last-Above a [] tip c up h = cc
find_last-Above a (d ∷ cps) tip c up h = elim (Option-cases (find_last cps tip)) [
  | inl e ↦ ground arith
  | inr (later, e) ↦
      let same : later ≡ c = ground arith in find_last-Above a cps tip c up.1 (e ∙ ap some same)
]

Serves-refl : (r : Option L1ResumeCheckpoint) → Serves r r
Serves-refl none = refl
Serves-refl (some cp) = (cp, refl, omega arith, refl)

-- The two finds behind `cp`, whose bucket is new: `cp` is kept.
module _ (cp : L1ResumeCheckpoint) (tip : ℕ) where
  kept-Serves :
      (full r : Option L1ResumeCheckpoint)
      → ((c : L1ResumeCheckpoint) → full ≡ some c → (cp.l2_block < c.l2_block) × (c.l2_block ≤ tip))
      → Serves full r ⊎ Late (bucket_of cp) full r
      → Serves (prefer_later full cp tip) (prefer_later r cp tip)
  kept-Serves none r near (inl h) = rw h (Serves-refl _)
  kept-Serves none r near (inr (c, e, left, same)) = cc
  kept-Serves (some c) r near (inl (kept, e, le, same)) = rw e (kept, refl, le, same)
  kept-Serves (some c) r near (inr (d, e, none_left, same)) =
      let (lt, le) = near c refl in
      rw (none_left, le→leb cp.l2_block tip (omega arith))
        (cp, refl, omega arith, sym (ground arith))

  -- And where its bucket has been seen: `cp` is dropped.
  dropped-Serves :
      (full r : Option L1ResumeCheckpoint)
      → Serves full r ⊎ Late (bucket_of cp) full r
      → Serves (prefer_later full cp tip) r ⊎ Late (bucket_of cp) (prefer_later full cp tip) r
  dropped-Serves none r (inl h) = elim (Bool-cases (leb cp.l2_block tip)) [
    | inl e ↦ rw e (inr (cp, refl, h, refl))
    | inr e ↦ rw e (inl h)
  ]
  dropped-Serves none r (inr (c, e, left, same)) = cc
  dropped-Serves (some c) r (inl h) = inl h
  dropped-Serves (some c) r (inr h) = inr h

compact_old-Serves :
    (last : ℕ) (old recent : List L1ResumeCheckpoint) (tip : ℕ)
    → Ascending (old ++ recent)
    → Serves (find_last (old ++ recent) tip) (find_last (compact_old (some last) old ++ recent) tip)
      ⊎ Late last
          (find_last (old ++ recent) tip)
          (find_last (compact_old (some last) old ++ recent) tip)
unfolding compact_old find_last
compact_old-Serves last [] recent tip h = inl (Serves-refl _)
compact_old-Serves last (cp ∷ old) recent tip h = elim (Bool-cases (last == bucket_of cp)) [
  | inl same ↦
      rw (same, (==_iff last (bucket_of cp)).0 same)
        (dropped-Serves cp tip (find_last (old ++ recent) tip) _
          (compact_old-Serves (bucket_of cp) old recent tip h.1))
  | inr new ↦ rw new (
      inl (
        kept-Serves cp tip (find_last (old ++ recent) tip) _
          (λ c e. (
            find_last-Above cp.l2_block (old ++ recent) tip c h.0 e,
            find_last-le (old ++ recent) tip c e,
          ))
          (compact_old-Serves (bucket_of cp) old recent tip h.1)))
]

compact_old-Serves_start :
    (old recent : List L1ResumeCheckpoint) (tip : ℕ)
    → Ascending (old ++ recent)
    → Serves (find_last (old ++ recent) tip) (find_last (compact_old none old ++ recent) tip)
unfolding compact_old find_last
compact_old-Serves_start [] recent tip h = Serves-refl _
compact_old-Serves_start (cp ∷ old) recent tip h =
    kept-Serves cp tip (find_last (old ++ recent) tip) _
      (λ c e. (
        find_last-Above cp.l2_block (old ++ recent) tip c h.0 e,
        find_last-le (old ++ recent) tip c e,
      ))
      (compact_old-Serves (bucket_of cp) old recent tip h.1)

-- On an ascending log, compaction never loses a resume point: for every tip the compacted log
-- finds a boundary where the whole log does, at or below that one and in the same bucket of
-- 100,000 L2 blocks.
pub resume_for-compact_history :
    (log : L1ResumeLog) (tip : ℕ)
    → IsAscending log
    → Serves (resume_for log tip) (resume_for (compact_history log) tip)
unfolding compact_history resume_for
resume_for-compact_history log tip h =
    elim (Bool-cases (leb (length log.checkpoints) recent_checkpoints)) [
      | inl short ↦ rw short (Serves-refl _)
      | inr long ↦ rw long (
          subst (λ cps. Serves (find_last cps tip) (find_last (compact_old none old ++ recent) tip))
            (take-append_drop start log.checkpoints)
            (compact_old-Serves_start old recent tip
              (rw (take-append_drop start log.checkpoints) h)))
    ]
  where
    start : ℕ
    start = length log.checkpoints - recent_checkpoints

    old : List L1ResumeCheckpoint
    old = take start log.checkpoints

    recent : List L1ResumeCheckpoint
    recent = drop start log.checkpoints

-- The newest 128 boundaries, or all of a shorter log, come through compaction as they are.
pub compact_history_recent :
    (log : L1ResumeLog)
    → drop
        (length (compact_history log).checkpoints - recent_checkpoints)
        (compact_history log).checkpoints
      ≡ drop (length log.checkpoints - recent_checkpoints) log.checkpoints
unfolding compact_history
compact_history_recent log = elim (Bool-cases (leb (length log.checkpoints) recent_checkpoints)) [
  | inl short ↦ rw short
  | inr long ↦ rw long (
      drop-append old recent _ 0 (
        omega
          (arith, ground_long long, length-append old recent, length-drop start log.checkpoints)))
]
  where
    start : ℕ
    start = length log.checkpoints - recent_checkpoints

    old : List L1ResumeCheckpoint
    old = compact_old none (take start log.checkpoints)

    recent : List L1ResumeCheckpoint
    recent = drop start log.checkpoints

    ground_long :
        leb (length log.checkpoints) recent_checkpoints ≡ false
        → recent_checkpoints < length log.checkpoints
    ground_long h = ground arith

-- All boundaries lie in the buckets from `lo` to `hi`.
abbrev Buckets : ℕ → ℕ → List L1ResumeCheckpoint → Type 0
Buckets lo hi cps = All (λ (d : L1ResumeCheckpoint). (lo ≤ bucket_of d) × (bucket_of d ≤ hi)) cps

Buckets-of_Above :
    (a hi : ℕ) (cps : List L1ResumeCheckpoint)
    → Above a cps
    → AtOrBelow hi cps
    → Buckets (a / historical_checkpoint_l2_interval) (hi / historical_checkpoint_l2_interval) cps
Buckets-of_Above a hi [] up down = tt
Buckets-of_Above a hi (d ∷ cps) up down =
    ((omega arith, omega arith), Buckets-of_Above a hi cps up.1 down.1)

length-compact_old :
    (last hi : ℕ) (cps : List L1ResumeCheckpoint)
    → Ascending cps
    → AtOrBelow hi cps
    → Buckets last (hi / historical_checkpoint_l2_interval) cps
    → last ≤ hi / historical_checkpoint_l2_interval
    → length (compact_old (some last) cps) + last ≤ hi / historical_checkpoint_l2_interval
unfolding compact_old
length-compact_old last hi [] asc down within le = omega arith
length-compact_old last hi (cp ∷ cps) asc down within le = ground (
  arith,
  length-compact_old (bucket_of cp) hi cps asc.1 down.1
      (Buckets-of_Above cp.l2_block hi cps asc.0 down.1) within.0.1,
  within,
)

length-compact_old_start :
    (hi : ℕ) (cps : List L1ResumeCheckpoint)
    → Ascending cps
    → AtOrBelow hi cps
    → length (compact_old none cps) ≤ hi / historical_checkpoint_l2_interval + 1
unfolding compact_old
length-compact_old_start hi [] asc down = omega arith
length-compact_old_start hi (cp ∷ cps) asc down = omega (
  arith,
  length-compact_old (bucket_of cp) hi cps asc.1 down.1
      (Buckets-of_Above cp.l2_block hi cps asc.0 down.1) (omega (arith, down.0)),
)

Ascending-take : (n : ℕ) (cps : List L1ResumeCheckpoint) → Ascending cps → Ascending (take n cps)
Ascending-take zero cps h = tt
Ascending-take (suc n) [] h = tt
Ascending-take (suc n) (cp ∷ cps) h = (
  All-take (λ (d : L1ResumeCheckpoint). cp.l2_block < d.l2_block) n cps h.0,
  Ascending-take n cps h.1,
)

-- A compacted ascending log stays small: 128 boundaries, and one for each bucket of 100,000 L2
-- blocks up to a bound on its boundaries.
pub length-compact_history :
    (log : L1ResumeLog) (hi : ℕ)
    → IsAscending log
    → AtOrBelow hi log.checkpoints
    → length (compact_history log).checkpoints
      ≤ recent_checkpoints + (hi / historical_checkpoint_l2_interval + 1)
unfolding compact_history
length-compact_history log hi asc down =
    elim (Bool-cases (leb (length log.checkpoints) recent_checkpoints)) [
      | inl short ↦ rw short (omega (arith, leb→le _ _ short))
      | inr long ↦ rw long (
          omega (
            arith,
            length-append (compact_old none (take start log.checkpoints))
                (drop start log.checkpoints),
            length-drop start log.checkpoints,
            length-compact_old_start hi (take start log.checkpoints)
                (Ascending-take start log.checkpoints asc)
                (All-take (λ (d : L1ResumeCheckpoint). d.l2_block ≤ hi) start log.checkpoints down),
          ))
    ]
  where
    start : ℕ
    start = length log.checkpoints - recent_checkpoints
