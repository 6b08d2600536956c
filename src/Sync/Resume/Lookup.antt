-- ===== src/Sync/Resume/Lookup.antt =====
-- What `resume_for` and `truncate_to` return.
use arbitrum_reth.Prelude.{
  ℕ, ◌≤◌, ◌<◌, min, ◌≡◌, refl, ◌⊎◌, inl, inr, true, false, Option, none, some, List, [], ◌∷◌, arith,
  leb, leb→le, Bool-cases, All,
}
use arbitrum_reth.Sync.Resume.{
  L1ResumeCheckpoint, L1ResumeLog, prefer_later, find_last, resume_for, retain_below,
  last_checkpoint, truncate_to,
}
use arbitrum_reth.Sync.Resume.Order.{Above, Ascending, IsAscending}

-- `cp` stands in the list.
abbrev pub Holds : L1ResumeCheckpoint → List L1ResumeCheckpoint → Type 0
Holds cp [] = ⊥
Holds cp (d ∷ cps) = (d ≡ cp) ⊎ Holds cp cps

-- The specification of a resume point: the greatest boundary that is not above the tip, and none
-- only if every boundary is above it.
abbrev pub IsResumePoint : List L1ResumeCheckpoint → ℕ → Option L1ResumeCheckpoint → Type 0
IsResumePoint cps tip none = Above tip cps
IsResumePoint cps tip (some cp) =
    Holds cp cps
    × (cp.l2_block ≤ tip)
    × All (λ (d : L1ResumeCheckpoint). (d.l2_block ≤ cp.l2_block) ⊎ (tip < d.l2_block)) cps

Above-Holds :
    (a : ℕ) (cp : L1ResumeCheckpoint) (cps : List L1ResumeCheckpoint)
    → Above a cps
    → Holds cp cps
    → a < cp.l2_block
Above-Holds a cp [] h p = absurd p
Above-Holds a cp (d ∷ cps) h (inl e) = ground arith
Above-Holds a cp (d ∷ cps) h (inr p) = Above-Holds a cp cps h.1 p

below_or_Above :
    (a tip : ℕ) (cps : List L1ResumeCheckpoint)
    → Above tip cps
    → All (λ (d : L1ResumeCheckpoint). (d.l2_block ≤ a) ⊎ (tip < d.l2_block)) cps
below_or_Above a tip [] p = tt
below_or_Above a tip (d ∷ cps) p = (inr p.0, below_or_Above a tip cps p.1)

prefer_later-IsResumePoint :
    (r : Option L1ResumeCheckpoint) (cp : L1ResumeCheckpoint) (cps : List L1ResumeCheckpoint)
    (tip : ℕ)
    → Above cp.l2_block cps
    → IsResumePoint cps tip r
    → IsResumePoint (cp ∷ cps) tip (prefer_later r cp tip)
prefer_later-IsResumePoint none cp cps tip up h = elim (Bool-cases (leb cp.l2_block tip)) [
  | inl below ↦
      rw below
        (inl refl, leb→le _ _ below, (inl (omega arith), below_or_Above cp.l2_block tip cps h))
  | inr above ↦ rw above (ground arith, h)
]
prefer_later-IsResumePoint (some c) cp cps tip up (held, le, rest) =
    (inr held, le, (inl (omega (arith, Above-Holds cp.l2_block c cps up held)), rest))

find_last-IsResumePoint :
    (cps : List L1ResumeCheckpoint) (tip : ℕ)
    → Ascending cps
    → IsResumePoint cps tip (find_last cps tip)
unfolding find_last
find_last-IsResumePoint [] tip h = tt
find_last-IsResumePoint (cp ∷ cps) tip h =
    prefer_later-IsResumePoint (find_last cps tip) cp cps tip h.0
      (find_last-IsResumePoint cps tip h.1)

-- In an ascending log the resume point of a tip is the greatest boundary at or below it, and there
-- is none exactly if every boundary is above it.
pub resume_for-IsResumePoint :
    (log : L1ResumeLog) (tip : ℕ)
    → IsAscending log
    → IsResumePoint log.checkpoints tip (resume_for log tip)
unfolding resume_for
resume_for-IsResumePoint log tip h = find_last-IsResumePoint log.checkpoints tip h

-- A rewind: what the truncated log finds is what the whole log finds at the lower of the two tips.
find_last-retain_below :
    (cps : List L1ResumeCheckpoint) (target tip : ℕ)
    → find_last (retain_below target cps) tip ≡ find_last cps (min target tip)
unfolding find_last retain_below
find_last-retain_below [] target tip = refl
find_last-retain_below (cp ∷ cps) target tip = elim (Bool-cases (leb cp.l2_block target)) [
  | inl kept ↦
      rw (kept, ← find_last-retain_below cps target tip)
        (same (find_last (retain_below target cps) tip) (leb→le _ _ kept))
  | inr dropped ↦
      rw (dropped, find_last-retain_below cps target tip)
        (skipped (find_last cps (min target tip)) dropped)
]
  where
    same :
        (r : Option L1ResumeCheckpoint)
        → cp.l2_block ≤ target
        → prefer_later r cp tip ≡ prefer_later r cp (min target tip)
    same none h = ground arith
    same (some c) h = refl

    skipped :
        (r : Option L1ResumeCheckpoint)
        → leb cp.l2_block target ≡ false
        → r ≡ prefer_later r cp (min target tip)
    skipped none h = ground arith
    skipped (some c) h = refl

last_checkpoint-find_last :
    (cps : List L1ResumeCheckpoint) (target : ℕ)
    → last_checkpoint (retain_below target cps) ≡ find_last cps target
unfolding find_last retain_below last_checkpoint
last_checkpoint-find_last [] target = refl
last_checkpoint-find_last (cp ∷ cps) target = elim (Bool-cases (leb cp.l2_block target)) [
  | inl kept ↦ rw (kept, last_checkpoint-find_last cps target) (same (find_last cps target) kept)
  | inr dropped ↦
      rw (dropped, last_checkpoint-find_last cps target) (skipped (find_last cps target) dropped)
]
  where
    same :
        (r : Option L1ResumeCheckpoint)
        → leb cp.l2_block target ≡ true
        → ◌≡◌ {A = Option L1ResumeCheckpoint}
            (elim r [ none ↦ some cp | some later ↦ some later ])
            (prefer_later r cp target)
    same none h = rw h
    same (some c) h = refl

    skipped :
        (r : Option L1ResumeCheckpoint)
        → leb cp.l2_block target ≡ false
        → r ≡ prefer_later r cp target
    skipped none h = rw h
    skipped (some c) h = refl

-- A rewind to `target` returns the resume point of `target`, and what the log finds afterwards at
-- any tip is what the whole log finds at the lower of the tip and the target.
pub resume_for-truncate_to :
    (log : L1ResumeLog) (target tip : ℕ)
    → ((truncate_to log target).1 ≡ resume_for log target)
      × (resume_for (truncate_to log target).0 tip ≡ resume_for log (min target tip))
unfolding resume_for truncate_to
resume_for-truncate_to log target tip = (
  last_checkpoint-find_last log.checkpoints target,
  find_last-retain_below log.checkpoints target tip,
)
