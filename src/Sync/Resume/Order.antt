-- ===== src/Sync/Resume/Order.antt =====
-- The log stays strictly ascending by L2 block under every operation.
use arbitrum_reth.Prelude.{
  ℕ, ◌-◌, ◌/◌, ◌≤◌, ◌<◌, ◌≡◌, inl, inr, false, Option, none, some, List, [], ◌∷◌, ◌++◌, arith, leb,
  Bool-cases, length, take, drop, All, take-append_drop,
}
use arbitrum_reth.Sync.Resume.{
  L1ResumeCheckpoint, L1ResumeLog, recent_checkpoints, out_of_order, compact_old, compact_history,
  push_boundary, record_boundary, retain_below, truncate_to,
}

abbrev pub Above : ℕ → List L1ResumeCheckpoint → Type 0
Above l2 cps = All (λ (d : L1ResumeCheckpoint). l2 < d.l2_block) cps

abbrev pub Ascending : List L1ResumeCheckpoint → Type 0
Ascending [] = Unit {0}
Ascending (cp ∷ cps) = Above cp.l2_block cps × Ascending cps

abbrev pub IsAscending : L1ResumeLog → Type 0
IsAscending log = Ascending log.checkpoints

-- No entry of the log is above the new boundary.
abbrev pub AtOrBelow : ℕ → List L1ResumeCheckpoint → Type 0
AtOrBelow l2 cps = All (λ (d : L1ResumeCheckpoint). d.l2_block ≤ l2) cps

Above-weaken : (a b : ℕ) (cps : List L1ResumeCheckpoint) → a ≤ b → Above b cps → Above a cps
Above-weaken a b [] h p = tt
Above-weaken a b (cp ∷ cps) h p = (omega arith, Above-weaken a b cps h p.1)

-- Boundaries that pass the test of `load_strict`, which looks at neighbours, ascend strictly as a
-- whole.
pub out_of_order-Ascending :
    (cps : List L1ResumeCheckpoint) → out_of_order cps ≡ false → Ascending cps
unfolding out_of_order
out_of_order-Ascending [] h = tt
out_of_order-Ascending (a ∷ []) h = (tt, tt)
out_of_order-Ascending (a ∷ b ∷ cps) h =
    let sorted = out_of_order-Ascending (b ∷ cps) (ground arith) in
    let lt : a.l2_block < b.l2_block = ground arith in
    ((lt, Above-weaken a.l2_block b.l2_block cps (omega arith) sorted.0), sorted)

Above-push :
    (l2 : ℕ) (cp : L1ResumeCheckpoint) (cps : List L1ResumeCheckpoint)
    → l2 < cp.l2_block
    → Above l2 cps
    → Above l2 (push_boundary cp cps)
unfolding push_boundary
Above-push l2 cp [] h p = (h, tt)
Above-push l2 cp (a ∷ []) h p = ground arith
Above-push l2 cp (a ∷ b ∷ cps) h p = (p.0, Above-push l2 cp (b ∷ cps) h p.1)

pub push_boundary-Ascending :
    (cp : L1ResumeCheckpoint) (cps : List L1ResumeCheckpoint)
    → AtOrBelow cp.l2_block cps
    → Ascending cps
    → Ascending (push_boundary cp cps)
unfolding push_boundary
push_boundary-Ascending cp [] below h = (tt, tt)
push_boundary-Ascending cp (a ∷ []) below h = ground arith
push_boundary-Ascending cp (a ∷ b ∷ cps) below h = (
  Above-push a.l2_block cp (b ∷ cps) (omega arith) h.0,
  push_boundary-Ascending cp (b ∷ cps) below.1 h.1,
)

Above-compact :
    (l2 : ℕ) (last : Option ℕ) (old recent : List L1ResumeCheckpoint)
    → Above l2 (old ++ recent)
    → Above l2 (compact_old last old ++ recent)
unfolding compact_old
Above-compact l2 last [] recent h = h
Above-compact l2 last (cp ∷ old) recent h =
    ground (arith, Above-compact l2 (some (cp.l2_block / 100_000)) old recent h.1)

compact_old-Ascending :
    (last : Option ℕ) (old recent : List L1ResumeCheckpoint)
    → Ascending (old ++ recent)
    → Ascending (compact_old last old ++ recent)
unfolding compact_old
compact_old-Ascending last [] recent h = h
compact_old-Ascending last (cp ∷ old) recent h = ground (
  arith,
  compact_old-Ascending (some (cp.l2_block / 100_000)) old recent h.1,
  Above-compact cp.l2_block (some (cp.l2_block / 100_000)) old recent h.0,
)

pub compact_history-IsAscending :
    (log : L1ResumeLog) → IsAscending log → IsAscending (compact_history log)
unfolding compact_history
compact_history-IsAscending log h =
    elim (Bool-cases (leb (length log.checkpoints) recent_checkpoints)) [
      | inl short ↦ rw short h
      | inr long ↦ rw long (
          compact_old-Ascending none (take start log.checkpoints) (drop start log.checkpoints)
            (rw (take-append_drop start log.checkpoints) h))
    ]
  where
    start : ℕ
    start = length log.checkpoints - recent_checkpoints

-- Recording a boundary that no boundary of the log exceeds keeps an ascending log strictly
-- ascending.
pub record_boundary-IsAscending :
    (log : L1ResumeLog) (cp : L1ResumeCheckpoint)
    → IsAscending log
    → AtOrBelow cp.l2_block log.checkpoints
    → IsAscending (record_boundary log cp)
unfolding record_boundary
record_boundary-IsAscending log cp h below =
    compact_history-IsAscending _ (push_boundary-Ascending cp log.checkpoints below h)

retain_below-Above :
    (l2 target : ℕ) (cps : List L1ResumeCheckpoint)
    → Above l2 cps
    → Above l2 (retain_below target cps)
unfolding retain_below
retain_below-Above l2 target [] h = tt
retain_below-Above l2 target (cp ∷ cps) h = ground (arith, retain_below-Above l2 target cps h.1)

retain_below-Ascending :
    (target : ℕ) (cps : List L1ResumeCheckpoint)
    → Ascending cps
    → Ascending (retain_below target cps)
unfolding retain_below
retain_below-Ascending target [] h = tt
retain_below-Ascending target (cp ∷ cps) h =
    ground
      (arith, retain_below-Ascending target cps h.1, retain_below-Above cp.l2_block target cps h.0)

pub truncate_to-IsAscending :
    (log : L1ResumeLog) (target : ℕ) → IsAscending log → IsAscending (truncate_to log target).0
unfolding truncate_to
truncate_to-IsAscending log target h = retain_below-Ascending target log.checkpoints h
