-- ===== src/Sync/Resume.antt =====
-- crates/arb-reth-sync/src/resume.rs: the log of L1-derivation checkpoints, and the order test of
-- `load_strict`. How `save` leaves the file is in Sync/Replacement; the bytes of the file are outside
-- the model.
pub mod Order
pub mod Lookup
pub mod Compaction
mod Runs
use Prim.Native.String.{String}
use arbitrum_reth.Prelude.{
  ℕ, ◌-◌, ◌/◌, Bool, false, ◌||◌, Option, none, some, List, [], ◌∷◌, ◌++◌, leb, ◌==◌, if◌then◌else◌,
  length, take, drop, Result, ok, err,
}

abbrev pub recent_checkpoints : ℕ
recent_checkpoints = 128

abbrev pub historical_checkpoint_l2_interval : ℕ
historical_checkpoint_l2_interval = 100_000

pub record L1ResumeCheckpoint : Type 0 where
  pub l1_block : ℕ
  pub delayed_count : ℕ
  pub l2_block : ℕ

pub record L1ResumeLog : Type 0 where
  pub checkpoints : List L1ResumeCheckpoint

-- `checkpoints.windows(2).any(|pair| pair[0].l2_block >= pair[1].l2_block)`.
unfoldable pub out_of_order : List L1ResumeCheckpoint → Bool
out_of_order [] = false
out_of_order (a ∷ []) = false
out_of_order (a ∷ b ∷ cps) = leb b.l2_block a.l2_block || out_of_order (b ∷ cps)

-- What `load_strict` makes of a log that was read and parsed.
unfoldable pub check_strict : L1ResumeLog → Result String L1ResumeLog
unfolding out_of_order
check_strict log =
    if out_of_order log.checkpoints
    then err "checkpoints are not strictly ascending by l2_block"
    else ok log

-- The later of two finds: that among the entries behind `cp`, else `cp` if it passes.
abbrev pub prefer_later :
    Option L1ResumeCheckpoint → L1ResumeCheckpoint → ℕ → Option L1ResumeCheckpoint
prefer_later none cp l2_block = if leb cp.l2_block l2_block then some cp else none
prefer_later (some later) cp l2_block = some later

-- The last entry at or below `l2_block`: `iter().rev().find(..)`.
unfoldable pub find_last : List L1ResumeCheckpoint → ℕ → Option L1ResumeCheckpoint
find_last [] l2_block = none
find_last (cp ∷ cps) l2_block = prefer_later (find_last cps l2_block) cp l2_block

unfoldable pub resume_for : L1ResumeLog → ℕ → Option L1ResumeCheckpoint
unfolding find_last
resume_for log l2_block = find_last log.checkpoints l2_block

-- The old boundaries: the earliest of each run of boundaries in one bucket.
unfoldable pub compact_old : Option ℕ → List L1ResumeCheckpoint → List L1ResumeCheckpoint
compact_old last_bucket [] = []
compact_old last_bucket (cp ∷ cps) =
    let bucket = cp.l2_block / historical_checkpoint_l2_interval in
    let rest = compact_old (some bucket) cps in
    elim last_bucket [ none ↦ cp ∷ rest | some last ↦ if last == bucket then rest else cp ∷ rest ]

unfoldable pub compact_history : L1ResumeLog → L1ResumeLog
unfolding compact_old
compact_history log =
    if leb (length log.checkpoints) recent_checkpoints
    then log
    else let recent_start = length log.checkpoints - recent_checkpoints in
      record {
        checkpoints =
            compact_old none (take recent_start log.checkpoints)
            ++ drop recent_start log.checkpoints;
      }

-- Replace the last entry if it stands at the same L2 block, else append.
unfoldable pub push_boundary :
    L1ResumeCheckpoint → List L1ResumeCheckpoint → List L1ResumeCheckpoint
push_boundary cp [] = cp ∷ []
push_boundary cp (last ∷ []) = if last.l2_block == cp.l2_block then cp ∷ [] else last ∷ cp ∷ []
push_boundary cp (a ∷ b ∷ cps) = a ∷ push_boundary cp (b ∷ cps)

-- `L1ResumeLog::record`.
unfoldable pub record_boundary : L1ResumeLog → L1ResumeCheckpoint → L1ResumeLog
unfolding compact_history push_boundary
record_boundary log cp = compact_history (record { checkpoints = push_boundary cp log.checkpoints })

-- `retain(|cp| cp.l2_block <= l2_block)`.
unfoldable pub retain_below : ℕ → List L1ResumeCheckpoint → List L1ResumeCheckpoint
retain_below l2_block [] = []
retain_below l2_block (cp ∷ cps) =
    if leb cp.l2_block l2_block then cp ∷ retain_below l2_block cps else retain_below l2_block cps

unfoldable pub last_checkpoint : List L1ResumeCheckpoint → Option L1ResumeCheckpoint
last_checkpoint [] = none
last_checkpoint (cp ∷ cps) = elim (last_checkpoint cps) [ none ↦ some cp | some later ↦ some later ]

unfoldable pub truncate_to : L1ResumeLog → ℕ → L1ResumeLog × Option L1ResumeCheckpoint
unfolding retain_below last_checkpoint
truncate_to log l2_block =
    let kept = retain_below l2_block log.checkpoints in
    (record { checkpoints = kept }, last_checkpoint kept)
