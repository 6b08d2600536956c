-- ===== src/Sync/Resume/Runs.antt =====
-- A log of three boundaries.
use arbitrum_reth.Prelude.{ℕ, ◌+◌, ◌≤◌, ◌≡◌, refl, false, [], ◌∷◌, arith, length}
use arbitrum_reth.Sync.Resume.{
  L1ResumeCheckpoint, L1ResumeLog, resume_for, truncate_to, compact_history, record_boundary,
  out_of_order,
}
use arbitrum_reth.Sync.Resume.Order.{
  IsAscending, record_boundary-IsAscending, out_of_order-Ascending, truncate_to-IsAscending,
}
use arbitrum_reth.Sync.Resume.Lookup.{
  IsResumePoint, resume_for-IsResumePoint, resume_for-truncate_to,
}
use arbitrum_reth.Sync.Resume.Compaction.{
  Serves, resume_for-compact_history, length-compact_history,
}

abbrev cp : ℕ → ℕ → L1ResumeCheckpoint
cp l1 l2 = record { l1_block = l1; delayed_count = 0; l2_block = l2 }

abbrev log : L1ResumeLog
log = record { checkpoints = cp 100 10 ∷ cp 200 25 ∷ cp 300 40 ∷ [] }

in_order : out_of_order log.checkpoints ≡ false
unfolding out_of_order
in_order = refl

log-IsAscending : IsAscending log
log-IsAscending = out_of_order-Ascending log.checkpoints in_order

resume_for-IsResumePoint_example : IsResumePoint log.checkpoints 30 (resume_for log 30)
resume_for-IsResumePoint_example = resume_for-IsResumePoint log 30 log-IsAscending

resume_for-truncate_to_example :
    ((truncate_to log 30).1 ≡ resume_for log 30)
    × (resume_for (truncate_to log 30).0 50 ≡ resume_for log 30)
resume_for-truncate_to_example = resume_for-truncate_to log 30 50

resume_for-compact_history_example :
    Serves (resume_for log 30) (resume_for (compact_history log) 30)
resume_for-compact_history_example = resume_for-compact_history log 30 log-IsAscending

length-compact_history_example : length (compact_history log).checkpoints ≤ 128 + 1
length-compact_history_example =
    length-compact_history log 40 log-IsAscending (omega arith, (omega arith, (omega arith, tt)))

record_boundary-IsAscending_example : IsAscending (record_boundary log (cp 400 40))
record_boundary-IsAscending_example =
    record_boundary-IsAscending log (cp 400 40) log-IsAscending
      (omega arith, (omega arith, (omega arith, tt)))

truncate_to-IsAscending_example : IsAscending (truncate_to log 30).0
truncate_to-IsAscending_example = truncate_to-IsAscending log 30 log-IsAscending
