-- ===== src/Sync/Checkpoint.antt =====
-- crates/arb-reth-sync/src/l1_sync.rs, `maybe_write_checkpoint`: the boundaries that became durable
-- move into the resume log, and the log is saved. The file stands as the log it holds.
use arbitrum_reth.Prelude.{
  ℕ, ◌-◌, ◌/◌, ◌≤◌, ◌<◌, ◌≡◌, refl, ap, ◌∙◌, inl, inr, Bool, true, not, Option, none, some, List,
  [], ◌∷◌, ◌++◌, arith, leb, ◌==◌, if◌then◌else◌, Bool-cases, length, take, drop, All, All-append,
  All-take, All-drop,
}
use arbitrum_reth.Sync.Replacement.{Replacement, file_after, kept, replaced, unsynced}
use arbitrum_reth.Sync.Resume.{
  L1ResumeCheckpoint, L1ResumeLog, record_boundary, compact_history, push_boundary, compact_old,
  recent_checkpoints, historical_checkpoint_l2_interval,
}
use arbitrum_reth.Sync.Resume.Order.{IsAscending, AtOrBelow, Above, record_boundary-IsAscending}

-- The log, the queue behind it and the newest boundary that moved.
pub record Flushed : Type 0 where
  pub log : L1ResumeLog
  pub pending : List L1ResumeCheckpoint
  pub newest : Option L1ResumeCheckpoint

-- `while pending.front().is_some_and(|cp| cp.l2_block <= persisted)`.
unfoldable pub flush_durable :
    L1ResumeLog → List L1ResumeCheckpoint → ℕ → Option L1ResumeCheckpoint → Flushed
flush_durable log [] persisted newest = record { log = log; pending = []; newest = newest }
flush_durable log (cp ∷ pending) persisted newest =
    let rest = flush_durable (record_boundary log cp) pending persisted (some cp) in
    if leb cp.l2_block persisted
    then rest
    else record { log = log; pending = cp ∷ pending; newest = newest }

pub record CheckpointState : Type 0 where
  pub log : L1ResumeLog
  pub pending : List L1ResumeCheckpoint
  pub file : Option L1ResumeLog

-- The log is saved if a boundary moved.
unfoldable pub save_if_moved :
    Replacement → Option L1ResumeCheckpoint → L1ResumeLog → Option L1ResumeLog → Option L1ResumeLog
unfolding file_after
save_if_moved how none log file = file
save_if_moved how (some newest) log file = file_after how (some log) file

-- Without a path nothing is done. `how` is how the save goes; its error is only logged.
unfoldable pub maybe_write_checkpoint : Bool → Replacement → CheckpointState → ℕ → CheckpointState
unfolding flush_durable save_if_moved
maybe_write_checkpoint has_path how s persisted =
    let f = flush_durable s.log s.pending persisted none in
    if not has_path
    then s
    else record { log = f.log; pending = f.pending; file = save_if_moved how f.newest f.log s.file }

AtOrBelow-weaken :
    (a b : ℕ) (cps : List L1ResumeCheckpoint) → a ≤ b → AtOrBelow a cps → AtOrBelow b cps
AtOrBelow-weaken a b [] h p = tt
AtOrBelow-weaken a b (cp ∷ cps) h p = (omega (arith, p.0), AtOrBelow-weaken a b cps h p.1)

push_boundary-AtOrBelow :
    (bound : ℕ) (cp : L1ResumeCheckpoint) (cps : List L1ResumeCheckpoint)
    → cp.l2_block ≤ bound
    → AtOrBelow bound cps
    → AtOrBelow bound (push_boundary cp cps)
unfolding push_boundary
push_boundary-AtOrBelow bound cp [] h p = (h, tt)
push_boundary-AtOrBelow bound cp (a ∷ []) h p = ground arith
push_boundary-AtOrBelow bound cp (a ∷ b ∷ cps) h p =
    (p.0, push_boundary-AtOrBelow bound cp (b ∷ cps) h p.1)

compact_old-AtOrBelow :
    (bound : ℕ) (bucket : Option ℕ) (cps : List L1ResumeCheckpoint)
    → AtOrBelow bound cps
    → AtOrBelow bound (compact_old bucket cps)
unfolding compact_old
compact_old-AtOrBelow bound bucket [] p = tt
compact_old-AtOrBelow bound none (cp ∷ cps) p = (p.0, compact_old-AtOrBelow bound _ cps p.1)
compact_old-AtOrBelow bound (some last) (cp ∷ cps) p =
    let rest =
      compact_old-AtOrBelow bound (some (cp.l2_block / historical_checkpoint_l2_interval)) cps
        p.1 in
    elim (Bool-cases (last == cp.l2_block / historical_checkpoint_l2_interval)) [
      | inl e ↦ rw e rest
      | inr e ↦ rw e (p.0, rest)
    ]

record_boundary-AtOrBelow :
    (bound : ℕ) (log : L1ResumeLog) (cp : L1ResumeCheckpoint)
    → cp.l2_block ≤ bound
    → AtOrBelow bound log.checkpoints
    → AtOrBelow bound (record_boundary log cp).checkpoints
unfolding record_boundary compact_history
record_boundary-AtOrBelow bound log cp h p =
    let cps = push_boundary cp log.checkpoints in
    let start = length cps - recent_checkpoints in
    let q = push_boundary-AtOrBelow bound cp log.checkpoints h p in
    elim (Bool-cases (leb (length cps) recent_checkpoints)) [
      | inl short ↦ rw short q
      | inr long ↦ rw long (
          All-append _ (compact_old none (take start cps)) (drop start cps)
            (compact_old-AtOrBelow bound none (take start cps) (All-take _ start cps q))
            (All-drop _ start cps q))
    ]

-- The boundaries of the queue never fall, and none of the log is above its front.
abbrev pub Rising : List L1ResumeCheckpoint → Type 0
Rising [] = Unit {0}
Rising (cp ∷ cps) = All (λ (d : L1ResumeCheckpoint). cp.l2_block ≤ d.l2_block) cps × Rising cps

abbrev pub Queued : L1ResumeLog → List L1ResumeCheckpoint → Type 0
Queued log [] = Unit {0}
Queued log (cp ∷ pending) = AtOrBelow cp.l2_block log.checkpoints × Rising (cp ∷ pending)

-- After a step of the queue.
Queued-record :
    (log : L1ResumeLog) (cp : L1ResumeCheckpoint) (pending : List L1ResumeCheckpoint)
    → Queued log (cp ∷ pending)
    → Queued (record_boundary log cp) pending
Queued-record log cp [] q = tt
Queued-record log cp (d ∷ pending) (below, (up, rising)) = (
  record_boundary-AtOrBelow d.l2_block log cp up.0
      (AtOrBelow-weaken cp.l2_block d.l2_block log.checkpoints up.0 below),
  rising,
)

Above-weaken :
    (a b : ℕ) (cps : List L1ResumeCheckpoint)
    → a < b
    → All (λ (d : L1ResumeCheckpoint). b ≤ d.l2_block) cps
    → Above a cps
Above-weaken a b [] h p = tt
Above-weaken a b (cp ∷ cps) h p = (omega (arith, p.0), Above-weaken a b cps h p.1)

-- A durable log: its boundaries ascend and lie at or below the durable tip, and those that wait are
-- above it.
abbrev pub Durable : ℕ → L1ResumeLog → List L1ResumeCheckpoint → Type 0
Durable persisted log pending =
    IsAscending log
    × AtOrBelow persisted log.checkpoints
    × Above persisted pending
    × Queued log pending

flush_durable-Durable :
    (log : L1ResumeLog) (pending : List L1ResumeCheckpoint) (persisted : ℕ)
    (newest : Option L1ResumeCheckpoint)
    → IsAscending log
    → AtOrBelow persisted log.checkpoints
    → Queued log pending
    → let f = flush_durable log pending persisted newest in Durable persisted f.log f.pending
unfolding flush_durable
flush_durable-Durable log [] persisted newest h p q = (h, p, tt, tt)
flush_durable-Durable log (cp ∷ pending) persisted newest h p q =
    elim (Bool-cases (leb cp.l2_block persisted)) [
      | inl t ↦ rw t (
          flush_durable-Durable (record_boundary log cp) pending persisted (some cp)
            (record_boundary-IsAscending log cp h q.0)
            (record_boundary-AtOrBelow persisted log cp (ground arith) p)
            (Queued-record log cp pending q))
      | inr f ↦
          let lt : persisted < cp.l2_block = ground arith in
          rw f (h, p, (lt, Above-weaken persisted cp.l2_block pending lt q.1.0), q)
    ]

-- The log after these boundaries, recorded in order.
unfoldable pub record_all : L1ResumeLog → List L1ResumeCheckpoint → L1ResumeLog
record_all log [] = log
record_all log (cp ∷ cps) = record_all (record_boundary log cp) cps

unfoldable newest_of :
    Option L1ResumeCheckpoint → List L1ResumeCheckpoint → Option L1ResumeCheckpoint
newest_of newest [] = newest
newest_of newest (cp ∷ cps) = newest_of (some cp) cps

-- What moves from a queue: its boundaries up to the first one above the tip, recorded in order.
abbrev Moves :
    L1ResumeLog → List L1ResumeCheckpoint → ℕ → Option L1ResumeCheckpoint → Flushed → Type 0
Moves log pending persisted newest f =
    (moved : List L1ResumeCheckpoint) × (pending ≡ moved ++ f.pending)
    × AtOrBelow persisted moved
    × (f.log ≡ record_all log moved)
    × (f.newest ≡ newest_of newest moved)

flush_durable-Moves :
    (log : L1ResumeLog) (pending : List L1ResumeCheckpoint) (persisted : ℕ)
    (newest : Option L1ResumeCheckpoint)
    → Moves log pending persisted newest (flush_durable log pending persisted newest)
unfolding flush_durable record_all newest_of
flush_durable-Moves log [] persisted newest = ([], refl, tt, refl, refl)
flush_durable-Moves log (cp ∷ pending) persisted newest =
    elim (Bool-cases (leb cp.l2_block persisted)) [
      | inr f ↦ rw f ([], refl, tt, refl, refl)
      | inl t ↦
          let (moved, e, below, logs, last) =
            flush_durable-Moves (record_boundary log cp) pending persisted (some cp) in
          rw t (cp ∷ moved, ap (λ cps. cp ∷ cps) e, (ground arith, below), logs, last)
    ]

newest_of-some :
    (cp : L1ResumeCheckpoint) (cps : List L1ResumeCheckpoint)
    → (newest : L1ResumeCheckpoint) × (newest_of (some cp) cps ≡ some newest)
unfolding newest_of
newest_of-some cp [] = (cp, refl)
newest_of-some cp (d ∷ cps) = newest_of-some d cps

-- The file when these boundaries moved: the log, if there are any and the rename was reached.
unfoldable pub file_of :
    Replacement → List L1ResumeCheckpoint → L1ResumeLog → Option L1ResumeLog → Option L1ResumeLog
file_of how [] log file = file
file_of kept (cp ∷ moved) log file = file
file_of replaced (cp ∷ moved) log file = some log
file_of unsynced (cp ∷ moved) log file = some log

save_if_moved-file_of :
    (how : Replacement) (moved : List L1ResumeCheckpoint) (log : L1ResumeLog)
    (file : Option L1ResumeLog)
    → save_if_moved how (newest_of none moved) log file ≡ file_of how moved log file
unfolding save_if_moved newest_of file_of file_after
save_if_moved-file_of how [] log file = refl
save_if_moved-file_of how (cp ∷ moved) log file =
    let (newest, e) = newest_of-some cp moved in rw e (by_end how)
  where
    by_end :
        (how : Replacement) → file_after how (some log) file ≡ file_of how (cp ∷ moved) log file
    by_end replaced = refl
    by_end kept = refl
    by_end unsynced = refl

-- With a checkpoint path, on an ascending log at or below the durable tip and a rising queue behind
-- it: afterwards the log again ascends, no boundary of it is above the tip, every boundary that
-- still waits is above the tip, and the queue stays in order. What moved is a front of the queue, at
-- or below the tip, and the log is the old one with each of it recorded in order. When something
-- moved and the save reaches its rename, the file is exactly the new log, also if the directory's
-- sync then fails; when nothing moved or the save fails before, the file is the old one.
pub maybe_write_checkpoint-Durable :
    (how : Replacement) (s : CheckpointState) (persisted : ℕ)
    → IsAscending s.log
    → AtOrBelow persisted s.log.checkpoints
    → Queued s.log s.pending
    → let t = maybe_write_checkpoint true how s persisted in
      Durable persisted t.log t.pending
      × ((moved : List L1ResumeCheckpoint) × (s.pending ≡ moved ++ t.pending)
          × AtOrBelow persisted moved
          × (t.log ≡ record_all s.log moved)
          × (t.file ≡ file_of how moved t.log s.file))
unfolding maybe_write_checkpoint
maybe_write_checkpoint-Durable how s persisted h p q =
    let f = flush_durable s.log s.pending persisted none in
    let (moved, e, below, logs, last) = flush_durable-Moves s.log s.pending persisted none in
    (
      flush_durable-Durable s.log s.pending persisted none h p q,
      (
        moved,
        e,
        below,
        logs,
        ap (λ n. save_if_moved how n f.log s.file) last
            ∙ save_if_moved-file_of how moved f.log s.file,
      ),
    )
