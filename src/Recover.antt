-- ===== src/Recover.antt =====
-- crates/arb-reth-node/src/commands/recover.rs: the state machine of a stopped recovery, from the
-- journal that was published under the lock to the end of the run. The database, the finite L1 sync
-- and the canonical RPC are parameters; the files are what they durably hold.
pub mod Journal
pub mod Start
pub mod Steps
pub mod Unwind
pub mod Truncate
pub mod Crash
pub mod Succeeds
pub mod Keeps
pub mod Progress
pub mod Complete
pub mod Restart
mod Runs
use arbitrum_reth.Sync.Replacement.{Replacement, replaced, kept, unsynced}
use arbitrum_reth.Prelude.{
  ℕ, not, Option, none, some, List, [], ◌∷◌, ◌==◌, if◌then◌else◌, Result, ok_or, map_err, ok, err,
  stuck,
}
use arbitrum_reth.Sync.Resume.{L1ResumeLog}
use arbitrum_reth.Recover.Journal.{
  RecoveryJournal, Fault, HeaderObservation, Phase, RecoveryAuthorityError, at_target, authority,
  durable_tip_action, exact, frontier_matched, frontier_mismatch, frontier_missing,
  identity_changed, illegal_transition, io_failed, is_authority_error, journal_missing,
  legal_phase_transition, prepared, rebuilt_mismatch, resume_mismatch, resume_truncated,
  same_immutable_identity, same_log, tip_not_frontier, truncated_resume_from, truncation_mismatch,
  unrecorded, unsupported_schema, unwind_missed, unwind_to_target, unwound, verify_frontier,
  wrong_phase, failed, DurableTipAction,
}

-- What survives a crash: the journal, the resume log and the database's last block.
pub record Disk : Type 0 where
  pub journal : Option RecoveryJournal
  pub resume : L1ResumeLog
  pub tip : ℕ

-- The disk now, and every state that it was in since the run began, the newest first.
pub record World : Type 0 where
  pub disk : Disk
  pub past : List Disk

abbrev pub write : Disk → World → World
write disk w = record { disk = disk; past = disk ∷ w.past }

-- What the world answers during one run.
pub record Answers : Type 0 where
  pub open_first : Option Fault
  pub unwind : Option Fault
  pub remove_above : ℕ → ℕ → ℕ
  pub open_again : Option Fault
  pub save_phase : Phase → Replacement
  pub save_resume : Replacement
  pub load_resume : Option Fault
  pub rebuild_tips : List ℕ
  pub rebuilt : Result Fault HeaderObservation
  pub canonical_after : Result RecoveryAuthorityError HeaderObservation
  pub open_verify : Option Fault
  pub local_header : Option HeaderObservation
  pub canonical_durable : Result RecoveryAuthorityError HeaderObservation

abbrev pub Run : Type 0 → Type 0
Run A = World × Result Fault A

abbrev pub and_then : {A B : Type 0} → Run A → (World → A → Run B) → Run B
and_then (w, ok a) next = next w a
and_then (w, err e) next = (w, err e)
and_then (w, stuck) next = (w, stuck)

abbrev pub match_run :
    {A B : Type 0} → Run A → (World → A → Run B) → (World → Fault → Run B) → Run B
match_run (w, ok a) next recover = next w a
match_run (w, err e) next recover = recover w e
match_run (w, stuck) next recover = (w, stuck)

-- `?` on a fault that may have come.
abbrev pub guard : Option Fault → World → Run (Unit {0})
guard none w = (w, ok tt)
guard (some e) w = (w, err e)

-- The schema test of `strict_journal` on the journal that is there.
unfoldable pub strict_journal : Option RecoveryJournal → Result Fault (Option RecoveryJournal)
strict_journal none = ok none
strict_journal (some j) =
    if j.schema_version == 2 then ok (some j) else err (unsupported_schema j.schema_version)

abbrev pub replace : Replacement → Disk → World → Run (Unit {0})
replace replaced disk w = (write disk w, ok tt)
replace kept disk w = (w, err io_failed)
replace unsynced disk w = (write disk w, err io_failed)

-- The journal `j` replaces the `current` one if only the phase moves, and legally.
unfoldable pub publish : Answers → RecoveryJournal → Option RecoveryJournal → World → Run (Unit {0})
unfolding same_immutable_identity legal_phase_transition
publish answers j none w = (w, err journal_missing)
publish answers j (some current) w =
    if not (same_immutable_identity current j)
    then (w, err identity_changed)
    else if not (legal_phase_transition current.phase j.phase)
    then (w, err (illegal_transition current.phase j.phase))
    else replace (answers.save_phase j.phase) (record w.disk { journal = some j }) w

unfoldable pub save_journal : Answers → RecoveryJournal → World → Run (Unit {0})
unfolding strict_journal publish
save_journal answers j w =
    and_then (w, strict_journal w.disk.journal) (λ w current. publish answers j current w)

abbrev pub with_phase : RecoveryJournal → Phase → RecoveryJournal
with_phase j p = record j { phase = p }

-- The run ends with the cause, whether or not it could be recorded.
abbrev pub report_cause : {A : Type 0} → Fault → Run (Unit {0}) → Run A
report_cause cause (w, ok tt) = (w, err cause)
report_cause cause (w, err e) = (w, err (unrecorded cause))
report_cause cause (w, stuck) = (w, stuck)

unfoldable pub persist_terminal_failure :
    {A : Type 0} → Answers → RecoveryJournal → Fault → World → Run A
unfolding save_journal
persist_terminal_failure answers j cause w =
    report_cause cause (save_journal answers (with_phase j failed) w)

-- The unwind is recorded once; the journal in memory is returned.
unfoldable pub mark_unwound : Answers → RecoveryJournal → World → Run (Option RecoveryJournal)
unfolding save_journal
mark_unwound answers j w = elim j.phase [
  | prepared ↦
      let j' = with_phase j unwound in
      and_then (save_journal answers j' w) (λ w saved. (w, ok (some j')))
  | _ ↦ (w, ok (some j))
]

-- The second half of the unwind: the database is opened again, and its tip must be the target.
unfoldable pub reopen : Answers → RecoveryJournal → World → Run (Option RecoveryJournal)
unfolding persist_terminal_failure mark_unwound
reopen answers j w = and_then (guard answers.open_again w) (λ w opened.
    if not (w.disk.tip == j.target)
    then persist_terminal_failure answers j (unwind_missed w.disk.tip) w
    else mark_unwound answers j w)

-- `remove_block_and_execution_above` and its commit; a failure commits nothing.
unfoldable pub unwind_blocks : Answers → RecoveryJournal → World → Run (Unit {0})
unfolding persist_terminal_failure
unwind_blocks answers j w = elim answers.unwind [
  | some e ↦ persist_terminal_failure answers j e w
  | none ↦ (write (record w.disk { tip = answers.remove_above w.disk.tip j.target }) w, ok tt)
]

-- `none`: the journal stands for a durable frontier that is to be verified.
unfoldable pub take_action :
    Answers → RecoveryJournal → DurableTipAction → World → Run (Option RecoveryJournal)
unfolding unwind_blocks reopen
take_action answers j verify_frontier w = (w, ok none)
take_action answers j at_target w = reopen answers j w
take_action answers j unwind_to_target w =
    and_then (unwind_blocks answers j w) (λ w unwound. reopen answers j w)

unfoldable pub unwind_and_reopen : Answers → RecoveryJournal → World → Run (Option RecoveryJournal)
unfolding durable_tip_action take_action
unwind_and_reopen answers j w = and_then (guard answers.open_first w) (λ w opened.
    and_then (w, durable_tip_action j w.disk.tip) (λ w action. take_action answers j action w))

-- The durable log, read again, must be the one that the journal names.
unfoldable pub check_resume :
    Answers → RecoveryJournal → World → (World → Run RecoveryJournal) → Run RecoveryJournal
unfolding persist_terminal_failure
check_resume answers j w next = elim answers.load_resume [
  | some e ↦ persist_terminal_failure answers j e w
  | none ↦
      if not (same_log w.disk.resume j.truncated_resume)
      then persist_terminal_failure answers j resume_mismatch w
      else next w
]

-- The log is replaced unless it is the expected one already.
unfoldable pub save_truncated : Answers → L1ResumeLog → RecoveryJournal → World → Run (Unit {0})
unfolding persist_terminal_failure
save_truncated answers log j w =
    if same_log log j.truncated_resume
    then (w, ok tt)
    else match_run (replace answers.save_resume (record w.disk { resume = j.truncated_resume }) w)
        (λ w saved. (w, ok tt)) (λ w e. persist_terminal_failure answers j e w)

-- The truncation is made durable before its phase is.
unfoldable pub record_truncation :
    Answers → L1ResumeLog → RecoveryJournal → World → Run RecoveryJournal
unfolding save_truncated check_resume save_journal
record_truncation answers log j w = elim j.phase [
  | unwound ↦ and_then (save_truncated answers log j w) (λ w saved. check_resume answers j w (λ w.
      let j' = with_phase j resume_truncated in
      and_then (save_journal answers j' w) (λ w saved'. (w, ok j'))))
  | resume_truncated ↦ check_resume answers j w (λ w. (w, ok j))
  | phase ↦ (w, err (wrong_phase phase))
]

unfoldable pub durably_truncate_resume :
    Answers → L1ResumeLog → RecoveryJournal → World → Run RecoveryJournal
unfolding truncated_resume_from record_truncation
durably_truncate_resume answers log j w =
    and_then (w, truncated_resume_from log j.checkpoint)
      (λ w derived.
        if not (same_log derived j.truncated_resume)
        then persist_terminal_failure answers j truncation_mismatch w
        else record_truncation answers log j w)

-- The canonical header is asked for only at the frontier's tip.
unfoldable pub compare_frontier :
    Answers → RecoveryJournal → HeaderObservation → World → Run (Unit {0})
unfolding exact
compare_frontier answers j header w =
    if not (w.disk.tip == j.frontier)
    then (w, err (tip_not_frontier w.disk.tip))
    else and_then (w, map_err authority answers.canonical_durable)
        (λ w canonical.
          if exact (record header { number = j.frontier }) canonical
          then (w, ok tt)
          else (w, err frontier_mismatch))

unfoldable pub verify_durable_frontier : Answers → RecoveryJournal → World → Run (Unit {0})
unfolding compare_frontier
verify_durable_frontier answers j w = and_then (guard answers.open_verify w) (λ w opened.
    and_then (w, ok_or answers.local_header frontier_missing)
      (λ w header. compare_frontier answers j header w))

-- The frontier was reached before its phase was saved: it is verified once more.
unfoldable pub resume_at_frontier : Answers → RecoveryJournal → World → Run (Unit {0})
unfolding verify_durable_frontier persist_terminal_failure save_journal is_authority_error
resume_at_frontier answers j w =
    match_run (verify_durable_frontier answers j w)
      (λ w verified. elim j.phase [
        | resume_truncated ↦ save_journal answers (with_phase j frontier_matched) w
        | _ ↦ (w, ok tt)
      ])
      (λ w e. if is_authority_error e then (w, err e) else elim j.phase [
        | resume_truncated ↦ persist_terminal_failure answers j e w
        | _ ↦ (w, err e)
      ])

-- The finite L1 sync: the tips that the database has on the way.
unfoldable pub rebuild : List ℕ → World → World
rebuild [] w = w
rebuild (tip ∷ tips) w = rebuild tips (write (record w.disk { tip = tip }) w)

unfoldable pub rebuild_and_verify : Answers → RecoveryJournal → World → Run (Unit {0})
unfolding rebuild exact verify_durable_frontier persist_terminal_failure save_journal
    is_authority_error
rebuild_and_verify answers j w =
    and_then (rebuild answers.rebuild_tips w, answers.rebuilt)
      (λ w rebuilt.
        and_then (w, map_err authority answers.canonical_after)
          (λ w canonical.
            if not (exact rebuilt canonical)
            then persist_terminal_failure answers j rebuilt_mismatch w
            else match_run (verify_durable_frontier answers j w)
                (λ w verified. save_journal answers (with_phase j frontier_matched) w)
                (λ w e.
                  if is_authority_error e
                  then (w, err e)
                  else persist_terminal_failure answers j e w)))

unfoldable pub after_open :
    Answers → L1ResumeLog → RecoveryJournal → Option RecoveryJournal → World → Run (Unit {0})
unfolding resume_at_frontier durably_truncate_resume rebuild_and_verify
after_open answers locked_log j none w = resume_at_frontier answers j w
after_open answers locked_log j (some reopened) w =
    and_then (durably_truncate_resume answers locked_log reopened w)
      (λ w j'. rebuild_and_verify answers j' w)

-- The run once the journal is published or loaded, with the log that was read under the lock.
unfoldable pub recover_locked : Answers → L1ResumeLog → RecoveryJournal → World → Run (Unit {0})
unfolding unwind_and_reopen after_open
recover_locked answers locked_log j w =
    and_then (unwind_and_reopen answers j w) (λ w opened. after_open answers locked_log j opened w)
