-- ===== src/Recover/Keeps.antt =====
-- crates/arb-reth-node/src/commands/recover.rs: the first half of a run leaves the resume log alone.
use arbitrum_reth.Recover.Journal.{
  DurableTipAction, Fault, Phase, RecoveryJournal, at_target, durable_tip_action, failed,
  frontier_matched, legal_phase_transition, prepared, resume_truncated, same_immutable_identity,
  unwind_missed, unwind_to_target, unwound, verify_frontier,
}
use arbitrum_reth.Prelude.{
  ◌≡◌, inl, inr, not, Option, none, some, ◌==◌, if◌then◌else◌, Bool-cases, ok, err, stuck,
}
use arbitrum_reth.Sync.Resume.{L1ResumeLog}
use arbitrum_reth.Sync.Replacement.{kept, replaced, unsynced, Replacement}
use arbitrum_reth.Recover.{
  report_cause, World, Run, Answers, and_then, with_phase, guard, replace, mark_unwound,
  persist_terminal_failure, publish, reopen, save_journal, strict_journal, take_action,
  unwind_and_reopen, unwind_blocks, write,
}

module _ (resume : L1ResumeLog) where
  -- Where the run leads, the log is `resume`.
  abbrev pub Keeps : {A : Type 0} → Run A → Type 0
  Keeps run = run.0.disk.resume ≡ resume

  and_then-Keeps :
      {A B : Type 0} (run : Run A) (more : World → A → Run B)
      → Keeps run
      → ((w : World) (a : A) → w.disk.resume ≡ resume → Keeps (more w a))
      → Keeps (and_then run more)
  and_then-Keeps (w, ok a) more k rest = rest w a k
  and_then-Keeps (w, err e) more k rest = k
  and_then-Keeps (w, stuck) more k rest = k

module _ (resume : L1ResumeLog) (answers : Answers) where
  save_journal-Keeps :
      (j : RecoveryJournal) (w : World)
      → w.disk.resume ≡ resume
      → Keeps resume (save_journal answers j w)
  unfolding save_journal publish
  save_journal-Keeps j w k =
      and_then-Keeps resume (w, strict_journal w.disk.journal)
        (λ w current. publish answers j current w) k (λ w' current k'. published current w' k')
    where
      swapped :
          (how : Replacement) (w' : World)
          → w'.disk.resume ≡ resume
          → Keeps resume (replace how (record w'.disk { journal = some j }) w')
      swapped replaced w' k' = k'
      swapped kept w' k' = k'
      swapped unsynced w' k' = k'

      published :
          (current : Option RecoveryJournal) (w' : World)
          → w'.disk.resume ≡ resume
          → Keeps resume (publish answers j current w')
      published none w' k' = k'
      published (some current) w' k' = elim (Bool-cases (same_immutable_identity current j)) [
        | inr f ↦ rw (publish, f) k'
        | inl t ↦ elim (Bool-cases (legal_phase_transition current.phase j.phase)) [
          | inr f ↦ rw (publish, t, f) k'
          | inl u ↦ rw (publish, t, u) (swapped (answers.save_phase j.phase) w' k')
        ]
      ]

  persist_terminal_failure-Keeps :
      (A : Type 0) (j : RecoveryJournal) (cause : Fault) (w : World)
      → w.disk.resume ≡ resume
      → Keeps resume (persist_terminal_failure {A = A} answers j cause w)
  unfolding persist_terminal_failure
  persist_terminal_failure-Keeps A j cause w k =
      recorded (save_journal answers (with_phase j failed) w)
        (save_journal-Keeps (with_phase j failed) w k)
    where
      recorded :
          (run : Run (Unit {0})) → Keeps resume run → Keeps resume (report_cause {A = A} cause run)
      recorded (w', ok a) k' = k'
      recorded (w', err e) k' = k'
      recorded (w', stuck) k' = k'

  guard-Keeps :
      {A : Type 0} (fault : Option Fault) (w : World) (more : World → Unit {0} → Run A)
      → w.disk.resume ≡ resume
      → Keeps resume (more w tt)
      → Keeps resume (and_then (guard fault w) more)
  guard-Keeps none w more k rest = rest
  guard-Keeps (some e) w more k rest = k

  mark_unwound-Keeps :
      (p : Phase) (j : RecoveryJournal) (w : World)
      → w.disk.resume ≡ resume
      → Keeps resume (mark_unwound answers (with_phase j p) w)
  unfolding mark_unwound
  mark_unwound-Keeps prepared j w k =
      and_then-Keeps resume (save_journal answers (with_phase j unwound) w)
        (λ w saved. (w, ok (some (with_phase j unwound))))
        (save_journal-Keeps (with_phase j unwound) w k) (λ w' a k'. k')
  mark_unwound-Keeps unwound j w k = k
  mark_unwound-Keeps resume_truncated j w k = k
  mark_unwound-Keeps frontier_matched j w k = k
  mark_unwound-Keeps failed j w k = k

  reopen-Keeps :
      (j : RecoveryJournal) (w : World) → w.disk.resume ≡ resume → Keeps resume (reopen answers j w)
  unfolding reopen
  reopen-Keeps j w k =
      guard-Keeps answers.open_again w
        (λ w opened.
          if not (w.disk.tip == j.target)
          then persist_terminal_failure answers j (unwind_missed w.disk.tip) w
          else mark_unwound answers j w)
        k
        (elim (Bool-cases (w.disk.tip == j.target)) [
          | inl t ↦ rw t (mark_unwound-Keeps j.phase j w k)
          | inr f ↦ rw f (
              persist_terminal_failure-Keeps (Option RecoveryJournal) j (unwind_missed w.disk.tip) w
                k)
        ])

  take_action-Keeps :
      (j : RecoveryJournal) (action : DurableTipAction) (w : World)
      → w.disk.resume ≡ resume
      → Keeps resume (take_action answers j action w)
  unfolding take_action unwind_blocks
  take_action-Keeps j verify_frontier w k = k
  take_action-Keeps j at_target w k = reopen-Keeps j w k
  take_action-Keeps j unwind_to_target w k =
      and_then-Keeps resume (unwind_blocks answers j w) (λ w unwound. reopen answers j w)
        (by_answer answers.unwind) (λ w' a k'. reopen-Keeps j w' k')
    where
      by_answer :
          (fault : Option Fault)
          → Keeps resume (elim fault [
            | some e ↦ persist_terminal_failure {A = Unit {0}} answers j e w
            | none ↦
                (write (record w.disk { tip = answers.remove_above w.disk.tip j.target }) w, ok tt)
          ])
      by_answer none = k
      by_answer (some e) = persist_terminal_failure-Keeps (Unit {0}) j e w k

  pub unwind_and_reopen-Keeps :
      (j : RecoveryJournal) (w : World)
      → w.disk.resume ≡ resume
      → Keeps resume (unwind_and_reopen answers j w)
  unfolding unwind_and_reopen
  unwind_and_reopen-Keeps j w k =
      guard-Keeps answers.open_first w
        (λ w opened.
          and_then (w, durable_tip_action j w.disk.tip)
            (λ w action. take_action answers j action w))
        k
        (and_then-Keeps resume (w, durable_tip_action j w.disk.tip)
          (λ w action. take_action answers j action w) k
          (λ w' action k'. take_action-Keeps j action w' k'))
