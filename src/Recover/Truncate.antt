-- ===== src/Recover/Truncate.antt =====
-- crates/arb-reth-node/src/commands/recover.rs: the truncation of the resume log keeps to the states
-- that a later run can go on from.
use arbitrum_reth.Recover.Unwind.{Contract, same_checkpoints-≡, truncated_resume_from-twice}
use arbitrum_reth.Recover.Journal.{
  Fault, Phase, RecoveryJournal, resume_mismatch, resume_truncated, same_log, unwound, failed,
  frontier_matched, prepared, truncated_resume_from, truncation_mismatch,
}
use arbitrum_reth.Prelude.{
  ◌≡◌, refl, ap, ◌⊎◌, inl, inr, not, Option, none, some, arith, if◌then◌else◌, Bool-cases, ok,
}
use arbitrum_reth.Sync.Resume.{L1ResumeLog}
use arbitrum_reth.Recover.Steps.{
  Fits, Ends, IsCrashSafe, Stands, Stands-IsCrashSafe, match_run-Ends,
  persist_terminal_failure-Ends, read-Ends, and_then-Ends, save_journal-Ends,
}
use arbitrum_reth.Sync.Replacement.{Replacement, kept, replaced, unsynced}
use arbitrum_reth.Recover.{
  World, Run, Answers, and_then, with_phase, replace, check_resume, durably_truncate_resume,
  persist_terminal_failure, save_truncated, record_truncation, save_journal,
}

module _ (base : RecoveryJournal) (answers : Answers) (contract : Contract base answers) where
  check_resume-Ends :
      (R : World → RecoveryJournal → Type 0) (p : Phase) (w : World)
      (next : World → Run RecoveryJournal)
      → IsCrashSafe base w
      → (w.disk.resume ≡ base.truncated_resume → Ends base R (next w))
      → Ends base R (check_resume answers (with_phase base p) w next)
  unfolding check_resume
  check_resume-Ends R p w next safe more = loaded answers.load_resume
    where
      compared : Ends base R (
          if not (same_log w.disk.resume base.truncated_resume)
          then persist_terminal_failure answers (with_phase base p) resume_mismatch w
          else next w)
      compared = elim (Bool-cases (same_log w.disk.resume base.truncated_resume)) [
        | inr f ↦ rw f (persist_terminal_failure-Ends base answers R p resume_mismatch w safe)
        | inl t ↦ rw t (more (ap (λ cps. record { checkpoints = cps }) (same_checkpoints-≡ _ _ t)))
      ]

      loaded :
          (fault : Option Fault)
          → Ends base R (elim fault [
            | some e ↦ persist_terminal_failure answers (with_phase base p) e w
            | none ↦
                if not (same_log w.disk.resume base.truncated_resume)
                then persist_terminal_failure answers (with_phase base p) resume_mismatch w
                else next w
          ])
      loaded (some e) = persist_terminal_failure-Ends base answers R p e w safe
      loaded none = compared

  save_truncated-Ends :
      (log : L1ResumeLog) (w : World)
      → Stands base unwound w
      → Ends base
          (λ w' _. Stands base unwound w')
          (save_truncated answers log (with_phase base unwound) w)
  unfolding save_truncated
  save_truncated-Ends log w (named, fits, past) =
      elim (Bool-cases (same_log log base.truncated_resume)) [
        | inl t ↦ rw t (((unwound, named, fits), past), (named, fits, past))
        | inr f ↦ rw f (
            match_run-Ends base (λ w' _. Stands base unwound w') (λ w' _. Stands base unwound w')
              (replace answers.save_resume (record w.disk { resume = base.truncated_resume }) w) _ _
              (swap answers.save_resume) (λ w' a safe s. (safe, s))
              (λ w' e safe.
                persist_terminal_failure-Ends base answers (λ w' _. Stands base unwound w') unwound
                  e w' safe))
      ]
    where
      fits' : Fits base unwound base.truncated_resume w.disk.tip
      fits' = (
        fits.0,
        truncated_resume_from-twice w.disk.resume base.truncated_resume base.checkpoint fits.1,
      )

      swap :
          (how : Replacement)
          → Ends base
              (λ w' _. Stands base unwound w')
              (replace how (record w.disk { resume = base.truncated_resume }) w)
      swap replaced = (
        ((unwound, named, fits'), ((unwound, named, fits'), past)),
        (named, fits', ((unwound, named, fits'), past)),
      )
      swap kept = (((unwound, named, fits), past), tt)
      swap unsynced = (((unwound, named, fits'), ((unwound, named, fits'), past)), tt)

  abbrev pub Truncated : World → RecoveryJournal → Type 0
  Truncated w j = (j ≡ with_phase base resume_truncated) × Stands base resume_truncated w

  record_truncation-Ends :
      (p : Phase) (log : L1ResumeLog) (w : World)
      → Stands base p w
      → w.disk.tip ≡ base.target
      → ((p ≡ unwound) ⊎ (p ≡ resume_truncated))
      → Ends base Truncated (record_truncation answers log (with_phase base p) w)
  unfolding record_truncation
  record_truncation-Ends unwound log w stands at late =
      let truncated = with_phase base resume_truncated in
      let mark : World → Run RecoveryJournal =
        (λ w'. and_then (save_journal answers truncated w') (λ w'' saved. (w'', ok truncated))) in
      and_then-Ends base Truncated (λ w' _. Stands base unwound w')
        (save_truncated answers log (with_phase base unwound) w)
        (λ w' saved. check_resume answers (with_phase base unwound) w' mark)
        (save_truncated-Ends log w stands)
        (λ w' a safe s. check_resume-Ends Truncated unwound w' mark safe (λ same.
          let fits : Fits base resume_truncated w'.disk.resume w'.disk.tip =
            (omega (arith, s.1.0), omega (arith, s.1.0, contract.bounded), same) in
          and_then-Ends base Truncated (λ w'' _. Stands base resume_truncated w'')
            (save_journal answers truncated w') (λ w'' saved. (w'', ok truncated))
            (save_journal-Ends base answers resume_truncated w' safe fits)
            (λ w'' b safe' s'. (safe', (refl, s')))))
  record_truncation-Ends resume_truncated log w stands at late =
      let safe = Stands-IsCrashSafe base resume_truncated w stands in
      check_resume-Ends Truncated resume_truncated w
        (λ w'. (w', ok (with_phase base resume_truncated))) safe (λ same. (safe, (refl, stands)))
  record_truncation-Ends prepared log w stands at late = absurd (ground (arith, late))
  record_truncation-Ends frontier_matched log w stands at late = absurd (ground (arith, late))
  record_truncation-Ends failed log w stands at late = absurd (ground (arith, late))

  pub durably_truncate_resume-Ends :
      (p : Phase) (log : L1ResumeLog) (w : World)
      → Stands base p w
      → w.disk.tip ≡ base.target
      → ((p ≡ unwound) ⊎ (p ≡ resume_truncated))
      → Ends base Truncated (durably_truncate_resume answers log (with_phase base p) w)
  unfolding durably_truncate_resume
  durably_truncate_resume-Ends p log w stands at late =
      let safe = Stands-IsCrashSafe base p w stands in
      read-Ends base Truncated w (truncated_resume_from log base.checkpoint) _ safe
        (λ derived kept_. elim (Bool-cases (same_log derived base.truncated_resume)) [
          | inr f ↦
              rw f
                (persist_terminal_failure-Ends base answers Truncated p truncation_mismatch w safe)
          | inl t ↦ rw t (record_truncation-Ends p log w stands at late)
        ])
