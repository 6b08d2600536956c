-- ===== src/Recover/Complete.antt =====
-- crates/arb-reth-node/src/commands/recover.rs: from any state that a crash leaves, a run to which the
-- world answers well completes the recovery.
use arbitrum_reth.Recover.Keeps.{unwind_and_reopen-Keeps}
use arbitrum_reth.Recover.Truncate.{Truncated, durably_truncate_resume-Ends}
use arbitrum_reth.Recover.Crash.{
  AtFrontier, rebuild-Stands, verify_durable_frontier-Ends, recover_locked-IsCrashSafe,
}
use arbitrum_reth.Recover.Progress.{
  save_journal-Succeeds, verify_durable_frontier-Succeeds, unwind_and_reopen-Succeeds,
}
use arbitrum_reth.Recover.Unwind.{Contract, same_checkpoints-≡, Opened, unwind_and_reopen-Ends}
use arbitrum_reth.Recover.Succeeds.{
  Cooperates, Succeeds, and_then-Succeeds, same_checkpoints_refl, exact_refl, match_run-Succeeds,
  result_of,
}
use arbitrum_reth.Recover.Journal.{
  HeaderObservation, Phase, RecoveryJournal, failed, frontier_matched, prepared, resume_truncated,
  same_log, truncated_resume_from, unwound,
}
use arbitrum_reth.Prelude.{
  ◌≡◌, refl, sym, ap, ◌∙◌, subst, ◌≢◌, ◌⊎◌, inl, inr, true, Option, none, some, arith, Bool-cases,
  ok,
}
use arbitrum_reth.Sync.Resume.{L1ResumeLog}
use arbitrum_reth.Recover.Steps.{Stands}
use arbitrum_reth.Recover.{
  World, Run, Answers, and_then, with_phase, rebuild, check_resume, durably_truncate_resume,
  rebuild_and_verify, record_truncation, save_journal, save_truncated, write, resume_at_frontier,
  verify_durable_frontier, after_open, recover_locked, unwind_and_reopen,
}

-- Past `prepared`, the log still gives the retained prefix.
derivation :
    (base : RecoveryJournal) (q : Phase) (w : World)
    → Stands base q w
    → ((q ≡ unwound) ⊎ (q ≡ resume_truncated))
    → truncated_resume_from base.truncated_resume base.checkpoint ≡ ok base.truncated_resume
    → truncated_resume_from w.disk.resume base.checkpoint ≡ ok base.truncated_resume
derivation base unwound w stands late whole = stands.1.1
derivation base resume_truncated w stands late whole =
    subst (λ l. truncated_resume_from l base.checkpoint ≡ ok base.truncated_resume) (sym stands.1.2)
      whole
derivation base prepared w stands late whole = absurd (ground (arith, late))
derivation base frontier_matched w stands late whole = absurd (ground (arith, late))
derivation base failed w stands late whole = absurd (ground (arith, late))

module _ (base : RecoveryJournal) (answers : Answers) (header : HeaderObservation)
    (contract : Contract base answers) (good : Cooperates base answers header)
    (schema : base.schema_version ≡ 2) where
  check_resume-Succeeds :
      (p : Phase) (w : World) (next : World → Run RecoveryJournal)
      → w.disk.resume ≡ base.truncated_resume
      → Succeeds (next w)
      → Succeeds (check_resume answers (with_phase base p) w next)
  unfolding check_resume
  check_resume-Succeeds p w next same more =
      let equal : same_log w.disk.resume base.truncated_resume ≡ true =
        rw same (same_checkpoints_refl base.truncated_resume.checkpoints) in
      rw (check_resume, good.loads, equal) more

  -- After the save, the log is the truncated one and the journal still says `unwound`.
  save_truncated-Succeeds :
      (log : L1ResumeLog) (w : World)
      → Stands base unwound w
      → log ≡ w.disk.resume
      → (w' : World) × (save_truncated answers log (with_phase base unwound) w ≡ (w', ok tt))
        × (w'.disk.resume ≡ base.truncated_resume)
        × (w'.disk.journal ≡ some (with_phase base unwound))
  unfolding save_truncated
  save_truncated-Succeeds log w stands read =
      elim (Bool-cases (same_log log base.truncated_resume)) [
        | inl t ↦ (
          w,
          rw t refl,
          sym read ∙ ap (λ cps. record { checkpoints = cps }) (same_checkpoints-≡ _ _ t),
          stands.0,
        )
        | inr f ↦ (
          write (record w.disk { resume = base.truncated_resume }) w,
          rw (f, good.saves_resume) refl,
          refl,
          stands.0,
        )
      ]

  record_truncation-Succeeds :
      (p : Phase) (log : L1ResumeLog) (w : World)
      → Stands base p w
      → log ≡ w.disk.resume
      → ((p ≡ unwound) ⊎ (p ≡ resume_truncated))
      → Succeeds (record_truncation answers log (with_phase base p) w)
  unfolding record_truncation
  record_truncation-Succeeds unwound log w stands read late =
      let truncated = with_phase base resume_truncated in
      let mark : World → Run RecoveryJournal =
        (λ w. and_then (save_journal answers truncated w) (λ w saved. (w, ok truncated))) in
      let (w₁, run, same, named) = save_truncated-Succeeds log w stands read in
      and_then-Succeeds (save_truncated answers log (with_phase base unwound) w)
        (λ w saved. check_resume answers (with_phase base unwound) w mark) (w₁, tt, run)
        (λ w₂ a h.
          let moved : w₁ ≡ w₂ = ap (λ r. r.0) (sym run ∙ h) in
          subst (λ v. Succeeds (check_resume answers (with_phase base unwound) v mark)) moved
            (check_resume-Succeeds unwound w₁ mark same (
              and_then-Succeeds (save_journal answers truncated w₁) (λ w saved. (w, ok truncated))
                (save_journal-Succeeds base answers header contract good schema unwound
                  resume_truncated w₁ named refl)
                (λ w₃ b h'. (w₃, truncated, refl)))))
  record_truncation-Succeeds resume_truncated log w stands read late =
      check_resume-Succeeds resume_truncated w (λ w. (w, ok (with_phase base resume_truncated)))
        stands.1.2 (w, _, refl)
  record_truncation-Succeeds prepared log w stands read late = absurd (ground (arith, late))
  record_truncation-Succeeds frontier_matched log w stands read late = absurd (ground (arith, late))
  record_truncation-Succeeds failed log w stands read late = absurd (ground (arith, late))

  durably_truncate_resume-Succeeds :
      (p : Phase) (log : L1ResumeLog) (w : World)
      → Stands base p w
      → log ≡ w.disk.resume
      → truncated_resume_from log base.checkpoint ≡ ok base.truncated_resume
      → ((p ≡ unwound) ⊎ (p ≡ resume_truncated))
      → Succeeds (durably_truncate_resume answers log (with_phase base p) w)
  unfolding durably_truncate_resume
  durably_truncate_resume-Succeeds p log w stands read derived late =
      let equal = same_checkpoints_refl base.truncated_resume.checkpoints in
      rw (durably_truncate_resume, derived, equal)
        (record_truncation-Succeeds p log w stands read late)

  rebuild_and_verify-Succeeds :
      (w : World)
      → Stands base resume_truncated w
      → Succeeds (rebuild_and_verify answers (with_phase base resume_truncated) w)
  unfolding rebuild_and_verify
  rebuild_and_verify-Succeeds w stands =
      let w₁ = rebuild answers.rebuild_tips w in
      let stands₁ =
        rebuild-Stands base answers contract answers.rebuild_tips w contract.passes stands in
      rw (rebuild_and_verify, good.rebuilds, good.sees, exact_refl header)
        (match_run-Succeeds (verify_durable_frontier answers (with_phase base resume_truncated) w₁)
          _ _
          (verify_durable_frontier-Succeeds base answers header contract good schema
            resume_truncated w₁ (good.reaches w))
          (λ w' a h.
            let s =
              result_of base (AtFrontier base answers contract resume_truncated) _ w' a
                (verify_durable_frontier-Ends base answers contract resume_truncated w₁ stands₁)
                h in
            save_journal-Succeeds base answers header contract good schema resume_truncated
              frontier_matched w' s.0.0 refl))

  resume_at_frontier-Succeeds :
      (p : Phase) (w : World)
      → Stands base p w
      → w.disk.tip ≡ base.frontier
      → ((p ≡ resume_truncated) ⊎ (p ≡ frontier_matched))
      → Succeeds (resume_at_frontier answers (with_phase base p) w)
  unfolding resume_at_frontier
  resume_at_frontier-Succeeds resume_truncated w stands at late =
      match_run-Succeeds (verify_durable_frontier answers (with_phase base resume_truncated) w) _ _
        (verify_durable_frontier-Succeeds base answers header contract good schema resume_truncated
          w at)
        (λ w' a h.
          let s =
            result_of base (AtFrontier base answers contract resume_truncated) _ w' a
              (verify_durable_frontier-Ends base answers contract resume_truncated w stands) h in
          save_journal-Succeeds base answers header contract good schema resume_truncated
            frontier_matched w' s.0.0 refl)
  resume_at_frontier-Succeeds frontier_matched w stands at late =
      match_run-Succeeds (verify_durable_frontier answers (with_phase base frontier_matched) w) _ _
        (verify_durable_frontier-Succeeds base answers header contract good schema frontier_matched
          w at)
        (λ w' a h. (w', tt, refl))
  resume_at_frontier-Succeeds prepared w stands at late = absurd (ground (arith, late))
  resume_at_frontier-Succeeds unwound w stands at late = absurd (ground (arith, late))
  resume_at_frontier-Succeeds failed w stands at late = absurd (ground (arith, late))

  after_open-Succeeds :
      (p : Phase) (log : L1ResumeLog) (opened : Option RecoveryJournal) (w : World)
      → Opened base answers contract p w opened
      → w.disk.resume ≡ log
      → truncated_resume_from base.truncated_resume base.checkpoint ≡ ok base.truncated_resume
      → Succeeds (after_open answers log (with_phase base p) opened w)
  unfolding after_open
  after_open-Succeeds p log none w (stands, at, late) keeps whole =
      resume_at_frontier-Succeeds p w stands at late
  after_open-Succeeds p log (some j) w (q, same, stands, at, late) keeps whole =
      let derived =
        subst (λ l. truncated_resume_from l base.checkpoint ≡ ok base.truncated_resume) keeps
          (derivation base q w stands late whole) in
      subst (λ k. Succeeds (after_open answers log (with_phase base p) (some k) w)) (sym same)
        (and_then-Succeeds (durably_truncate_resume answers log (with_phase base q) w)
          (λ w' j'. rebuild_and_verify answers j' w')
          (durably_truncate_resume-Succeeds q log w stands (sym keeps) derived late)
          (λ w' j' h.
            let t =
              result_of base (Truncated base answers contract) _ w' j'
                (durably_truncate_resume-Ends base answers contract q log w stands at late) h in
            subst (λ k. Succeeds (rebuild_and_verify answers k w')) (sym t.0)
              (rebuild_and_verify-Succeeds w' t.1)))

  -- From every sound state that is not marked failed, whatever crash or retryable error left it: a
  -- run to which the world answers well, and which reads the resume log as it is, succeeds; the
  -- journal is then at `frontier_matched` and the tip at the frontier.
  pub recover_locked-completes :
      (p : Phase) (w : World)
      → Stands base p w
      → p ≢ failed
      → truncated_resume_from base.truncated_resume base.checkpoint ≡ ok base.truncated_resume
      → let end = recover_locked answers w.disk.resume (with_phase base p) w in
        (end.1 ≡ ok tt) × Stands base frontier_matched end.0
  unfolding recover_locked
  recover_locked-completes p w stands live whole =
      let log = w.disk.resume in
      let (w', a, h) =
        and_then-Succeeds (unwind_and_reopen answers (with_phase base p) w)
          (λ w opened. after_open answers log (with_phase base p) opened w)
          (unwind_and_reopen-Succeeds base answers header contract good schema p w stands live)
          (λ w₁ opened run.
            let keeps : w₁.disk.resume ≡ log =
              subst (λ r. r.0.disk.resume ≡ log) run
                (unwind_and_reopen-Keeps log answers (with_phase base p) w refl) in
            after_open-Succeeds p log opened w₁
              (result_of base (Opened base answers contract p) _ w₁ opened
                (unwind_and_reopen-Ends base answers contract p w stands) run)
              keeps whole) in
      let fine = ap (λ r. r.1) h in
      (fine, (recover_locked-IsCrashSafe base answers contract p log w stands).1 fine)
