-- ===== src/Recover/Crash.antt =====
-- crates/arb-reth-node/src/commands/recover.rs: a crash at any point of a run leaves a state that the
-- next run can go on from.
use arbitrum_reth.Recover.Truncate.{Truncated, durably_truncate_resume-Ends}
use arbitrum_reth.Recover.Unwind.{Contract, guard-Ends, Opened, unwind_and_reopen-Ends}
use arbitrum_reth.Recover.Journal.{
  Phase, RecoveryJournal, exact, resume_truncated, unwound, authority, failed, frontier_matched,
  is_authority_error, prepared, rebuilt_mismatch, HeaderObservation, frontier_mismatch,
  frontier_missing,
}
use arbitrum_reth.Prelude.{
  ℕ, ◌≤◌, ◌≡◌, sym, subst, ◌⊎◌, inl, inr, Option, none, some, List, [], ◌∷◌, arith, ◌==◌,
  if◌then◌else◌, Bool-cases, All, ok_or, map_err, ok, err,
}
use arbitrum_reth.Sync.Resume.{L1ResumeLog}
use arbitrum_reth.Recover.Steps.{
  Fits, Ends, IsCrashSafe, Stands, Stands-IsCrashSafe, match_run-Ends,
  persist_terminal_failure-Ends, read-Ends, OnOk, and_then-Ends, save_journal-Ends,
}
use arbitrum_reth.Recover.{
  World, Answers, and_then, with_phase, rebuild, durably_truncate_resume, verify_durable_frontier,
  write, after_open, rebuild_and_verify, recover_locked, resume_at_frontier, compare_frontier,
  unwind_and_reopen,
}

module _ (base : RecoveryJournal) (answers : Answers) (contract : Contract base answers) where
  pub rebuild-Stands :
      (tips : List ℕ) (w : World)
      → All (λ tip. (base.target ≤ tip) × (tip ≤ base.frontier)) tips
      → Stands base resume_truncated w
      → Stands base resume_truncated (rebuild tips w)
  unfolding rebuild
  rebuild-Stands [] w passes stands = stands
  rebuild-Stands (tip ∷ tips) w passes (named, fits, past) =
      let fits' : Fits base resume_truncated w.disk.resume tip = (passes.0.0, passes.0.1, fits.2) in
      rebuild-Stands tips (write (record w.disk { tip = tip }) w) passes.1
        (named, fits', ((resume_truncated, named, fits'), past))

  abbrev pub AtFrontier : Phase → World → Unit {0} → Type 0
  AtFrontier p w _ = Stands base p w × (w.disk.tip ≡ base.frontier)

  compare_frontier-Ends :
      (p : Phase) (header : HeaderObservation) (w : World)
      → Stands base p w
      → Ends base (AtFrontier p) (compare_frontier answers (with_phase base p) header w)
  unfolding compare_frontier
  compare_frontier-Ends p header w stands =
      let safe = Stands-IsCrashSafe base p w stands in
      elim (Bool-cases (w.disk.tip == base.frontier)) [
        | inr f ↦ rw f (safe, tt)
        | inl t ↦ rw t (
            read-Ends base (AtFrontier p) w (map_err authority answers.canonical_durable)
              (λ w canonical.
                if exact (record header { number = base.frontier }) canonical
                then (w, ok tt)
                else (w, err frontier_mismatch))
              safe
              (λ canonical observed.
                elim (Bool-cases (exact (record header { number = base.frontier }) canonical)) [
                  | inr f ↦ rw f (safe, tt)
                  | inl u ↦ rw u (safe, (stands, ground arith))
                ]))
      ]

  -- The check of the durable frontier reads only, and passes at the frontier's tip alone.
  pub verify_durable_frontier-Ends :
      (p : Phase) (w : World)
      → Stands base p w
      → Ends base (AtFrontier p) (verify_durable_frontier answers (with_phase base p) w)
  unfolding verify_durable_frontier
  verify_durable_frontier-Ends p w stands =
      let safe = Stands-IsCrashSafe base p w stands in
      guard-Ends base answers contract (AtFrontier p) answers.open_verify w
        (λ w opened.
          and_then (w, ok_or answers.local_header frontier_missing)
            (λ w header. compare_frontier answers (with_phase base p) header w))
        safe
        (read-Ends base (AtFrontier p) w (ok_or answers.local_header frontier_missing)
          (λ w header. compare_frontier answers (with_phase base p) header w) safe
          (λ header found. compare_frontier-Ends p header w stands))

  abbrev pub Matched : World → Unit {0} → Type 0
  Matched w _ = Stands base frontier_matched w

  resume_at_frontier-Ends :
      (p : Phase) (w : World)
      → Stands base p w
      → ((p ≡ resume_truncated) ⊎ (p ≡ frontier_matched))
      → Ends base Matched (resume_at_frontier answers (with_phase base p) w)
  unfolding resume_at_frontier
  resume_at_frontier-Ends resume_truncated w stands late =
      match_run-Ends base Matched (AtFrontier resume_truncated) _ _ _
        (verify_durable_frontier-Ends resume_truncated w stands)
        (λ w' a safe s. save_journal-Ends base answers frontier_matched w' safe s.1)
        (λ w' e safe. elim (Bool-cases (is_authority_error e)) [
          | inl t ↦ rw t (safe, tt)
          | inr f ↦
              rw f (persist_terminal_failure-Ends base answers Matched resume_truncated e w' safe)
        ])
  resume_at_frontier-Ends frontier_matched w stands late =
      match_run-Ends base Matched (AtFrontier frontier_matched) _ _ _
        (verify_durable_frontier-Ends frontier_matched w stands) (λ w' a safe s. (safe, s.0))
        (λ w' e safe. elim (Bool-cases (is_authority_error e)) [
          | inl t ↦ rw t (safe, tt)
          | inr f ↦ rw f (safe, tt)
        ])
  resume_at_frontier-Ends prepared w stands late = absurd (ground (arith, late))
  resume_at_frontier-Ends unwound w stands late = absurd (ground (arith, late))
  resume_at_frontier-Ends failed w stands late = absurd (ground (arith, late))

  rebuild_and_verify-Ends :
      (w : World)
      → Stands base resume_truncated w
      → Ends base Matched (rebuild_and_verify answers (with_phase base resume_truncated) w)
  unfolding rebuild_and_verify
  rebuild_and_verify-Ends w stands =
      let w₁ = rebuild answers.rebuild_tips w in
      let stands₁ = rebuild-Stands answers.rebuild_tips w contract.passes stands in
      let safe = Stands-IsCrashSafe base resume_truncated w₁ stands₁ in
      read-Ends base Matched w₁ answers.rebuilt _ safe (λ header built.
        read-Ends base Matched w₁ (map_err authority answers.canonical_after) _ safe
          (λ canonical seen. elim (Bool-cases (exact header canonical)) [
            | inr f ↦ rw f (
                persist_terminal_failure-Ends base answers Matched resume_truncated rebuilt_mismatch
                  w₁ safe)
            | inl t ↦ rw t (
                match_run-Ends base Matched (AtFrontier resume_truncated) _ _ _
                  (verify_durable_frontier-Ends resume_truncated w₁ stands₁)
                  (λ w' a safe' s. save_journal-Ends base answers frontier_matched w' safe' s.1)
                  (λ w' e safe'. elim (Bool-cases (is_authority_error e)) [
                    | inl u ↦ rw u (safe', tt)
                    | inr g ↦ rw g (
                        persist_terminal_failure-Ends base answers Matched resume_truncated e w'
                          safe')
                  ]))
          ]))

  after_open-Ends :
      (p : Phase) (log : L1ResumeLog) (opened : Option RecoveryJournal) (w : World)
      → IsCrashSafe base w
      → Opened base answers contract p w opened
      → Ends base Matched (after_open answers log (with_phase base p) opened w)
  unfolding after_open
  after_open-Ends p log none w safe (stands, at, late) = resume_at_frontier-Ends p w stands late
  after_open-Ends p log (some j) w safe (q, same, stands, at, late) =
      subst (λ k. Ends base Matched (after_open answers log (with_phase base p) (some k) w))
        (sym same)
        (and_then-Ends base Matched (Truncated base answers contract)
          (durably_truncate_resume answers log (with_phase base q) w)
          (λ w' j'. rebuild_and_verify answers j' w')
          (durably_truncate_resume-Ends base answers contract q log w stands at late)
          (λ w' j' safe' t.
            subst (λ k. Ends base Matched (rebuild_and_verify answers k w')) (sym t.0)
              (rebuild_and_verify-Ends w' t.1)))

  pub recover_locked-Ends :
      (p : Phase) (log : L1ResumeLog) (w : World)
      → Stands base p w
      → Ends base Matched (recover_locked answers log (with_phase base p) w)
  unfolding recover_locked
  recover_locked-Ends p log w stands =
      and_then-Ends base Matched (Opened base answers contract p)
        (unwind_and_reopen answers (with_phase base p) w)
        (λ w opened. after_open answers log (with_phase base p) opened w)
        (unwind_and_reopen-Ends base answers contract p w stands)
        (λ w' opened safe o. after_open-Ends p log opened w' safe o)

  -- Whatever the world answers within the contract (the database removes what is above the target,
  -- the finite sync's tips lie between the target and the frontier), in a run from a sound state:
  -- each state that the disk goes through, hence each that a crash or an error leaves, has the
  -- journal of this recovery with a phase that fits the tip and the resume log, or is marked
  -- failed; and a run that succeeds ends with the journal at `frontier_matched` and the tip at the
  -- frontier.
  pub recover_locked-IsCrashSafe :
      (p : Phase) (log : L1ResumeLog) (w : World)
      → Stands base p w
      → IsCrashSafe base (recover_locked answers log (with_phase base p) w).0
        × ((recover_locked answers log (with_phase base p) w).1 ≡ ok tt
            → Stands base frontier_matched (recover_locked answers log (with_phase base p) w).0)
  recover_locked-IsCrashSafe p log w stands =
      let ends = recover_locked-Ends p log w stands in
      (
        ends.0,
        λ fine.
            subst (λ r. OnOk (Matched (recover_locked answers log (with_phase base p) w).0) r) fine
              ends.1,
      )
