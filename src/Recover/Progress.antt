-- ===== src/Recover/Progress.antt =====
-- crates/arb-reth-node/src/commands/recover.rs: the first half of a run to which the world answers
-- well succeeds.
use arbitrum_reth.Recover.Unwind.{Contract}
use arbitrum_reth.Recover.Succeeds.{
  Cooperates, Succeeds, and_then-Succeeds, guard-Succeeds, same_immutable_identity-phases,
  exact_refl,
}
use arbitrum_reth.Recover.Journal.{
  DurableTipAction, HeaderObservation, Phase, RecoveryJournal, at_target, durable_tip_action,
  failed, frontier_matched, legal_phase_transition, prepared, resume_truncated, unwind_missed,
  unwind_to_target, unwound, verify_frontier, frontier_missing,
}
use arbitrum_reth.Prelude.{
  ◌≤◌, ◌≡◌, refl, sym, ap, ◌∙◌, subst, ◌≢◌, inl, inr, true, not, none, some, arith, ltb, leb, ◌==◌,
  if◌then◌else◌, le→leb, Bool-cases, ok_or, ok,
}
use arbitrum_reth.Recover.Steps.{Fits, Stands}
use arbitrum_reth.Recover.{
  World, Answers, and_then, with_phase, mark_unwound, persist_terminal_failure, reopen,
  save_journal, strict_journal, unwind_blocks, write, compare_frontier, take_action,
  unwind_and_reopen, verify_durable_frontier,
}

module _ (base : RecoveryJournal) (answers : Answers) (header : HeaderObservation)
    (contract : Contract base answers) (good : Cooperates base answers header)
    (schema : base.schema_version ≡ 2) where
  pub save_journal-Succeeds :
      (p q : Phase) (w : World)
      → w.disk.journal ≡ some (with_phase base p)
      → legal_phase_transition p q ≡ true
      → Succeeds (save_journal answers (with_phase base q) w)
  unfolding save_journal strict_journal
  save_journal-Succeeds p q w named legal =
      let current : (base.schema_version == 2) ≡ true = ground (arith, schema) in
      (
        write (record w.disk { journal = some (with_phase base q) }) w,
        tt,
        rw
            (
              save_journal,
              named,
              strict_journal,
              current,
              same_immutable_identity-phases base p q,
              legal,
              good.saves q,
            )
            refl,
      )

  mark_unwound-Succeeds :
      (p : Phase) (w : World)
      → Stands base p w
      → Succeeds (mark_unwound answers (with_phase base p) w)
  unfolding mark_unwound
  mark_unwound-Succeeds prepared w stands =
      and_then-Succeeds (save_journal answers (with_phase base unwound) w)
        (λ w saved. (w, ok (some (with_phase base unwound))))
        (save_journal-Succeeds prepared unwound w stands.0 refl) (λ w' a h. (w', _, refl))
  mark_unwound-Succeeds unwound w stands = (w, _, refl)
  mark_unwound-Succeeds resume_truncated w stands = (w, _, refl)
  mark_unwound-Succeeds frontier_matched w stands = (w, _, refl)
  mark_unwound-Succeeds failed w stands = (w, _, refl)

  reopen-Succeeds :
      (p : Phase) (w : World)
      → Stands base p w
      → w.disk.tip ≡ base.target
      → Succeeds (reopen answers (with_phase base p) w)
  unfolding reopen
  reopen-Succeeds p w stands at =
      let same : (w.disk.tip == base.target) ≡ true = ground (arith, at) in
      guard-Succeeds answers.open_again w
        (λ w opened.
          if not (w.disk.tip == base.target)
          then persist_terminal_failure answers (with_phase base p) (unwind_missed w.disk.tip) w
          else mark_unwound answers (with_phase base p) w)
        good.opens_again (rw same (mark_unwound-Succeeds p w stands))

  -- The database unwinds to the target.
  unwind_blocks-Succeeds :
      (p : Phase) (w : World)
      → base.target ≤ w.disk.tip
      → unwind_blocks answers (with_phase base p) w
        ≡ (write (record w.disk { tip = base.target }) w, ok tt)
  unfolding unwind_blocks
  unwind_blocks-Succeeds p w above =
      rw (unwind_blocks, good.unwinds, contract.removes w.disk.tip above) refl

  durable_tip_action-Succeeds :
      (p : Phase) (w : World)
      → Stands base p w
      → p ≢ failed
      → (action : DurableTipAction) × (durable_tip_action (with_phase base p) w.disk.tip
          ≡ ok action)
        × (action ≡ at_target → w.disk.tip ≡ base.target)
        × (action ≡ unwind_to_target
            → (base.target ≤ w.disk.tip) × Fits base p w.disk.resume base.target)
  unfolding durable_tip_action
  durable_tip_action-Succeeds prepared w stands live =
      let low : leb base.target w.disk.tip ≡ true = le→leb _ _ stands.1.0 in
      elim (Bool-cases (ltb base.target w.disk.tip)) [
        | inl t ↦ (
          unwind_to_target,
          rw (low, t) refl,
          (λ h. absurd (ground (arith, h))),
          λ h. (stands.1.0, (omega arith, stands.1.1)),
        )
        | inr f ↦ (
          at_target,
          rw (low, f) refl,
          (λ h. ground (arith, stands.1.0)),
          λ h. absurd (ground (arith, h)),
        )
      ]
  durable_tip_action-Succeeds unwound w stands live =
      (at_target, ground (arith, stands.1.0), (λ h. stands.1.0), λ h. absurd (ground (arith, h)))
  durable_tip_action-Succeeds resume_truncated w stands live =
      let low = stands.1.0 in
      let high = stands.1.1 in
      elim (Bool-cases (w.disk.tip == base.target)) [
        | inl t ↦ (at_target, rw t refl, (λ h. ground arith), λ h. absurd (ground (arith, h)))
        | inr f ↦
            let above : ltb base.target w.disk.tip ≡ true = ground (arith, low) in
            elim (Bool-cases (ltb w.disk.tip base.frontier)) [
              | inl t ↦ (
                unwind_to_target,
                rw (f, above, t) refl,
                (λ h. absurd (ground (arith, h))),
                λ h. (low, (omega arith, contract.bounded, stands.1.2)),
              )
              | inr g ↦
                  let at : (w.disk.tip == base.frontier) ≡ true = ground (arith, high) in
                  (
                    verify_frontier,
                    rw (f, above, g, at) refl,
                    (λ h. absurd (ground (arith, h))),
                    λ h. absurd (ground (arith, h)),
                  )
            ]
      ]
  durable_tip_action-Succeeds frontier_matched w stands live =
      let at : w.disk.tip ≡ base.frontier = stands.1 in
      (
        verify_frontier,
        ground (arith, at),
        (λ h. absurd (ground (arith, h))),
        λ h. absurd (ground (arith, h)),
      )
  durable_tip_action-Succeeds failed w stands live = absurd (live refl)

  take_action-Succeeds :
      (p : Phase) (action : DurableTipAction) (w : World)
      → Stands base p w
      → (action ≡ at_target → w.disk.tip ≡ base.target)
      → (action ≡ unwind_to_target
          → (base.target ≤ w.disk.tip) × Fits base p w.disk.resume base.target)
      → Succeeds (take_action answers (with_phase base p) action w)
  unfolding take_action
  take_action-Succeeds p verify_frontier w stands at above = (w, none, refl)
  take_action-Succeeds p at_target w stands at above = reopen-Succeeds p w stands (at refl)
  take_action-Succeeds p unwind_to_target w (named, fits, past) at above =
      let (low, fits') = above refl in
      let w' = write (record w.disk { tip = base.target }) w in
      let stands' : Stands base p w' = (named, fits', ((p, named, fits'), past)) in
      and_then-Succeeds (unwind_blocks answers (with_phase base p) w)
        (λ w unwound. reopen answers (with_phase base p) w) (w', tt, unwind_blocks-Succeeds p w low)
        (λ w₂ a h.
          let same : w' ≡ w₂ = ap (λ r. r.0) (sym (unwind_blocks-Succeeds p w low) ∙ h) in
          subst (λ v. Succeeds (reopen answers (with_phase base p) v)) same
            (reopen-Succeeds p w' stands' refl))

  pub unwind_and_reopen-Succeeds :
      (p : Phase) (w : World)
      → Stands base p w
      → p ≢ failed
      → Succeeds (unwind_and_reopen answers (with_phase base p) w)
  unfolding unwind_and_reopen
  unwind_and_reopen-Succeeds p w stands live =
      let (action, acts, at, above) = durable_tip_action-Succeeds p w stands live in
      guard-Succeeds answers.open_first w
        (λ w opened.
          and_then (w, durable_tip_action (with_phase base p) w.disk.tip)
            (λ w action. take_action answers (with_phase base p) action w))
        good.opens_first (rw acts (take_action-Succeeds p action w stands at above))

  compare_frontier-Succeeds :
      (p : Phase) (w : World)
      → w.disk.tip ≡ base.frontier
      → Succeeds (compare_frontier answers (with_phase base p) header w)
  unfolding compare_frontier
  compare_frontier-Succeeds p w at =
      let same : (w.disk.tip == base.frontier) ≡ true = ground (arith, at) in
      (
        w,
        tt,
        rw (compare_frontier, same, good.sees_durable, sym good.at_frontier, exact_refl header)
            refl,
      )

  pub verify_durable_frontier-Succeeds :
      (p : Phase) (w : World)
      → w.disk.tip ≡ base.frontier
      → Succeeds (verify_durable_frontier answers (with_phase base p) w)
  unfolding verify_durable_frontier
  verify_durable_frontier-Succeeds p w at =
      guard-Succeeds answers.open_verify w
        (λ w opened.
          and_then (w, ok_or answers.local_header frontier_missing)
            (λ w header'. compare_frontier answers (with_phase base p) header' w))
        good.opens_verify (rw good.finds (compare_frontier-Succeeds p w at))
