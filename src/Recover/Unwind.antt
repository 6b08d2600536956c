-- ===== src/Recover/Unwind.antt =====
-- crates/arb-reth-node/src/commands/recover.rs: the first half of a run, up to the reopened
-- database, keeps to the states that a later run can go on from.
use arbitrum_reth.Recover.Steps.{
  Fits, Ends, IsCrashSafe, Stands, Stands-IsCrashSafe, and_then-Ends, persist_terminal_failure-Ends,
  save_journal-Ends, read-Ends,
}
use arbitrum_reth.Recover.Journal.{
  Fault, Phase, RecoveryJournal, failed, frontier_matched, prepared, resume_truncated,
  same_checkpoints, truncated_resume_from, unwind_missed, unwound, DurableTipAction, at_target,
  retains, unwind_to_target, verify_frontier, durable_tip_action,
}
use mathlib.Core.Path.{ap₂}
use arbitrum_reth.Prelude.{
  ℕ, ◌≤◌, ◌≡◌, refl, sym, ap, ◌∙◌, subst, ◌⊎◌, inl, inr, true, Option, none, some, List, [], ◌∷◌,
  arith, leb, ◌==◌, Bool-cases, All, ok,
}
use arbitrum_reth.Sync.Resume.{
  L1ResumeLog, retain_below, last_checkpoint, L1ResumeCheckpoint, truncate_to,
}
use arbitrum_reth.Recover.{
  take_action, unwind_and_reopen, mark_unwound, unwind_blocks, World, Run, Answers, and_then,
  with_phase, guard, reopen, write, persist_terminal_failure,
}

-- What the answers may be: the database removes what is above the target, and the finite sync builds
-- on it up to the frontier.
pub record Contract (base : RecoveryJournal) (answers : Answers) : Type 0 where
  pub bounded : base.target ≤ base.frontier
  pub removes : (tip : ℕ) → base.target ≤ tip → answers.remove_above tip base.target ≡ base.target
  pub passes : All (λ tip. (base.target ≤ tip) × (tip ≤ base.frontier)) answers.rebuild_tips

same_fields :
    (x y : L1ResumeCheckpoint)
    → x.l1_block ≡ y.l1_block
    → x.delayed_count ≡ y.delayed_count
    → x.l2_block ≡ y.l2_block
    → x ≡ y
same_fields x y l1 count l2 =
    ap₂ (λ a b. record { l1_block = a; delayed_count = b; l2_block = x.l2_block }) l1 count
    ∙ ap (λ c. record { l1_block = y.l1_block; delayed_count = y.delayed_count; l2_block = c }) l2

pub same_checkpoints-≡ : (a b : List L1ResumeCheckpoint) → same_checkpoints a b ≡ true → a ≡ b
unfolding same_checkpoints
same_checkpoints-≡ [] [] h = refl
same_checkpoints-≡ [] (y ∷ b) h = absurd (ground arith)
same_checkpoints-≡ (x ∷ a) [] h = absurd (ground arith)
same_checkpoints-≡ (x ∷ a) (y ∷ b) h =
    let l1 : x.l1_block ≡ y.l1_block = ground arith in
    let count : x.delayed_count ≡ y.delayed_count = ground arith in
    let l2 : x.l2_block ≡ y.l2_block = ground arith in
    let rest : same_checkpoints a b ≡ true = ground arith in
    ap₂ (λ cp cps. cp ∷ cps) (same_fields x y l1 count l2) (same_checkpoints-≡ a b rest)

retain_below-twice :
    (floor : ℕ) (cps : List L1ResumeCheckpoint)
    → retain_below floor (retain_below floor cps) ≡ retain_below floor cps
unfolding retain_below
retain_below-twice floor [] = refl
retain_below-twice floor (cp ∷ cps) = elim (Bool-cases (leb cp.l2_block floor)) [
  | inl t ↦ rw (t, retain_below, t) (ap (λ xs. cp ∷ xs) (retain_below-twice floor cps))
  | inr f ↦ rw f (retain_below-twice floor cps)
]

-- The retained prefix is its own retained prefix.
pub truncated_resume_from-twice :
    (log prefix : L1ResumeLog) (checkpoint : L1ResumeCheckpoint)
    → truncated_resume_from log checkpoint ≡ ok prefix
    → truncated_resume_from prefix checkpoint ≡ ok prefix
unfolding truncated_resume_from truncate_to
truncated_resume_from-twice log prefix checkpoint h =
    let truncated = retain_below checkpoint.l2_block log.checkpoints in
    elim (Bool-cases (retains (last_checkpoint truncated) checkpoint)) [
      | inl t ↦
          let same : record { checkpoints = truncated } ≡ prefix =
            ap (λ r. elim r [ ok a ↦ a | _ ↦ prefix ]) (rw t at h) in
          subst (λ l. truncated_resume_from l checkpoint ≡ ok l) same
            (rw (retain_below-twice checkpoint.l2_block log.checkpoints, t) refl)
      | inr f ↦ absurd (ground (arith, rw f at h))
    ]

module _ (base : RecoveryJournal) (answers : Answers) (contract : Contract base answers) where
  pub guard-Ends :
      {A : Type 0} (R : World → A → Type 0) (fault : Option Fault) (w : World)
      (next : World → Unit {0} → Run A)
      → IsCrashSafe base w
      → Ends base R (next w tt)
      → Ends base R (and_then (guard fault w) next)
  guard-Ends R none w next safe more = more
  guard-Ends R (some e) w next safe more = (safe, tt)

  -- Where the unwind leads: to a journal past `prepared` with the tip at the target, or to a
  -- frontier that is to be verified.
  abbrev pub Opened : Phase → World → Option RecoveryJournal → Type 0
  Opened p w none =
      Stands base p w
      × (w.disk.tip ≡ base.frontier)
      × ((p ≡ resume_truncated) ⊎ (p ≡ frontier_matched))
  Opened p w (some j) =
      (q : Phase) × (j ≡ with_phase base q)
      × Stands base q w
      × (w.disk.tip ≡ base.target)
      × ((q ≡ unwound) ⊎ (q ≡ resume_truncated))

  mark_unwound-Ends :
      (p : Phase) (w : World)
      → Stands base p w
      → ((p ≡ prepared) ⊎ ((p ≡ unwound) ⊎ (p ≡ resume_truncated)))
      → w.disk.tip ≡ base.target
      → Ends base (Opened p) (mark_unwound answers (with_phase base p) w)
  unfolding mark_unwound
  mark_unwound-Ends prepared w stands _ at =
      and_then-Ends base (Opened prepared) (λ w' _. Stands base unwound w') _ _
        (save_journal-Ends base answers unwound w (Stands-IsCrashSafe base prepared w stands)
          (at, stands.1.1))
        (λ w' a safe s. (safe, (unwound, refl, s, s.1.0, inl refl)))
  mark_unwound-Ends unwound w stands _ at =
      (Stands-IsCrashSafe base unwound w stands, (unwound, refl, stands, at, inl refl))
  mark_unwound-Ends resume_truncated w stands _ at = (
    Stands-IsCrashSafe base resume_truncated w stands,
    (resume_truncated, refl, stands, at, inr refl),
  )
  mark_unwound-Ends frontier_matched w stands early at = absurd (ground (arith, early))
  mark_unwound-Ends failed w stands early at = absurd (ground (arith, early))

  reopen-Ends :
      (p : Phase) (w : World)
      → Stands base p w
      → ((p ≡ prepared) ⊎ ((p ≡ unwound) ⊎ (p ≡ resume_truncated)))
      → Ends base (Opened p) (reopen answers (with_phase base p) w)
  unfolding reopen
  reopen-Ends p w stands early =
      guard-Ends (Opened p) answers.open_again w _ (Stands-IsCrashSafe base p w stands)
        (elim (Bool-cases (w.disk.tip == base.target)) [
          | inr f ↦ rw f (
              persist_terminal_failure-Ends base answers (Opened p) p (unwind_missed w.disk.tip) w
                (Stands-IsCrashSafe base p w stands))
          | inl t ↦ rw t (mark_unwound-Ends p w stands early (ground arith))
        ])

  unwind_blocks-Ends :
      (p : Phase) (w : World)
      → Stands base p w
      → base.target ≤ w.disk.tip
      → Fits base p w.disk.resume base.target
      → Ends base (λ w' _. Stands base p w') (unwind_blocks answers (with_phase base p) w)
  unfolding unwind_blocks
  unwind_blocks-Ends p w (named, fits, past) above fits' = by_answer answers.unwind
    where
      at_target' : Stands base p (write (record w.disk { tip = base.target }) w)
      at_target' = (named, fits', ((p, named, fits'), past))

      by_answer :
          (fault : Option Fault)
          → Ends base
              (λ w' _. Stands base p w')
              (elim fault [
                | some e ↦ persist_terminal_failure answers (with_phase base p) e w
                | none ↦ (
                  write (record w.disk { tip = answers.remove_above w.disk.tip base.target }) w,
                  ok tt,
                )
              ])
      by_answer (some e) =
          persist_terminal_failure-Ends base answers (λ w' _. Stands base p w') p e w
            ((p, named, fits), past)
      by_answer none =
          let stands =
            subst (λ tip. Stands base p (write (record w.disk { tip = tip }) w))
              (sym (contract.removes w.disk.tip above)) at_target' in
          (
            Stands-IsCrashSafe base p
                (write (record w.disk { tip = answers.remove_above w.disk.tip base.target }) w)
                stands,
            stands,
          )

  unwind-Ends :
      (p : Phase) (w : World)
      → Stands base p w
      → ((p ≡ prepared) ⊎ ((p ≡ unwound) ⊎ (p ≡ resume_truncated)))
      → base.target ≤ w.disk.tip
      → Fits base p w.disk.resume base.target
      → Ends base (Opened p) (take_action answers (with_phase base p) unwind_to_target w)
  unfolding take_action
  unwind-Ends p w stands early above fits =
      and_then-Ends base (Opened p) (λ w' _. Stands base p w') _ _
        (unwind_blocks-Ends p w stands above fits) (λ w' a safe s. reopen-Ends p w' s early)

  take_action-Ends :
      (p : Phase) (action : DurableTipAction) (w : World)
      → Stands base p w
      → durable_tip_action (with_phase base p) w.disk.tip ≡ ok action
      → Ends base (Opened p) (take_action answers (with_phase base p) action w)
  unfolding take_action durable_tip_action
  take_action-Ends prepared verify_frontier w stands acted = absurd (ground arith)
  take_action-Ends prepared at_target w stands acted = reopen-Ends prepared w stands (inl refl)
  take_action-Ends prepared unwind_to_target w stands acted =
      unwind-Ends prepared w stands (inl refl) stands.1.0 (omega arith, stands.1.1)
  take_action-Ends unwound verify_frontier w stands acted = absurd (ground arith)
  take_action-Ends unwound at_target w stands acted = reopen-Ends unwound w stands (inr (inl refl))
  take_action-Ends unwound unwind_to_target w stands acted = absurd (ground arith)
  take_action-Ends resume_truncated verify_frontier w stands acted =
      (Stands-IsCrashSafe base resume_truncated w stands, (stands, ground arith, inl refl))
  take_action-Ends resume_truncated at_target w stands acted =
      reopen-Ends resume_truncated w stands (inr (inr refl))
  take_action-Ends resume_truncated unwind_to_target w stands acted =
      unwind-Ends resume_truncated w stands (inr (inr refl)) stands.1.0
        (omega arith, contract.bounded, stands.1.2)
  take_action-Ends frontier_matched verify_frontier w stands acted =
      (Stands-IsCrashSafe base frontier_matched w stands, (stands, stands.1, inr refl))
  take_action-Ends frontier_matched at_target w stands acted = absurd (ground arith)
  take_action-Ends frontier_matched unwind_to_target w stands acted = absurd (ground arith)
  take_action-Ends failed action w stands acted = absurd (ground arith)

  pub unwind_and_reopen-Ends :
      (p : Phase) (w : World)
      → Stands base p w
      → Ends base (Opened p) (unwind_and_reopen answers (with_phase base p) w)
  unfolding unwind_and_reopen
  unwind_and_reopen-Ends p w stands =
      let safe = Stands-IsCrashSafe base p w stands in
      guard-Ends (Opened p) answers.open_first w _ safe (
        read-Ends base (Opened p) w _ _ safe
          (λ action acted. take_action-Ends p action w stands acted))
