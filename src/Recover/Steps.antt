-- ===== src/Recover/Steps.antt =====
-- crates/arb-reth-node/src/commands/recover.rs: which durable states a later run can go on from, and
-- how a chain of operations keeps to them.
use arbitrum_reth.Recover.Journal.{
  Fault, Phase, RecoveryJournal, failed, frontier_matched, legal_phase_transition, prepared,
  resume_truncated, same_immutable_identity, truncated_resume_from, unwound,
}
use arbitrum_reth.Prelude.{
  ℕ, ◌≤◌, ◌≡◌, refl, inl, inr, Option, none, some, Bool-cases, All, Result, ok, err, stuck,
}
use arbitrum_reth.Sync.Resume.{L1ResumeLog}
use arbitrum_reth.Sync.Replacement.{Replacement, kept, replaced, unsynced}
use arbitrum_reth.Recover.{
  report_cause, Disk, World, Run, Answers, and_then, match_run, with_phase,
  persist_terminal_failure, replace, save_journal, strict_journal, publish,
}

abbrev pub OnOk : {A : Type 0} → (A → Type 0) → Result Fault A → Type 0
OnOk Q (ok a) = Q a
OnOk Q (err e) = Unit
OnOk Q stuck = Unit

module _ (base : RecoveryJournal) where
  -- What a phase of the journal says of the resume log and of the tip.
  abbrev pub Fits : Phase → L1ResumeLog → ℕ → Type 0
  Fits prepared resume tip =
      (base.target ≤ tip)
      × (truncated_resume_from resume base.checkpoint ≡ ok base.truncated_resume)
  Fits unwound resume tip =
      (tip ≡ base.target)
      × (truncated_resume_from resume base.checkpoint ≡ ok base.truncated_resume)
  Fits resume_truncated resume tip =
      (base.target ≤ tip) × (tip ≤ base.frontier) × (resume ≡ base.truncated_resume)
  Fits frontier_matched resume tip = tip ≡ base.frontier
  Fits failed resume tip = Unit

  -- The journal is that of this recovery, and the other files are as its phase says.
  abbrev pub IsSound : Disk → Type 0
  IsSound d = (p : Phase) × (d.journal ≡ some (with_phase base p)) × Fits p d.resume d.tip

  -- So is every state that a crash could have left.
  abbrev pub IsCrashSafe : World → Type 0
  IsCrashSafe w = IsSound w.disk × All IsSound w.past

  abbrev pub Stands : Phase → World → Type 0
  Stands p w =
      (w.disk.journal ≡ some (with_phase base p))
      × Fits p w.disk.resume w.disk.tip
      × All IsSound w.past

  pub Stands-IsCrashSafe : (p : Phase) (w : World) → Stands p w → IsCrashSafe w
  Stands-IsCrashSafe p w (named, fits, past) = ((p, named, fits), past)

  -- A run that is safe at each crash, and whose result is as `Q` says if it has one.
  abbrev pub Ends : {A : Type 0} → (World → A → Type 0) → Run A → Type 0
  Ends Q run = IsCrashSafe run.0 × OnOk (Q run.0) run.1

module _ (base : RecoveryJournal) {A B : Type 0} (R : World → B → Type 0) where
  pub and_then-Ends :
      (Q : World → A → Type 0) (run : Run A) (next : World → A → Run B)
      → Ends base Q run
      → ((w : World) (a : A) → IsCrashSafe base w → Q w a → Ends base R (next w a))
      → Ends base R (and_then run next)
  and_then-Ends Q (w, ok a) next (safe, q) more = more w a safe q
  and_then-Ends Q (w, err e) next (safe, q) more = (safe, tt)
  and_then-Ends Q (w, stuck) next (safe, q) more = (safe, tt)

  -- The first step reads only.
  pub read-Ends :
      (w : World) (result : Result Fault A) (next : World → A → Run B)
      → IsCrashSafe base w
      → ((a : A) → result ≡ ok a → Ends base R (next w a))
      → Ends base R (and_then (w, result) next)
  read-Ends w (ok a) next safe more = more a refl
  read-Ends w (err e) next safe more = (safe, tt)
  read-Ends w stuck next safe more = (safe, tt)

  pub match_run-Ends :
      (Q : World → A → Type 0) (run : Run A) (next : World → A → Run B)
      (recover : World → Fault → Run B)
      → Ends base Q run
      → ((w : World) (a : A) → IsCrashSafe base w → Q w a → Ends base R (next w a))
      → ((w : World) (e : Fault) → IsCrashSafe base w → Ends base R (recover w e))
      → Ends base R (match_run run next recover)
  match_run-Ends Q (w, ok a) next recover (safe, q) more other = more w a safe q
  match_run-Ends Q (w, err e) next recover (safe, q) more other = other w e safe
  match_run-Ends Q (w, stuck) next recover (safe, q) more other = (safe, tt)

module _ (base : RecoveryJournal) (answers : Answers) where
  -- A phase is saved where the other files fit it.
  pub save_journal-Ends :
      (q : Phase) (w : World)
      → IsCrashSafe base w
      → Fits base q w.disk.resume w.disk.tip
      → Ends base (λ w' _. Stands base q w') (save_journal answers (with_phase base q) w)
  unfolding save_journal publish
  save_journal-Ends q w safe fits =
      read-Ends base (λ w' _. Stands base q w') w (strict_journal w.disk.journal)
        (λ w current. publish answers (with_phase base q) current w) safe
        (λ current _. published current)
    where
      swap :
          (how : Replacement)
          → Ends base
              (λ w' _. Stands base q w')
              (replace how (record w.disk { journal = some (with_phase base q) }) w)
      swap replaced =
          (((q, refl, fits), ((q, refl, fits), safe.1)), (refl, fits, ((q, refl, fits), safe.1)))
      swap kept = (safe, tt)
      swap unsynced = (((q, refl, fits), ((q, refl, fits), safe.1)), tt)

      published :
          (current : Option RecoveryJournal)
          → Ends base (λ w' _. Stands base q w') (publish answers (with_phase base q) current w)
      published none = (safe, tt)
      published (some current) =
          elim (Bool-cases (same_immutable_identity current (with_phase base q))) [
            | inr f ↦ rw (publish, f) (safe, tt)
            | inl t ↦ elim (Bool-cases (legal_phase_transition current.phase q)) [
              | inr f ↦ rw (publish, t, f) (safe, tt)
              | inl u ↦ rw (publish, t, u) (swap (answers.save_phase q))
            ]
          ]

  pub persist_terminal_failure-Ends :
      {A : Type 0} (R : World → A → Type 0) (p : Phase) (cause : Fault) (w : World)
      → IsCrashSafe base w
      → Ends base R (persist_terminal_failure answers (with_phase base p) cause w)
  unfolding persist_terminal_failure
  persist_terminal_failure-Ends R p cause w safe =
      recorded (save_journal answers (with_phase base failed) w)
        (save_journal-Ends failed w safe tt)
    where
      recorded :
          (run : Run (Unit {0}))
          → Ends base (λ w' _. Stands base failed w') run
          → Ends base R (report_cause cause run)
      recorded (w', ok a) (safe', _) = (safe', tt)
      recorded (w', err e) (safe', _) = (safe', tt)
      recorded (w', stuck) (safe', _) = (safe', tt)
