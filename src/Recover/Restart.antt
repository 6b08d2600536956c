-- ===== src/Recover/Restart.antt =====
-- crates/arb-reth-node/src/commands/recover.rs: a run that is cut off anywhere, and the run after it.
use arbitrum_reth.Recover.Steps.{Fits}
use arbitrum_reth.Recover.Complete.{recover_locked-completes}
use arbitrum_reth.Recover.Unwind.{Contract}
use arbitrum_reth.Recover.Succeeds.{Cooperates}
use arbitrum_reth.Recover.Crash.{recover_locked-IsCrashSafe}
use arbitrum_reth.Recover.Journal.{
  HeaderObservation, Phase, RecoveryJournal, failed, frontier_matched, prepared, resume_truncated,
  truncated_resume_from, unwound,
}
use arbitrum_reth.Prelude.{◌≡◌, refl, ◌≢◌, ◌⊎◌, inl, inr, some, List, [], ◌∷◌, arith, All, ok}
use arbitrum_reth.Sync.Resume.{L1ResumeLog}
use arbitrum_reth.Recover.Steps.{IsSound, Stands}
use arbitrum_reth.Recover.{Disk, World, Answers, with_phase, recover_locked}

module _ (base : RecoveryJournal) (cut retry : Answers) (header : HeaderObservation)
    (within : Contract base cut) (contract : Contract base retry)
    (good : Cooperates base retry header) (schema : base.schema_version ≡ 2)
    (whole : truncated_resume_from base.truncated_resume base.checkpoint
      ≡ ok base.truncated_resume) where
  -- The journal is marked failed, or a new run from this disk completes the recovery.
  abbrev pub Restarts : Disk → Type 0
  Restarts d =
      (q : Phase) × (d.journal ≡ some (with_phase base q))
      × ((q ≡ failed)
          ⊎ (let end =
                recover_locked retry d.resume (with_phase base q)
                  (record { disk = d; past = [] }) in
              (end.1 ≡ ok tt)
              × (end.0.disk.journal ≡ some (with_phase base frontier_matched))
              × (end.0.disk.tip ≡ base.frontier)))

  completes_from :
      (d : Disk) (q : Phase)
      → d.journal ≡ some (with_phase base q)
      → Fits base q d.resume d.tip
      → q ≢ failed
      → let end =
          recover_locked retry d.resume (with_phase base q) (record { disk = d; past = [] }) in
        (end.1 ≡ ok tt)
        × (end.0.disk.journal ≡ some (with_phase base frontier_matched))
        × (end.0.disk.tip ≡ base.frontier)
  completes_from d q named fits live =
      let (fine, stands) =
        recover_locked-completes base retry header contract good schema q
          (record { disk = d; past = [] }) (named, fits, tt) live whole in
      (fine, stands.0, stands.1)

  IsSound-Restarts : (d : Disk) → IsSound base d → Restarts d
  IsSound-Restarts d (prepared, named, fits) = (
    prepared,
    named,
    inr (completes_from d prepared named fits (λ h. absurd (ground (arith, h)))),
  )
  IsSound-Restarts d (unwound, named, fits) =
      (unwound, named, inr (completes_from d unwound named fits (λ h. absurd (ground (arith, h)))))
  IsSound-Restarts d (resume_truncated, named, fits) = (
    resume_truncated,
    named,
    inr (completes_from d resume_truncated named fits (λ h. absurd (ground (arith, h)))),
  )
  IsSound-Restarts d (frontier_matched, named, fits) = (
    frontier_matched,
    named,
    inr (completes_from d frontier_matched named fits (λ h. absurd (ground (arith, h)))),
  )
  IsSound-Restarts d (failed, named, fits) = (failed, named, inl refl)

  Restarts-All : (ds : List Disk) → All (IsSound base) ds → All Restarts ds
  Restarts-All [] sound = tt
  Restarts-All (d ∷ ds) sound = (IsSound-Restarts d sound.0, Restarts-All ds sound.1)

  -- A run from a sound state, whatever the world answers within the contract, and cut off after any
  -- of its writes: the disk that is left has the journal of this recovery, and either it is marked
  -- failed, or a second run to which the world answers well succeeds, with the journal at
  -- `frontier_matched` and the tip at the frontier.
  pub recover_locked-Restarts :
      (p : Phase) (log : L1ResumeLog) (w : World)
      → Stands base p w
      → All Restarts (recover_locked cut log (with_phase base p) w).0.past
  recover_locked-Restarts p log w stands =
      Restarts-All _ (recover_locked-IsCrashSafe base cut within p log w stands).0.1
