-- ===== src/Recover/Succeeds.antt =====
-- crates/arb-reth-node/src/commands/recover.rs: a run to which the world answers well, and how a
-- chain of operations succeeds.
use arbitrum_reth.Recover.Journal.{
  Fault, HeaderObservation, Phase, RecoveryJournal, exact, same_checkpoints,
  same_immutable_identity,
}
use arbitrum_reth.Prelude.{
  ◌≡◌, refl, ap, ◌∙◌, subst, true, Option, none, some, List, [], ◌∷◌, arith, ==_refl, ok,
}
use arbitrum_reth.Sync.Resume.{L1ResumeCheckpoint}
use arbitrum_reth.Recover.Steps.{Ends}
use arbitrum_reth.Sync.Replacement.{replaced}
use arbitrum_reth.Recover.{World, Run, Answers, and_then, match_run, with_phase, guard, rebuild}

-- The world answers well: nothing fails, the finite sync gets to the frontier, and the header that it
-- built is the canonical one.
pub record Cooperates (base : RecoveryJournal) (answers : Answers) (header : HeaderObservation)
    : Type 0 where
  pub opens_first : answers.open_first ≡ none
  pub unwinds : answers.unwind ≡ none
  pub opens_again : answers.open_again ≡ none
  pub saves : (p : Phase) → answers.save_phase p ≡ replaced
  pub saves_resume : answers.save_resume ≡ replaced
  pub loads : answers.load_resume ≡ none
  pub reaches : (w : World) → (rebuild answers.rebuild_tips w).disk.tip ≡ base.frontier
  pub rebuilds : answers.rebuilt ≡ ok header
  pub sees : answers.canonical_after ≡ ok header
  pub opens_verify : answers.open_verify ≡ none
  pub finds : answers.local_header ≡ some header
  pub sees_durable : answers.canonical_durable ≡ ok header
  pub at_frontier : header.number ≡ base.frontier

-- A run that succeeds.
abbrev pub Succeeds : {A : Type 0} → Run A → Type 0
Succeeds {A = A} run = (w : World) × (a : A) × (run ≡ (w, ok a))

pub and_then-Succeeds :
    {A B : Type 0} (run : Run A) (next : World → A → Run B)
    → Succeeds run
    → ((w : World) (a : A) → run ≡ (w, ok a) → Succeeds (next w a))
    → Succeeds (and_then run next)
and_then-Succeeds run next (w, a, h) more =
    let (w', b, h') = more w a h in (w', b, ap (λ r. and_then r next) h ∙ h')

pub match_run-Succeeds :
    {A B : Type 0} (run : Run A) (next : World → A → Run B) (recover : World → Fault → Run B)
    → Succeeds run
    → ((w : World) (a : A) → run ≡ (w, ok a) → Succeeds (next w a))
    → Succeeds (match_run run next recover)
match_run-Succeeds run next recover (w, a, h) more =
    let (w', b, h') = more w a h in (w', b, ap (λ r. match_run r next recover) h ∙ h')

pub guard-Succeeds :
    {A : Type 0} (fault : Option Fault) (w : World) (next : World → Unit {0} → Run A)
    → fault ≡ none
    → Succeeds (next w tt)
    → Succeeds (and_then (guard fault w) next)
guard-Succeeds none w next h more = more
guard-Succeeds (some e) w next h more = absurd (ground (arith, h))

-- What a safe run gives where it succeeds.
pub result_of :
    (base : RecoveryJournal) {A : Type 0} (Q : World → A → Type 0) (run : Run A) (w : World) (a : A)
    → Ends base Q run
    → run ≡ (w, ok a)
    → Q w a
result_of base Q run w a ends h =
    let moved : Ends base Q (w, ok a) = subst (λ r. Ends base Q r) h ends in moved.1

pub same_checkpoints_refl : (cps : List L1ResumeCheckpoint) → same_checkpoints cps cps ≡ true
unfolding same_checkpoints
same_checkpoints_refl [] = refl
same_checkpoints_refl (cp ∷ cps) = ground (arith, same_checkpoints_refl cps)

pub exact_refl : (h : HeaderObservation) → exact h h ≡ true
unfolding exact
exact_refl h = ground arith

pub same_immutable_identity-phases :
    (base : RecoveryJournal) (p q : Phase)
    → same_immutable_identity (with_phase base p) (with_phase base q) ≡ true
unfolding same_immutable_identity
same_immutable_identity-phases base p q =
    simp (==_refl, same_checkpoints_refl base.truncated_resume.checkpoints)
