-- ===== src/Recover/Start.antt =====
-- crates/arb-reth-node/src/commands/recover.rs: the choice of the checkpoint, and the journal that a run
-- loads or creates under the lock.
use arbitrum_reth.Recover.Steps.{IsSound}
use arbitrum_reth.Recover.Unwind.{truncated_resume_from-twice}
use arbitrum_reth.Recover.Journal.{
  Fault, HeaderObservation, Incident, Phase, RecoveryAuthorityError, RecoveryIdentity,
  RecoveryJournal, another_identity, another_incident, another_target, authority, below_genesis,
  exact, failed, frontier_matched, identity_changed, io_failed, journal_missing, no_checkpoint,
  not_below_frontier, prepared, resume_truncated, same_checkpoint, same_checkpoints, same_identity,
  same_immutable_identity, same_incident, same_log, span_exceeded, terminally_failed,
  tip_below_frontier, truncated_resume_from, unwound,
}
use arbitrum_reth.Prelude.{
  ℕ, ◌-◌, ◌<◌, ◌≡◌, refl, ap, subst, inl, inr, Bool, not, ◌&&◌, ◌||◌, Option, none, some, List, [],
  ◌∷◌, ◌++◌, arith, ltb, ◌==◌, if◌then◌else◌, Bool-cases, All, Result, ◌>>=◌, map_err, Result-cases,
  ok, err,
}
use arbitrum_reth.Sync.Resume.{L1ResumeCheckpoint, L1ResumeLog}
use arbitrum_reth.Recover.Steps.{Fits, Stands, OnOk}
use arbitrum_reth.Recover.{
  World, Run, Answers, and_then, guard, recover_locked, strict_journal, write,
}

-- The newest checkpoint below the incident whose local header is the canonical one; the list has the
-- newest first.
unfoldable pub choose_from :
    (ℕ → Result Fault (Option HeaderObservation))
    → (ℕ → Result RecoveryAuthorityError HeaderObservation)
    → Incident
    → ℕ
    → List L1ResumeCheckpoint
    → Result Fault L1ResumeCheckpoint
unfolding exact
choose_from local canonical incident max_span [] = err no_checkpoint
choose_from local canonical incident max_span (cp ∷ cps) =
    let older = choose_from local canonical incident max_span cps in
    let span = incident.l2_block_number - cp.l2_block in
    if not (ltb cp.l2_block incident.l2_block_number)
    then older
    else local cp.l2_block >>= λ found. elim found [
      | none ↦ older
      | some header ↦ map_err authority (canonical cp.l2_block) >>= λ seen.
          if not (exact (record header { number = cp.l2_block }) seen)
          then older
          else if ltb max_span span
          then err (span_exceeded span)
          else ok cp
    ]

unfoldable pub newest_first : List L1ResumeCheckpoint → List L1ResumeCheckpoint
newest_first [] = []
newest_first (cp ∷ cps) = newest_first cps ++ cp ∷ []

unfoldable pub choose_checkpoint :
    L1ResumeLog
    → Incident
    → (ℕ → Result RecoveryAuthorityError HeaderObservation)
    → (ℕ → Result Fault (Option HeaderObservation))
    → ℕ
    → Result Fault L1ResumeCheckpoint
unfolding choose_from newest_first
choose_checkpoint log incident canonical local max_span =
    choose_from local canonical incident max_span (newest_first log.checkpoints)

-- The test of the span before the lock.
unfoldable pub check_span : Incident → L1ResumeCheckpoint → ℕ → Result Fault (Unit {0})
check_span incident cp max_span =
    if not (ltb cp.l2_block incident.l2_block_number)
    then err not_below_frontier
    else if ltb max_span (incident.l2_block_number - cp.l2_block)
    then err (span_exceeded (incident.l2_block_number - cp.l2_block))
    else ok tt

abbrev pub phase_index : Phase → ℕ
phase_index prepared = 0
phase_index unwound = 1
phase_index resume_truncated = 2
phase_index frontier_matched = 3
phase_index failed = 4

-- How the hard link that publishes a new journal ends.
pub data Link : Type 0 where
  linked : Link
  linked_unsynced : Link
  already_exists : Link
  link_failed : Link

abbrev pub accept_existing : RecoveryJournal → Option RecoveryJournal → World → Run RecoveryJournal
accept_existing j none w = (w, err journal_missing)
accept_existing j (some existing) w =
    if same_immutable_identity existing j && phase_index existing.phase == phase_index j.phase
    then (w, ok existing)
    else (w, err identity_changed)

unfoldable pub create_journal : Link → RecoveryJournal → World → Run RecoveryJournal
unfolding strict_journal same_immutable_identity
create_journal linked j w = (write (record w.disk { journal = some j }) w, ok j)
create_journal linked_unsynced j w = (write (record w.disk { journal = some j }) w, err io_failed)
create_journal already_exists j w =
    and_then (w, strict_journal w.disk.journal) (λ w existing. accept_existing j existing w)
create_journal link_failed j w = (w, err io_failed)

-- What a run knows when it has the lock, and how the opening of the database and the query of its
-- last block go.
pub record Locked : Type 0 where
  pub identity : RecoveryIdentity
  pub incident : Incident
  pub log : L1ResumeLog
  pub checkpoint : L1ResumeCheckpoint
  pub genesis_block : ℕ
  pub had_journal : Bool
  pub open_database : Option Fault

-- A journal that was there must be of this recovery.
unfoldable pub check_existing : Locked → RecoveryJournal → Result Fault (Unit {0})
unfolding truncated_resume_from same_checkpoints
check_existing locked j =
    if not (same_incident j.incident locked.incident)
    then err another_incident
    else if not (same_identity j.identity locked.identity)
    then err another_identity
    else if phase_index j.phase == 4
    then err terminally_failed
    else if not (same_checkpoint j.checkpoint locked.checkpoint)
        || not (j.target == locked.checkpoint.l2_block)
        || not (j.frontier == locked.incident.l2_block_number)
    then err another_target
    else truncated_resume_from locked.log locked.checkpoint >>= λ derived.
        if same_log j.truncated_resume derived then ok tt else err another_target

unfoldable pub new_journal : Locked → ℕ → L1ResumeLog → RecoveryJournal
new_journal locked tip truncated = record {
  schema_version = 2;
  identity = locked.identity;
  incident = locked.incident;
  checkpoint = locked.checkpoint;
  truncated_resume = truncated;
  original_tip = tip;
  target = locked.checkpoint.l2_block;
  frontier = locked.incident.l2_block_number;
  phase = prepared;
}

-- Without a journal, the tip must be at the incident or above it.
unfoldable pub start_opened : Locked → Link → World → Run RecoveryJournal
unfolding new_journal create_journal truncated_resume_from
start_opened locked link w =
    if ltb w.disk.tip locked.incident.l2_block_number
    then (w, err (tip_below_frontier w.disk.tip))
    else if ltb locked.checkpoint.l2_block locked.genesis_block
    then (w, err below_genesis)
    else and_then (w, truncated_resume_from locked.log locked.checkpoint)
        (λ w truncated. create_journal link (new_journal locked w.disk.tip truncated) w)

unfoldable pub start_journal : Locked → Link → World → Run RecoveryJournal
unfolding start_opened
start_journal locked link w =
    and_then (guard locked.open_database w) (λ w opened. start_opened locked link w)

unfoldable pub continue_journal : Locked → RecoveryJournal → World → Run RecoveryJournal
unfolding check_existing
continue_journal locked j w =
    and_then (w, check_existing locked j)
      (λ w checked. and_then (guard locked.open_database w) (λ w opened.
        if ltb locked.checkpoint.l2_block locked.genesis_block
        then (w, err below_genesis)
        else (w, ok j)))

abbrev pub load_or_start : Locked → Link → Option RecoveryJournal → World → Run RecoveryJournal
load_or_start locked link none w =
    if locked.had_journal then (w, err journal_missing) else start_journal locked link w
load_or_start locked link (some j) w = continue_journal locked j w

unfoldable pub locked_journal : Locked → Link → World → Run RecoveryJournal
unfolding strict_journal start_journal continue_journal
locked_journal locked link w =
    and_then (w, strict_journal w.disk.journal) (λ w current. load_or_start locked link current w)

-- The whole run under the lock.
unfoldable pub recover_under_lock : Answers → Locked → Link → World → Run (Unit {0})
unfolding locked_journal recover_locked
recover_under_lock answers locked link w =
    and_then (locked_journal locked link w) (λ w j. recover_locked answers locked.log j w)

-- The journal is at `prepared`, its files fit it, and its truncation retains itself.
abbrev pub Starts : RecoveryJournal → World → Type 0
Starts j w =
    (j.phase ≡ prepared)
    × (j.schema_version ≡ 2)
    × (j.target < j.frontier)
    × (truncated_resume_from j.truncated_resume j.checkpoint ≡ ok j.truncated_resume)
    × Stands j prepared w

start_opened-Starts :
    (locked : Locked) (w : World) (j : RecoveryJournal) (w' : World)
    → locked.checkpoint.l2_block < locked.incident.l2_block_number
    → locked.log ≡ w.disk.resume
    → w.past ≡ []
    → start_opened locked linked w ≡ (w', ok j)
    → Starts j w'
unfolding start_opened create_journal new_journal
start_opened-Starts locked w j w' below read fresh run =
    elim (Bool-cases (ltb w.disk.tip locked.incident.l2_block_number)) [
      | inl t ↦ absurd (ground (arith, ap (λ r. r.1) (rw t at run)))
      | inr f ↦ elim (Bool-cases (ltb locked.checkpoint.l2_block locked.genesis_block)) [
        | inl t ↦ absurd (ground (arith, ap (λ r. r.1) (rw (f, t) at run)))
        | inr g ↦ elim (Result-cases (truncated_resume_from locked.log locked.checkpoint)) [
          | inr (inl (e, h)) ↦ absurd (ground (arith, ap (λ r. r.1) (rw (f, g, h) at run)))
          | inr (inr h) ↦ absurd (ground (arith, ap (λ r. r.1) (rw (f, g, h) at run)))
          | inl (truncated, h) ↦
              let j₀ = new_journal locked w.disk.tip truncated in
              let fits : Fits j₀ prepared w.disk.resume w.disk.tip = (
                ground arith,
                subst (λ l. truncated_resume_from l locked.checkpoint ≡ ok truncated) read h,
              ) in
              let past : All (IsSound j₀) w.past = rw fresh tt in
              let starts : Starts j₀ (write (record w.disk { journal = some j₀ }) w) = (
                refl,
                refl,
                below,
                truncated_resume_from-twice locked.log truncated locked.checkpoint h,
                (refl, fits, ((prepared, refl, fits), past)),
              ) in
              subst (λ r. OnOk (λ k. Starts k r.0) r.1) (rw (f, g, h) at run) starts
        ]
      ]
    ]

-- A first run with nothing written yet, whose resume log is the one that was read, and whose
-- checkpoint is below the incident: the journal that it creates starts a sound state, from which
-- the run goes on.
pub start_journal-Starts :
    (locked : Locked) (w : World) (j : RecoveryJournal) (w' : World)
    → locked.checkpoint.l2_block < locked.incident.l2_block_number
    → locked.log ≡ w.disk.resume
    → w.past ≡ []
    → start_journal locked linked w ≡ (w', ok j)
    → Starts j w'
unfolding start_journal
start_journal-Starts locked w j w' below read fresh run = opened locked.open_database run
  where
    opened :
        (answer : Option Fault)
        → ◌≡◌ {A = Run RecoveryJournal}
            (and_then (guard answer w) (λ w opened. start_opened locked linked w))
            (w', ok j)
        → Starts j w'
    opened none run = start_opened-Starts locked w j w' below read fresh run
    opened (some e) run = absurd (ground (arith, ap (λ r. r.1) run))
