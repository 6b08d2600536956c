-- ===== src/Sync/Supervise.antt =====
-- crates/arb-reth-sync/src/l1_sync.rs: the supervision of `run_l1_sync`. What the world answers in a
-- round of the loop (the durable tip, the log in the file, the attempt's end, a shutdown) is a record.
pub mod Outcome
mod Runs
use arbitrum_reth.Derive.Multiplexer.Clock.{delayed_count}
use Prim.Native.String.{String}
use arbitrum_reth.Prelude.{
  ℕ, Bool, true, false, not, ◌&&◌, Option, none, some, List, [], ◌∷◌, ◌==◌, if◌then◌else◌, Result,
  ok, err, stuck,
}
use arbitrum_reth.Sync.Errors.{L1SyncError, L1SyncCompletion, exhausted, is_retryable}
use arbitrum_reth.Sync.Resume.{L1ResumeCheckpoint, L1ResumeLog, resume_for}
use arbitrum_reth.Sync.Resume.Order.{IsAscending}
use arbitrum_reth.Sync.Resume.Lookup.{IsResumePoint, resume_for-IsResumePoint}
use arbitrum_reth.Sync.Backoff
use arbitrum_reth.Sync.Backoff.{RetryBackoff, next_delay}

pub record L1SyncConfig : Type 0 where
  pub l1_rpc : String
  pub l1_beacon : Option String
  pub sequencer_inbox : ℕ
  pub bridge : ℕ
  pub start_block : ℕ
  pub end_block : Option ℕ
  pub start_delayed_count : ℕ
  pub start_l2_block : ℕ
  pub db_tip_l2 : ℕ
  pub l2_frontier : Option ℕ
  pub genesis_block : ℕ
  pub checkpoint_path : Option String
  pub batch_window : ℕ
  pub delayed_window : ℕ
  pub confirmations : ℕ
  pub poll_interval : ℕ
  pub prefetch_windows : ℕ

pub record SyncProgress : Type 0 where
  pub persisted_l2 : ℕ
  pub checkpoint_l1 : ℕ
  pub checkpoint_l2 : ℕ

-- `checkpoint_path.and_then(load).and_then(|log| log.resume_for(persisted_l2))`, where `file` is
-- what `load` makes of the path.
unfoldable pub checkpoint_for :
    L1SyncConfig → (String → Option L1ResumeLog) → ℕ → Option L1ResumeCheckpoint
checkpoint_for cfg load persisted_l2 = elim cfg.checkpoint_path [
  | none ↦ none
  | some path ↦ elim (load path) [ none ↦ none | some log ↦ resume_for log persisted_l2 ]
]

unfoldable pub progress : L1SyncConfig → (String → Option L1ResumeLog) → ℕ → SyncProgress
unfolding checkpoint_for
progress cfg load persisted_l2 = elim (checkpoint_for cfg load persisted_l2) [
  | none ↦ record {
    persisted_l2 = persisted_l2;
    checkpoint_l1 = cfg.start_block;
    checkpoint_l2 = cfg.start_l2_block;
  }
  | some cp ↦ record {
    persisted_l2 = persisted_l2;
    checkpoint_l1 = cp.l1_block;
    checkpoint_l2 = cp.l2_block;
  }
]

unfoldable pub resume_config : L1SyncConfig → (String → Option L1ResumeLog) → ℕ → L1SyncConfig
unfolding checkpoint_for
resume_config base load persisted_l2 = elim (checkpoint_for base load persisted_l2) [
  | none ↦ record base { db_tip_l2 = persisted_l2 }
  | some cp ↦ record base {
    db_tip_l2 = persisted_l2;
    start_block = cp.l1_block;
    start_delayed_count = cp.delayed_count;
    start_l2_block = cp.l2_block;
  }
]

abbrev pub same_progress : SyncProgress → SyncProgress → Bool
same_progress a b =
    a.persisted_l2 == b.persisted_l2
    && (a.checkpoint_l1 == b.checkpoint_l1 && a.checkpoint_l2 == b.checkpoint_l2)

-- One round: the tip and the files before the attempt, how the attempt ends (`none` is a shutdown),
-- the tip and the files after it, and whether the wait runs to its end.
pub record Round : Type 0 where
  pub tip_before : Result L1SyncError ℕ
  pub load_before : String → Option L1ResumeLog
  pub attempt : Option (Result L1SyncError L1SyncCompletion)
  pub tip_after : Result L1SyncError ℕ
  pub load_after : String → Option L1ResumeLog
  pub waited : Bool

-- The configuration of an attempt.
unfoldable pub attempt_config : L1SyncConfig → Bool → Round → ℕ → L1SyncConfig
unfolding resume_config
attempt_config base first_attempt r tip =
    if first_attempt then record base { db_tip_l2 = tip } else resume_config base r.load_before tip

-- What a run did: the attempts' configurations, the delays, and how it ended. `none` is a run whose
-- rounds are all used.
pub record Supervised : Type 0 where
  pub attempts : List L1SyncConfig
  pub delays : List ℕ
  pub result : Option (Result L1SyncError L1SyncCompletion)

abbrev pub stop : List L1SyncConfig → Result L1SyncError L1SyncCompletion → Supervised
stop attempts result = record { attempts = attempts; delays = []; result = some result }

abbrev pub with_attempt : L1SyncConfig → ℕ → Supervised → Supervised
with_attempt cfg delay s = record {
  attempts = cfg ∷ s.attempts;
  delays = delay ∷ s.delays;
  result = s.result;
}

-- After a retryable failure: the delay, and the other rounds unless a shutdown ends the wait.
abbrev pub after_failure :
    L1SyncConfig
    → L1SyncConfig
    → Round
    → ℕ
    → RetryBackoff
    → (RetryBackoff → Supervised)
    → Supervised
after_failure base cfg r tip backoff again = elim r.tip_after [
  | ok tip_after ↦
      let made_progress =
        not (
          same_progress (progress base r.load_after tip_after) (progress base r.load_before tip)) in
      let (delay, next) = next_delay backoff made_progress in
      let more = again next in
      if r.waited
      then with_attempt cfg delay more
      else record { attempts = cfg ∷ []; delays = delay ∷ []; result = some (ok exhausted) }
  | err e ↦ stop (cfg ∷ []) (err e)
  | stuck ↦ stop (cfg ∷ []) stuck
]

unfoldable pub supervise_loop : L1SyncConfig → Bool → RetryBackoff → List Round → Supervised
unfolding attempt_config next_delay progress
supervise_loop base first_attempt backoff [] = record { attempts = []; delays = []; result = none }
supervise_loop base first_attempt backoff (r ∷ rounds) = elim r.tip_before [
  | err e ↦ stop [] (err e)
  | stuck ↦ stop [] stuck
  | ok tip ↦
      let cfg = attempt_config base first_attempt r tip in
      elim r.attempt [
        | none ↦ stop (cfg ∷ []) (ok exhausted)
        | some (ok completion) ↦ stop (cfg ∷ []) (ok completion)
        | some stuck ↦ stop (cfg ∷ []) stuck
        | some (err e) ↦
            if not (is_retryable e)
            then stop (cfg ∷ []) (err e)
            else after_failure base cfg r tip backoff
                (λ next. supervise_loop base false next rounds)
      ]
]

unfoldable pub supervise_l1_sync_with_backoff : L1SyncConfig → ℕ → ℕ → List Round → Supervised
unfolding supervise_loop
supervise_l1_sync_with_backoff base initial_delay maximum_delay rounds =
    supervise_loop base true (Backoff.new initial_delay maximum_delay) rounds
