-- ===== src/Recover/Runs.antt =====
-- A recovery of two blocks that is cut off in the middle of the rebuild, and the run after it.
use arbitrum_reth.Recover.Restart.{Restarts, recover_locked-Restarts}
use arbitrum_reth.Recover.Succeeds.{Cooperates}
use arbitrum_reth.Recover.Start.{
  Locked, Starts, create_journal, linked, new_journal, start_journal, start_journal-Starts,
  start_opened,
}
use arbitrum_reth.Recover.Crash.{recover_locked-IsCrashSafe}
use arbitrum_reth.Recover.Unwind.{Contract}
use arbitrum_reth.Recover.Journal.{
  HeaderObservation, RecoveryJournal, frontier_matched, io_failed, prepared, truncated_resume_from,
}
use arbitrum_reth.Recover.Steps.{IsCrashSafe, Stands}
use arbitrum_reth.Prelude.{ℕ, ◌≡◌, refl, false, none, some, [], ◌∷◌, arith, All, ok, err}
use arbitrum_reth.Sync.Resume.{L1ResumeCheckpoint, L1ResumeLog, truncate_to}
use arbitrum_reth.Sync.Replacement.{replaced}
use arbitrum_reth.Recover.{Disk, World, Answers, with_phase, rebuild, recover_locked, write}

abbrev cp : ℕ → L1ResumeCheckpoint
cp block = record { l1_block = block; delayed_count = 0; l2_block = block }

abbrev log : L1ResumeLog
log = record { checkpoints = cp 5 ∷ cp 8 ∷ cp 12 ∷ [] }

abbrev authority_header : HeaderObservation
authority_header = record { number = 10; hash = 77; state_root = 78 }

abbrev locked : Locked
locked = record {
  identity = record {
    chain_id = 1;
    genesis_block = 0;
    genesis_hash = 2;
    sequencer_inbox = 3;
    bridge = 4;
    canonical_l2_rpc = 5;
    l1_rpc = 6;
    l1_beacon = 7;
    l1_end_block = 100;
    max_recovery_l2_blocks = 20;
    l1_prefetch = 6;
    l1_getlogs_range = 1000;
  };
  incident = record {
    schema_version = 1;
    effective_chain_id = 1;
    l2_block_number = 10;
    local_hash = 70;
    canonical_hash = 77;
    local_state_root = 71;
    canonical_state_root = 78;
    detected_at_unix_secs = 0;
  };
  log = log;
  checkpoint = cp 8;
  genesis_block = 0;
  had_journal = false;
  open_database = none;
}

abbrev disk : Disk
disk = record { journal = none; resume = log; tip = 14 }

abbrev world : World
world = record { disk = disk; past = [] }

abbrev base : RecoveryJournal
base = new_journal locked 14 (record { checkpoints = cp 5 ∷ cp 8 ∷ [] })

abbrev started : World
started = write (record { journal = some base; resume = log; tip = 14 }) world

abbrev good : Answers
good = record {
  open_first = none;
  unwind = none;
  remove_above = λ tip target. target;
  open_again = none;
  save_phase = λ p. replaced;
  save_resume = replaced;
  load_resume = none;
  rebuild_tips = 9 ∷ 10 ∷ [];
  rebuilt = ok authority_header;
  canonical_after = ok authority_header;
  open_verify = none;
  local_header = some authority_header;
  canonical_durable = ok authority_header;
}

-- The L1 fails when one of the two blocks is rebuilt.
abbrev cut : Answers
cut = record good { rebuild_tips = 9 ∷ []; rebuilt = err io_failed }

start_run : start_journal locked linked world ≡ (started, ok base)
unfolding start_journal start_opened new_journal create_journal truncated_resume_from truncate_to
start_run = refl

starts : Starts base started
starts = start_journal-Starts locked world base started (omega arith) refl refl start_run

start_journal-Starts_example : Starts base started
start_journal-Starts_example =
    start_journal-Starts locked world base started (omega arith) refl refl start_run

good-Contract : Contract base good
unfolding new_journal
good-Contract = record {
  bounded = omega arith;
  removes = λ tip above. refl;
  passes = ((omega arith, omega arith), ((omega arith, omega arith), tt));
}

cut-Contract : Contract base cut
unfolding new_journal
cut-Contract = record {
  bounded = omega arith;
  removes = λ tip above. refl;
  passes = ((omega arith, omega arith), tt);
}

good-Cooperates : Cooperates base good authority_header
unfolding new_journal rebuild
good-Cooperates = record {
  opens_first = refl;
  unwinds = refl;
  opens_again = refl;
  saves = λ p. refl;
  saves_resume = refl;
  loads = refl;
  reaches = λ w. refl;
  rebuilds = refl;
  sees = refl;
  opens_verify = refl;
  finds = refl;
  sees_durable = refl;
  at_frontier = refl;
}

recover_locked-IsCrashSafe_example :
    IsCrashSafe base (recover_locked cut log (with_phase base prepared) started).0
    × ((recover_locked cut log (with_phase base prepared) started).1 ≡ ok tt
        → Stands base frontier_matched
            (recover_locked cut log (with_phase base prepared) started).0)
recover_locked-IsCrashSafe_example =
    recover_locked-IsCrashSafe base cut cut-Contract prepared log started starts.4

recover_locked-Restarts_example :
    All
      (Restarts base cut good authority_header cut-Contract good-Contract good-Cooperates starts.1
        starts.3)
      (recover_locked cut log (with_phase base prepared) started).0.past
recover_locked-Restarts_example =
    recover_locked-Restarts base cut good authority_header cut-Contract good-Contract
      good-Cooperates starts.1 starts.3 prepared log started starts.4

-- The cut run leaves the tip at 9 with the log truncated.
left : (recover_locked cut log (with_phase base prepared) started).0.disk.tip ≡ 9
unfolding recover_locked new_journal truncate_to
left = refl
