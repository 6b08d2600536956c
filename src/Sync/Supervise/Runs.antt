-- ===== src/Sync/Supervise/Runs.antt =====
-- A supervised run: a provider failure, then a batch that does not decode. And a flush of the queue.
use arbitrum_reth.Sync.Resume.Order.{AtOrBelow}
use arbitrum_reth.Prelude.{ℕ, ◌≤◌, ◌≡◌, refl, true, none, some, List, [], ◌∷◌, ◌++◌, arith, ok, err}
use arbitrum_reth.Sync.Errors.{provider, derivation}
use arbitrum_reth.L1.Errors.{abi}
use arbitrum_reth.Sync.Resume.{
  L1ResumeCheckpoint, L1ResumeLog, compact_history, push_boundary, record_boundary,
}
use arbitrum_reth.Sync.Replacement.{kept, replaced, unsynced, file_after}
use arbitrum_reth.Sync.Backoff.{RetryBackoff, next_delay, next_delay_bounds}
use arbitrum_reth.Sync.Checkpoint.{
  CheckpointState, file_of, record_all, save_if_moved, flush_durable, maybe_write_checkpoint,
  maybe_write_checkpoint-Durable, Durable,
}
use arbitrum_reth.Sync.Supervise.{L1SyncConfig, Round, supervise_l1_sync_with_backoff}
use arbitrum_reth.Sync.Supervise.Outcome.{IsGood, supervise_l1_sync_with_backoff-IsGood}

abbrev cp : ℕ → ℕ → L1ResumeCheckpoint
cp l1 l2 = record { l1_block = l1; delayed_count = 0; l2_block = l2 }

abbrev log : L1ResumeLog
log = record { checkpoints = cp 100 10 ∷ cp 200 25 ∷ [] }

abbrev config : L1SyncConfig
config = record {
  l1_rpc = "http://l1";
  l1_beacon = none;
  sequencer_inbox = 1;
  bridge = 2;
  start_block = 50;
  end_block = none;
  start_delayed_count = 0;
  start_l2_block = 5;
  db_tip_l2 = 0;
  l2_frontier = none;
  genesis_block = 0;
  checkpoint_path = some "resume.json";
  batch_window = 1_000;
  delayed_window = 10_000;
  confirmations = 8;
  poll_interval = 12_000_000_000;
  prefetch_windows = 6;
}

abbrev failed : Round
failed = record {
  tip_before = ok 20;
  load_before = λ path. some log;
  attempt = some (err (provider "get_block_number"));
  tip_after = ok 30;
  load_after = λ path. some log;
  waited = true;
}

abbrev terminal : Round
terminal = record {
  tip_before = ok 30;
  load_before = λ path. some log;
  attempt = some (err (derivation "resolve_batches" abi));
  tip_after = ok 30;
  load_after = λ path. some log;
  waited = true;
}

supervise_l1_sync_with_backoff-IsGood_example :
    IsGood 1_000_000_000 30_000_000_000
      (supervise_l1_sync_with_backoff config 1_000_000_000 30_000_000_000 (failed ∷ terminal ∷ []))
supervise_l1_sync_with_backoff-IsGood_example =
    supervise_l1_sync_with_backoff-IsGood config 1_000_000_000 30_000_000_000
      (failed ∷ terminal ∷ []) (omega arith) ((tt, omega arith, tt), ((tt, omega arith, tt), tt))

abbrev backoff : RetryBackoff
backoff = record {
  failures_without_progress = 4;
  initial = 1_000_000_000;
  maximum = 30_000_000_000;
}

next_delay_bounds_example :
    let (delay, t) = next_delay backoff true in
    (1_000_000_000 ≤ delay)
    × (delay ≤ 30_000_000_000)
    × (true ≡ true → t.failures_without_progress ≡ 1)
next_delay_bounds_example = next_delay_bounds backoff true (omega arith)

abbrev queue : CheckpointState
queue = record { log = log; pending = cp 300 30 ∷ cp 400 30 ∷ cp 500 60 ∷ []; file = none }

-- Two boundaries move, and the sync of the directory fails behind the rename.
maybe_write_checkpoint-Durable_example :
    let t = maybe_write_checkpoint true unsynced queue 40 in
    Durable 40 t.log t.pending
    × ((moved : List L1ResumeCheckpoint) × (queue.pending ≡ moved ++ t.pending)
        × AtOrBelow 40 moved
        × (t.log ≡ record_all queue.log moved)
        × (t.file ≡ file_of unsynced moved t.log none))
maybe_write_checkpoint-Durable_example =
    maybe_write_checkpoint-Durable unsynced queue 40 ((omega arith, tt), (tt, tt))
      (omega arith, (omega arith, tt))
      (
        (omega arith, (omega arith, tt)),
        ((omega arith, (omega arith, tt)), ((omega arith, tt), (tt, tt))),
      )

-- The save of the two fails, and the next call, at the same tip, does not try again.
no_second_try :
    (maybe_write_checkpoint true replaced (maybe_write_checkpoint true kept queue 40) 40).file
    ≡ none
unfolding maybe_write_checkpoint flush_durable save_if_moved file_after record_boundary
no_second_try = refl

written :
    (maybe_write_checkpoint true unsynced queue 40).file
    ≡ some (record { checkpoints = cp 100 10 ∷ cp 200 25 ∷ cp 400 30 ∷ [] })
unfolding maybe_write_checkpoint flush_durable save_if_moved file_after record_boundary
    push_boundary compact_history
written = refl
