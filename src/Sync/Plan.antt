-- ===== src/Sync/Plan.antt =====
-- crates/arb-reth-sync/src/l1_sync.rs, `run_l1_sync`: the prefetch pipeline. Each round of its
-- `while` loop cuts the next L1 window, gated on the inbox's batch count.
pub mod Cover
mod Runs
use Prim.Native.String.{String}
use arbitrum_reth.Prelude.{
  ℕ, zero, suc, ◌+◌, ◌-◌, min, max, Bool, true, false, ◌||◌, Option, none, some, List, [], ◌∷◌,
  ◌++◌, ltb, ◌==◌, if◌then◌else◌, length, Result, ◌>>=◌, map_err, ok,
}
use arbitrum_reth.L1.Reader.{Provider, batch_count, first_block_with_batch_count_above}
use arbitrum_reth.Sync.Errors.{L1SyncError, l1}

-- A prefetched window; `scan` tells a `resolve_batches` task from an empty one.
pub record Inflight : Type 0 where
  pub from : ℕ
  pub to : ℕ
  pub scan : Bool

-- The part of `L1SyncConfig` and of the loop's variables that a step reads.
pub record Gate : Type 0 where
  pub end_block : Option ℕ
  pub batch_window : ℕ
  pub safe_head : ℕ
  pub head_batch_count : ℕ

-- `cfg.end_block.map_or(safe_head, |end| end.min(safe_head))`.
abbrev pub scan_hi : Gate → ℕ
scan_hi gate = elim gate.end_block [
  | none ↦ gate.safe_head
  | some end_block ↦ min end_block gate.safe_head
]

-- The count at a block, that of the safe head from its cache.
unfoldable pub count_at : Provider → Gate → String → ℕ → Result L1SyncError ℕ
count_at provider gate what block =
    if block == gate.safe_head
    then ok gate.head_batch_count
    else map_err (l1 what) (batch_count provider block)

-- How far a barren stretch reaches.
unfoldable pub barren_to : Provider → Gate → ℕ → ℕ → ℕ → Result L1SyncError ℕ
barren_to provider gate win_to seen hi_batch_count =
    if hi_batch_count == seen then ok (scan_hi gate) else (do
      b ←
          map_err (l1 "first_block_with_batch_count_above")
            (first_block_with_batch_count_above provider (win_to + 1) (scan_hi gate) seen)
      ok (b - 1))

-- The body of the loop: the window from `from` on, and the count seen behind it.
unfoldable pub plan_step : Provider → Gate → ℕ → ℕ → Result L1SyncError (Inflight × ℕ)
unfolding count_at barren_to
plan_step provider gate from seen =
    let win_to = min (from + max gate.batch_window 1 - 1) (scan_hi gate) in
    count_at provider gate "batchCount(win_to)" win_to >>= λ win_batch_count.
    if ltb seen win_batch_count
    then ok (record { from = from; to = win_to; scan = true }, win_batch_count)
    else (do
      hi_batch_count ← count_at provider gate "batchCount(scan_hi)" (scan_hi gate)
      to ← barren_to provider gate win_to seen hi_batch_count
      ok (record { from = from; to = to; scan = false }, seen))

abbrev pub past_end : Gate → ℕ → Bool
past_end gate cursor = elim gate.end_block [ none ↦ false | some end_block ↦ ltb end_block cursor ]

pub record Pipeline : Type 0 where
  pub inflight : List Inflight
  pub spawn_cursor : ℕ
  pub seen_batch_count : ℕ

abbrev pub push_back : Pipeline → Inflight × ℕ → Pipeline
push_back s (w, seen) = record {
  inflight = s.inflight ++ (w ∷ []);
  spawn_cursor = w.to + 1;
  seen_batch_count = seen;
}

-- The `while inflight.len() < prefetch && spawn_cursor <= safe_head` loop: each round fills one of
-- the free slots.
unfoldable pub fill_slots : Provider → Gate → ℕ → Pipeline → Result L1SyncError Pipeline
unfolding plan_step
fill_slots provider gate zero s = ok s
fill_slots provider gate (suc free) s =
    if ltb gate.safe_head s.spawn_cursor || past_end gate s.spawn_cursor then ok s else (do
      r ← plan_step provider gate s.spawn_cursor s.seen_batch_count
      fill_slots provider gate free (push_back s r))

unfoldable pub fill : Provider → Gate → ℕ → Pipeline → Result L1SyncError Pipeline
unfolding fill_slots
fill provider gate prefetch_windows s =
    fill_slots provider gate (max prefetch_windows 1 - length s.inflight) s
