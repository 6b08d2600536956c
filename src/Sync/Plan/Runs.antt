-- ===== src/Sync/Plan/Runs.antt =====
-- A pipeline of six windows over an inbox that posts a batch in every second block.
use arbitrum_reth.Prelude.{◌/◌, min, ◌≡◌, refl, some, List, [], ◌++◌, arith, ok}
use arbitrum_reth.L1.Reader.Counting.{halving, halving-answers}
use arbitrum_reth.Sync.Plan.{Inflight, Gate, Pipeline, fill, scan_hi}
use arbitrum_reth.Sync.Plan.Cover.{Covers, batches_before, fill-Covers}

abbrev gate : Gate
gate = record {
  end_block = some 5_000;
  batch_window = 100;
  safe_head = 4_000;
  head_batch_count = 1_000;
}

abbrev start : Pipeline
start = record { inflight = []; spawn_cursor = 1_801; seen_batch_count = 900 }

fill-Covers_example :
    (ws : List Inflight) × (t : Pipeline) × (fill halving gate 6 start ≡ ok t)
    × (t.inflight ≡ [] ++ ws)
    × Covers (λ b. min (b / 2) 1_000) 1_801 (scan_hi gate) ws t.spawn_cursor
    × (t.seen_batch_count ≡ batches_before (λ b. min (b / 2) 1_000) t.spawn_cursor)
fill-Covers_example =
    fill-Covers halving gate (λ b. min (b / 2) 1_000) halving-answers (λ a b h. omega arith) refl 6
      start refl
