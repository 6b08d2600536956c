-- ===== src/L1/Cache.antt =====
-- crates/arb-reth-l1/src/sync.rs: the derivation of one L1 range, with its caches of delayed messages
-- and of batch statistics. `fetch` is `DelayedInboxReader::fetch_delayed`. A failure ends the attempt
-- with its caches, so the caches of a failed call are left out.
pub mod Total
mod Runs
use arbitrum_reth.Prelude.Assoc.{contains_key, retain_from}
use Prim.Native.String.{String}
use arbitrum_reth.Prelude.{
  ℕ, zero, suc, ◌+◌, ◌-◌, min, max, Bool, true, not, ◌&&◌, ◌||◌, Option, none, some, List, [], ◌∷◌,
  ltb, leb, ◌==◌, if◌then◌else◌, Result, ◌>>=◌, ok, err, stuck,
}
use arbitrum_reth.Prelude.Assoc
use arbitrum_reth.Derive.Batch.{batch_header}
use arbitrum_reth.Derive.Delayed.{
  DelayedMessage, DelayedMap, DelayedSource, Keccak, from_messages, map_source, no_delayed,
}
use arbitrum_reth.L1.Errors.{L1Error, missing}
use arbitrum_reth.L1.Batches.{DeliveredBatch}
use arbitrum_reth.L1.Feed.{BroadcastFeedMessage}
use arbitrum_reth.L1.Serialize.{
  BatchDataStats, batch_data_hash, batch_data_stats, serialize_batch, report_data_hash,
  report_batch_num,
}
use arbitrum_reth.L1.Decode.{Codec, PosterCall}
use arbitrum_reth.L1.Reader.{Provider, Log, resolve_batch}
use arbitrum_reth.L1.Assemble.{
  ReportStats, kind_batch_posting_report, assemble_feed_messages_with_seed,
}

abbrev pub Fetch : Type 0
Fetch = ℕ → ℕ → Result L1Error (List DelayedMessage)

abbrev pub Messages : Type 0
Messages = List (ℕ × DelayedMessage)

-- `(i..i + n).all(|i| msgs.contains_key(&i))`.
unfoldable pub covers : Messages → ℕ → ℕ → Bool
covers msgs i zero = true
covers msgs i (suc n) = Assoc.contains_key i msgs && covers msgs (i + 1) n

-- `for m in .. { msgs.insert(m.inbox_seq_num, m); }`.
unfoldable pub insert_messages : List DelayedMessage → Messages → Messages
insert_messages [] msgs = msgs
insert_messages (m ∷ ms) msgs = insert_messages ms (Assoc.insert m.inbox_seq_num m msgs)

-- The loop of `fetch_delayed_map_covering`, down to block 0; the fuel bounds its rounds.
unfoldable pub walk_back : Fetch → ℕ → ℕ → ℕ → ℕ → ℕ → Messages → Result L1Error Messages
unfolding covers insert_messages
walk_back fetch zero hi need_from need_to window acc = stuck
walk_back fetch (suc fuel) hi need_from need_to window acc = do
  let lo = hi - (window - 1)
  ms ← fetch lo hi
  let acc' = insert_messages ms acc
  let more = walk_back fetch fuel (lo - 1) need_from need_to window acc'
  (if Assoc.contains_key need_from acc' || covers acc' need_from (need_to - need_from)
      then ok acc'
      else if lo == 0
      then err (missing "delayed messages: scan reached block 0 without coverage")
      else more)

-- Each round goes a block down at least, so `to_block + 1` rounds are enough.
unfoldable pub fetch_delayed_map_covering : Fetch → ℕ → ℕ → ℕ → ℕ → Result L1Error DelayedMap
unfolding walk_back
fetch_delayed_map_covering fetch to_block need_from need_to window =
    if leb need_to need_from then ok (from_messages []) else (do
      acc ← walk_back fetch (to_block + 1) to_block need_from need_to (max window 1) []
      (if not (covers acc need_from (need_to - need_from))
          then err (missing "delayed message index not found in scan")
          else ok (from_messages (Assoc.values acc))))

pub record DelayedCache : Type 0 where
  pub msgs : Messages
  pub scanned_lo : Option ℕ
  pub scanned_hi : Option ℕ

abbrev pub new_cache : DelayedCache
new_cache = record { msgs = []; scanned_lo = none; scanned_hi = none }

-- The chunks of `scan_range`, from the top down to `lo`; the fuel bounds their number.
unfoldable pub scan_chunks : Fetch → ℕ → ℕ → ℕ → ℕ → Messages → Result L1Error Messages
unfolding insert_messages
scan_chunks fetch zero lo chunk_hi window msgs = stuck
scan_chunks fetch (suc fuel) lo chunk_hi window msgs = do
  let chunk_lo = max (chunk_hi - (window - 1)) lo
  ms ← fetch chunk_lo chunk_hi
  let msgs' = insert_messages ms msgs
  let more = scan_chunks fetch fuel lo (chunk_lo - 1) window msgs'
  if chunk_lo == lo then ok msgs' else more

-- `map_or(b, |x| op(x, b))`.
abbrev pub fold_bound : (ℕ → ℕ → ℕ) → Option ℕ → ℕ → ℕ
fold_bound op none b = b
fold_bound op (some x) b = op x b

unfoldable pub scan_range : Fetch → DelayedCache → ℕ → ℕ → ℕ → Result L1Error DelayedCache
unfolding scan_chunks
scan_range fetch cache lo hi window = do
  msgs ← scan_chunks fetch (hi - lo + 1) lo hi (max window 1) cache.msgs
  ok (record {
    msgs = msgs;
    scanned_lo = some (fold_bound min cache.scanned_lo lo);
    scanned_hi = some (fold_bound max cache.scanned_hi hi);
  })

-- The forward extension, over the gap since the last scan.
unfoldable pub extend_forward : Fetch → DelayedCache → ℕ → ℕ → Result L1Error DelayedCache
unfolding scan_range
extend_forward fetch cache to_block window = elim cache.scanned_hi [
  | none ↦ scan_range fetch cache (to_block - (window - 1)) to_block window
  | some hi ↦ if ltb hi to_block then scan_range fetch cache (hi + 1) to_block window else ok cache
]

-- `while !self.covers(..)`: one window further down in each round. `expect` on an empty cache is
-- the `stuck` of the first clause below it, as is the end of the fuel.
unfoldable pub extend_back : Fetch → ℕ → DelayedCache → ℕ → ℕ → ℕ → Result L1Error DelayedCache
unfolding covers scan_range
extend_back fetch zero cache need_from need_to window =
    if covers cache.msgs need_from (need_to - need_from) then ok cache else stuck
extend_back fetch (suc fuel) cache need_from need_to window =
    if covers cache.msgs need_from (need_to - need_from) then ok cache else elim cache.scanned_lo [
      | none ↦ stuck
      | some lo ↦
          if lo == 0
          then err (missing "delayed messages: scan reached block 0 without coverage")
          else (do
            next ← scan_range fetch cache (lo - 1 - (window - 1)) (lo - 1) window
            extend_back fetch fuel next need_from need_to window)
    ]

abbrev low_end : DelayedCache → ℕ
low_end cache = elim cache.scanned_lo [ none ↦ 0 | some lo ↦ lo ]

-- Each round lowers `scanned_lo`, so its value and one more are enough rounds.
unfoldable pub extend : Fetch → DelayedCache → ℕ → ℕ → ℕ → ℕ → Result L1Error DelayedCache
unfolding extend_forward extend_back
extend fetch cache to_block need_from need_to window =
    if covers cache.msgs need_from (need_to - need_from) then ok cache else (do
      next ← extend_forward fetch cache to_block window
      extend_back fetch (low_end next + 1) next need_from need_to window)

-- `(i..i + n).map(|i| msgs.get(&i).expect(..))`: a missing entry would panic.
unfoldable pub messages_in : Messages → ℕ → ℕ → Result L1Error (List DelayedMessage)
messages_in msgs i zero = ok []
messages_in msgs i (suc n) = elim (Assoc.lookup i msgs) [
  | none ↦ stuck
  | some m ↦ do ms ← messages_in msgs (i + 1) n; ok (m ∷ ms)
]

-- `DelayedCache::cover`.
unfoldable pub cover :
    Fetch → DelayedCache → ℕ → ℕ → ℕ → ℕ → Result L1Error (DelayedMap × DelayedCache)
unfolding extend messages_in
cover fetch cache to_block need_from need_to window =
    if leb need_to need_from then ok (from_messages [], cache) else (do
      full ← extend fetch cache to_block need_from need_to (max window 1)
      ms ← messages_in full.msgs need_from (need_to - need_from)
      ok (
        from_messages ms,
        record {
          msgs = Assoc.retain_from need_from full.msgs;
          scanned_lo = full.scanned_lo;
          scanned_hi = full.scanned_hi;
        },
      ))
