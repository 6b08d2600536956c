-- ===== src/L1/Range.antt =====
-- crates/arb-reth-l1/src/sync.rs: one L1 range from its resolved batches to feed messages.
use arbitrum_reth.Prelude.Assoc.{contains_key}
use arbitrum_reth.Prelude.{
  ℕ, ◌%◌, ◌^◌, not, ◌||◌, Option, none, some, List, [], ◌∷◌, leb, ◌==◌, if◌then◌else◌, length,
  get_elem?, Result, ◌>>=◌, ok_or, ok, err,
}
use arbitrum_reth.Prelude.Assoc
use arbitrum_reth.Derive.Delayed.{DelayedMessage, Keccak, map_source, no_delayed}
use arbitrum_reth.L1.Errors.{L1Error, missing}
use arbitrum_reth.L1.Batches.{BatchPayload, DeliveredBatch, calldata, blob, nothing}
use arbitrum_reth.L1.Feed.{BroadcastFeedMessage}
use arbitrum_reth.L1.Serialize.{
  BatchDataStats, batch_data_hash, batch_data_stats, serialize_batch, report_data_hash,
  report_batch_num,
}
use arbitrum_reth.L1.Decode.{Codec}
use arbitrum_reth.L1.Reader.{Provider, Log}
use arbitrum_reth.L1.Assemble.{
  ReportStats, kind_batch_posting_report, assemble_feed_messages_with_seed,
}
use arbitrum_reth.L1.Cache.{DelayedCache, Fetch, cover}

pub record DerivedRange (Text : Type 0) : Type 0 where
  pub messages : List (BroadcastFeedMessage Text)
  pub next_delayed_count : ℕ
  pub batches : ℕ

-- The batch and its payload; a blob's payload comes from the beacon client, when there is one.
abbrev with_payload :
    Option (ℕ → List ℕ → Result L1Error (List ℕ))
    → DeliveredBatch
    → BatchPayload
    → Result L1Error (DeliveredBatch × List ℕ)
with_payload beacon b (calldata p) = ok (b, p)
with_payload beacon b nothing = ok (b, [])
with_payload beacon b (blob versioned_hashes block_number) = do
  client ← ok_or beacon (missing "beacon client for blob batch")
  p ← client block_number versioned_hashes
  ok (b, p)

unfoldable pub resolve_one :
    (Log → Result L1Error DeliveredBatch)
    → Option (ℕ → List ℕ → Result L1Error (List ℕ))
    → Log
    → Result L1Error (DeliveredBatch × List ℕ)
resolve_one resolve beacon log = do b ← resolve log; with_payload beacon b b.payload

-- The first log of the sequence number: its batch, checked against the report's hash.
unfoldable pub stats_in_logs :
    Keccak
    → (Log → Result L1Error DeliveredBatch)
    → ℕ
    → ℕ
    → List Log
    → Result L1Error BatchDataStats
stats_in_logs keccak resolve seq_num data_hash [] =
    err (missing "reported batch not found at its delivery block")
stats_in_logs keccak resolve seq_num data_hash (log ∷ logs) =
    let rest = stats_in_logs keccak resolve seq_num data_hash logs in
    elim (get_elem? log.topics 1) [
      | none ↦ rest
      | some t ↦ if not (t % 2 ^ 64 == seq_num) then rest else (do
        b ← resolve log
        (if not (batch_data_hash keccak b == data_hash)
            then err (missing "reported batch data_hash mismatch")
            else ok (batch_data_stats (serialize_batch b))))
    ]

unfoldable pub stats_for_reported_batch :
    Keccak
    → Provider
    → (Log → Result L1Error DeliveredBatch)
    → ℕ
    → ℕ
    → ℕ
    → Result L1Error BatchDataStats
unfolding stats_in_logs
stats_for_reported_batch keccak provider resolve l1_block seq_num data_hash = do
  logs ← provider.batch_logs l1_block l1_block
  stats_in_logs keccak resolve seq_num data_hash logs

-- `report_cache.entry(dh).or_insert_with(..)` over the batches; and the set of their hashes.
unfoldable pub record_in_range :
    Keccak
    → List (DeliveredBatch × List ℕ)
    → ReportStats
    → List (ℕ × Unit {0})
    → ReportStats × List (ℕ × Unit {0})
record_in_range keccak [] report_cache in_range = (report_cache, in_range)
record_in_range keccak ((b, payload) ∷ resolved) report_cache in_range =
    let dh = batch_data_hash keccak b in
    let cached = Assoc.insert dh (batch_data_stats (serialize_batch b)) report_cache in
    record_in_range keccak resolved
      (if Assoc.contains_key dh report_cache then report_cache else cached)
      (Assoc.insert dh tt in_range)

-- One report's statistics: from the cache, or from L1.
unfoldable pub seed_one :
    (ℕ → ℕ → ℕ → Result L1Error BatchDataStats)
    → DelayedMessage
    → ℕ
    → ReportStats × ReportStats
    → Result L1Error (ReportStats × ReportStats)
seed_one stats_for m dh (seed, report_cache) = elim (Assoc.lookup dh report_cache) [
  | some stats ↦ ok (Assoc.insert dh stats seed, report_cache)
  | none ↦ do
    seq ← ok_or (report_batch_num m.body) (missing "report batch num")
    stats ← stats_for m.block_number seq dh
    ok (Assoc.insert dh stats seed, Assoc.insert dh stats report_cache)
]

unfoldable pub seed_report_stats :
    (ℕ → ℕ → ℕ → Result L1Error BatchDataStats)
    → List DelayedMessage
    → List (ℕ × Unit {0})
    → ReportStats × ReportStats
    → Result L1Error (ReportStats × ReportStats)
unfolding seed_one
seed_report_stats stats_for [] in_range (seed, report_cache) = ok (seed, report_cache)
seed_report_stats stats_for (m ∷ ms) in_range (seed, report_cache) =
    let skip = seed_report_stats stats_for ms in_range (seed, report_cache) in
    if not (m.kind == kind_batch_posting_report) then skip else (do
      dh ← ok_or (report_data_hash m.body) (missing "report data_hash")
      (if Assoc.contains_key dh in_range || Assoc.contains_key dh seed then skip else (do
        next ← seed_one stats_for m dh (seed, report_cache)
        seed_report_stats stats_for ms in_range next)))

abbrev last_count : List (DeliveredBatch × List ℕ) → ℕ → ℕ
last_count [] count = count
last_count ((b, payload) ∷ resolved) count = last_count resolved b.event.after_delayed_messages_read

module _ {Text : Type 0} (base64_encode : List ℕ → Text) (keccak : Keccak) (codec : Codec)
    (provider : Provider) (resolve : Log → Result L1Error DeliveredBatch) (fetch : Fetch) where
  unfoldable pub derive_from_resolved_cached :
      List (DeliveredBatch × List ℕ)
      → ℕ
      → ℕ
      → ℕ
      → DelayedCache
      → ReportStats
      → Result L1Error (DerivedRange Text × DelayedCache × ReportStats)
  derive_from_resolved_cached [] to_block start_delayed_count window delayed_cache report_cache =
      ok (
        record { messages = []; next_delayed_count = start_delayed_count; batches = 0 },
        delayed_cache,
        report_cache,
      )
  derive_from_resolved_cached (r ∷ rs) to_block start_delayed_count window delayed_cache
        report_cache =
      let next = last_count (r ∷ rs) start_delayed_count in
      let (cached, in_range) = record_in_range keccak (r ∷ rs) report_cache [] in
      let assemble = assemble_feed_messages_with_seed base64_encode keccak codec (r ∷ rs) in
      if leb next start_delayed_count
      then (do
        messages ← assemble no_delayed start_delayed_count []
        ok (
          record { messages = messages; next_delayed_count = next; batches = length (r ∷ rs) },
          delayed_cache,
          cached,
        ))
      else (do
        (delayed, delayed_cache') ←
            cover fetch delayed_cache to_block start_delayed_count next window
        (seed, cached') ←
            seed_report_stats (stats_for_reported_batch keccak provider resolve)
              (Assoc.values delayed) in_range ([], cached)
        messages ← assemble (map_source delayed) start_delayed_count seed
        ok (
          record { messages = messages; next_delayed_count = next; batches = length (r ∷ rs) },
          delayed_cache',
          cached',
        ))
