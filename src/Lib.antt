-- ===== src/Lib.antt =====
-- A verification library for arbitrum-reth, an Arbitrum execution client whose L2 chain is derived
-- from L1. It models the pure core of the derivation and of the catch-up that drives it, the race
-- of the sequencer feeds, the engine driver that turns messages into blocks, the stopped
-- recovery, and the reader of a snapshot.
--
-- The program's parts and how they interact:
-- - crates/arb-reth-derive decodes one sequencer batch: header, brotli payload, RLP segments, then
--   the multiplexer walks the segments and takes delayed messages from a source. Files:
--   Derive/Batch (batch.rs), Derive/Flag, Derive/SegmentKind, Derive/DataLocation (the constants
--   of batch.rs), Derive/Message (message.rs), Derive/Delayed (delayed.rs), Derive/Multiplexer
--   (multiplexer.rs), Derive/L2Kind and Derive/L2Message (l2message.rs).
-- - crates/arb-reth-l1 reads batches and delayed messages from L1 and turns a range of L1 into
--   feed messages. Files: L1/Errors and L1/Decode (lib.rs), L1/Batches and L1/Reader (reader.rs),
--   L1/Serialize (batch_serialize.rs), L1/Feed (feed.rs), L1/Assemble (assemble.rs), L1/Delayed
--   (delayed.rs), L1/Cache and L1/Range (sync.rs).
-- - crates/arb-reth-sync runs the catch-up. Files: Sync/Resume (resume.rs), Sync/Replacement (how
--   its save replaces the file, as the recovery's journal does), and of l1_sync.rs Sync/Errors (its
--   errors), Sync/Plan (the prefetch pipeline of run_l1_sync), Sync/Deliver
--   (enqueue_derived_window), Sync/Checkpoint (maybe_write_checkpoint), Sync/Backoff (RetryBackoff)
--   and Sync/Supervise (progress, resume_config, supervise_l1_sync_with_backoff).
-- - crates/arb-reth-node feeds the engine from sockets. Files, both of feed.rs: Node/Feed
--   (SequenceRace and coordinate) and Node/Sources (expand_feed_sources and the delays).
-- - crates/arb-reth-engine applies the messages of both producers. Files: Engine/Sequence and
--   below it (engine.rs: advance_with_applied_inner and what it calls). Reth's engine tree,
--   payload builder and provider are a record of answers, each of which may depend on all the
--   requests before it.
-- - crates/arb-reth-node recovers a stopped node: commands/recover.rs. Files: Recover/Journal (the
--   journal and its tests), Recover (the run under the lock), Recover/Start (the choice of the
--   checkpoint and the journal's creation); the proofs are below Recover. What a crash leaves is a
--   Disk, and a run keeps every Disk that it passed through.
-- - crates/arb-reth-genesis reads a snapshot: snapshot_stream.rs, in Genesis/Stream/Format (tags
--   and records), Genesis/Stream (sections and checks), Genesis/Stream/Bytes (the format's
--   primitives and the fields of an RLP header), Genesis/Stream/Varint (put_uvarint) and
--   Genesis/Stream/Transactions (transactions_root); the inner reader is the list of the bytes that
--   are left, and keccak256 and the root of a trie are parameters.
-- Prelude holds what they share: tests on numbers, lists, byte strings, maps and Rust's Result.
--
-- Conventions: a u8, u64 or U256 is a native number, with wrapping written out where the source
-- wraps and the bounds as hypotheses of the theorems; counters of messages and blocks do not reach
-- 2^64. A hash or an address is the number that its bytes write, a Vec is a list, a BTreeMap is an
-- association list in ascending order. `?` is the bind of Prelude/Results. Mutated state is passed
-- along. An await is a call; a channel is a test whether its receiver is open at the n-th send.
--
-- Fuel: a while loop takes fuel, and running out of it is the result `stuck`, which is no value of
-- the program; so is a panic of from_slice in Genesis/Stream/Bytes. parse_segments gets the length
-- of its input, since every round takes a byte; drain the distance of the cursor to the count;
-- parse_into one more than the depth limit and its inner loop the length; the binary search the
-- length of its range; the backward scan the number of blocks down to 0; scan_range the number of
-- blocks of the range; extend_back the lowest scanned block; the driver's drain the number of the
-- buffered messages, and Engine/Sequence/Chain shows that it is enough; put_uvarint one more than
-- its number; transactions_root the bytes of its list.
--
-- Not modelled: brotli, ABI decoding, the decoding of transactions, the root of a trie, keccak256,
-- base64, the RPC and beacon clients and the file system, which are parameters; metrics, logs and
-- the text of errors; and the crates of the execution side (the rest of arb-reth-engine,
-- arb-reth-node and arb-reth-genesis, arb-reth-evm, arb-reth-rpc), most of which is the node's glue
-- to reth.
pub mod Prelude
pub mod Derive
pub mod Sync
pub mod L1
pub mod Engine
pub mod Genesis
pub mod Node
pub mod Recover
