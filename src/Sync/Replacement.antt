-- ===== src/Sync/Replacement.antt =====
-- crates/arb-reth-sync/src/resume.rs, `L1ResumeLog::save`, and the journal's file of
-- crates/arb-reth-node/src/commands/recover.rs: a synced sibling is renamed over the file, and then
-- the directory is synced.

-- `kept` is an error before the rename, `unsynced` one after it.
pub data Replacement : Type 0 where
  replaced : Replacement
  kept : Replacement
  unsynced : Replacement

-- The file afterwards: an error after the rename leaves the new contents in it.
unfoldable pub file_after : {A : Type 0} → Replacement → A → A → A
file_after replaced new old = new
file_after kept new old = old
file_after unsynced new old = new
