-- ===== src/Recover/Journal.antt =====
-- crates/arb-reth-node/src/commands/recover.rs: the recovery journal and the tests on it. A hash, an
-- address, a URL and a state root are only compared, so each is a number.
use arbitrum_reth.Prelude.{
  ℕ, Bool, true, false, ◌&&◌, Option, none, some, List, [], ◌∷◌, ltb, leb, ◌==◌, if◌then◌else◌,
  Result, ok, err,
}
use arbitrum_reth.Sync.Resume.{L1ResumeCheckpoint, L1ResumeLog, truncate_to}

pub data Phase : Type 0 where
  prepared : Phase
  unwound : Phase
  resume_truncated : Phase
  frontier_matched : Phase
  failed : Phase

pub record RecoveryIdentity : Type 0 where
  pub chain_id : ℕ
  pub genesis_block : ℕ
  pub genesis_hash : ℕ
  pub sequencer_inbox : ℕ
  pub bridge : ℕ
  pub canonical_l2_rpc : ℕ
  pub l1_rpc : ℕ
  pub l1_beacon : ℕ
  pub l1_end_block : ℕ
  pub max_recovery_l2_blocks : ℕ
  pub l1_prefetch : ℕ
  pub l1_getlogs_range : ℕ

pub record Incident : Type 0 where
  pub schema_version : ℕ
  pub effective_chain_id : ℕ
  pub l2_block_number : ℕ
  pub local_hash : ℕ
  pub canonical_hash : ℕ
  pub local_state_root : ℕ
  pub canonical_state_root : ℕ
  pub detected_at_unix_secs : ℕ

pub record HeaderObservation : Type 0 where
  pub number : ℕ
  pub hash : ℕ
  pub state_root : ℕ

pub record RecoveryJournal : Type 0 where
  pub schema_version : ℕ
  pub identity : RecoveryIdentity
  pub incident : Incident
  pub checkpoint : L1ResumeCheckpoint
  pub truncated_resume : L1ResumeLog
  pub original_tip : ℕ
  pub target : ℕ
  pub frontier : ℕ
  pub phase : Phase

-- `RecoveryAuthorityError`, without its texts.
pub data RecoveryAuthorityError : Type 0 where
  unavailable : RecoveryAuthorityError
  malformed : RecoveryAuthorityError
  mismatch : RecoveryAuthorityError

-- The errors of a run; `io_failed` is one of the files or of the database.
pub data Fault : Type 0 where
  io_failed : Fault
  authority : RecoveryAuthorityError → Fault
  unsupported_schema : ℕ → Fault
  journal_missing : Fault
  identity_changed : Fault
  illegal_transition : Phase → Phase → Fault
  terminally_failed : Fault
  incompatible_tip : ℕ → Fault
  checkpoint_not_retained : Fault
  truncation_mismatch : Fault
  resume_mismatch : Fault
  wrong_phase : Phase → Fault
  unwind_missed : ℕ → Fault
  frontier_missing : Fault
  tip_not_frontier : ℕ → Fault
  frontier_mismatch : Fault
  rebuilt_mismatch : Fault
  unrecorded : Fault → Fault
  no_checkpoint : Fault
  span_exceeded : ℕ → Fault
  not_below_frontier : Fault
  another_incident : Fault
  another_identity : Fault
  another_target : Fault
  tip_below_frontier : ℕ → Fault
  below_genesis : Fault

unfoldable pub is_authority_error : Fault → Bool
is_authority_error (authority e) = true
is_authority_error _ = false

abbrev pub same_checkpoint : L1ResumeCheckpoint → L1ResumeCheckpoint → Bool
same_checkpoint a b =
    a.l1_block == b.l1_block && (a.delayed_count == b.delayed_count && a.l2_block == b.l2_block)

unfoldable pub same_checkpoints : List L1ResumeCheckpoint → List L1ResumeCheckpoint → Bool
same_checkpoints [] [] = true
same_checkpoints (a ∷ as') (b ∷ bs) = same_checkpoint a b && same_checkpoints as' bs
same_checkpoints _ _ = false

abbrev pub same_log : L1ResumeLog → L1ResumeLog → Bool
same_log a b = same_checkpoints a.checkpoints b.checkpoints

abbrev pub same_identity : RecoveryIdentity → RecoveryIdentity → Bool
same_identity a b =
    a.chain_id == b.chain_id
    && (a.genesis_block == b.genesis_block
        && (a.genesis_hash == b.genesis_hash
            && (a.sequencer_inbox == b.sequencer_inbox
                && (a.bridge == b.bridge
                    && (a.canonical_l2_rpc == b.canonical_l2_rpc
                        && (a.l1_rpc == b.l1_rpc
                            && (a.l1_beacon == b.l1_beacon
                                && (a.l1_end_block == b.l1_end_block
                                    && (a.max_recovery_l2_blocks == b.max_recovery_l2_blocks
                                        && (a.l1_prefetch == b.l1_prefetch
                                            && a.l1_getlogs_range == b.l1_getlogs_range))))))))))

abbrev pub same_incident : Incident → Incident → Bool
same_incident a b =
    a.schema_version == b.schema_version
    && (a.effective_chain_id == b.effective_chain_id
        && (a.l2_block_number == b.l2_block_number
            && (a.local_hash == b.local_hash
                && (a.canonical_hash == b.canonical_hash
                    && (a.local_state_root == b.local_state_root
                        && (a.canonical_state_root == b.canonical_state_root
                            && a.detected_at_unix_secs == b.detected_at_unix_secs))))))

-- `exact`.
unfoldable pub exact : HeaderObservation → HeaderObservation → Bool
exact a b = a.number == b.number && (a.hash == b.hash && a.state_root == b.state_root)

unfoldable pub same_immutable_identity : RecoveryJournal → RecoveryJournal → Bool
unfolding same_checkpoints
same_immutable_identity a b =
    a.schema_version == b.schema_version
    && (same_identity a.identity b.identity
        && (same_incident a.incident b.incident
            && (same_checkpoint a.checkpoint b.checkpoint
                && (same_log a.truncated_resume b.truncated_resume
                    && (a.original_tip == b.original_tip
                        && (a.target == b.target && a.frontier == b.frontier))))))

unfoldable pub legal_phase_transition : Phase → Phase → Bool
legal_phase_transition prepared prepared = true
legal_phase_transition prepared unwound = true
legal_phase_transition prepared failed = true
legal_phase_transition unwound unwound = true
legal_phase_transition unwound resume_truncated = true
legal_phase_transition unwound failed = true
legal_phase_transition resume_truncated resume_truncated = true
legal_phase_transition resume_truncated frontier_matched = true
legal_phase_transition resume_truncated failed = true
legal_phase_transition frontier_matched frontier_matched = true
legal_phase_transition failed failed = true
legal_phase_transition _ _ = false

pub data DurableTipAction : Type 0 where
  unwind_to_target : DurableTipAction
  at_target : DurableTipAction
  verify_frontier : DurableTipAction

unfoldable pub durable_tip_action : RecoveryJournal → ℕ → Result Fault DurableTipAction
durable_tip_action j tip = elim j.phase [
  | prepared ↦
      if leb j.target tip
      then ok (if ltb j.target tip then unwind_to_target else at_target)
      else err (incompatible_tip tip)
  | unwound ↦ if tip == j.target then ok at_target else err (incompatible_tip tip)
  | resume_truncated ↦
      if tip == j.target
      then ok at_target
      else if ltb j.target tip && ltb tip j.frontier
      then ok unwind_to_target
      else if tip == j.frontier
      then ok verify_frontier
      else err (incompatible_tip tip)
  | frontier_matched ↦ if tip == j.frontier then ok verify_frontier else err (incompatible_tip tip)
  | failed ↦ err terminally_failed
]

abbrev pub retains : Option L1ResumeCheckpoint → L1ResumeCheckpoint → Bool
retains none checkpoint = false
retains (some last) checkpoint = same_checkpoint last checkpoint

unfoldable pub truncated_resume_from : L1ResumeLog → L1ResumeCheckpoint → Result Fault L1ResumeLog
unfolding truncate_to
truncated_resume_from log checkpoint =
    let (truncated, last) = truncate_to log checkpoint.l2_block in
    if retains last checkpoint then ok truncated else err checkpoint_not_retained
