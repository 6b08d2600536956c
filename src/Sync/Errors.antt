-- ===== src/Sync/Errors.antt =====
-- crates/arb-reth-sync/src/l1_sync.rs: the failures and the end states of a sync attempt. The text
-- of an error, with its URLs redacted, is left out.
use Prim.Native.String.{String}
use arbitrum_reth.Prelude.{ℕ, Bool, true, false}
use arbitrum_reth.L1.Errors.{
  L1Error, calldata_too_short, unknown_selector, abi, batch, mux, blob, unsupported_data_location,
  missing, rpc,
}

pub data L1SyncError : Type 0 where
  provider : String → L1SyncError
  derivation : String → L1Error → L1SyncError
  invalid_rpc_url : L1SyncError
  persisted_tip : L1SyncError
  prefetch_task : ℕ → ℕ → L1SyncError
  frontier_not_reached : ℕ → ℕ → L1SyncError

pub data L1SyncCompletion : Type 0 where
  exhausted : L1SyncCompletion
  frontier_reached : ℕ → L1SyncCompletion

-- `L1SyncError::l1`: a failed request stands apart from a failed derivation.
unfoldable pub l1 : String → L1Error → L1SyncError
l1 operation (rpc detail) = provider operation
l1 operation (calldata_too_short n) = derivation operation (calldata_too_short n)
l1 operation (unknown_selector s) = derivation operation (unknown_selector s)
l1 operation abi = derivation operation abi
l1 operation (batch e) = derivation operation (batch e)
l1 operation (mux e) = derivation operation (mux e)
l1 operation (blob what) = derivation operation (blob what)
l1 operation (unsupported_data_location n) = derivation operation (unsupported_data_location n)
l1 operation (missing what) = derivation operation (missing what)

unfoldable pub is_retryable : L1SyncError → Bool
is_retryable (provider operation) = true
is_retryable (derivation operation source) = false
is_retryable invalid_rpc_url = false
is_retryable persisted_tip = false
is_retryable (prefetch_task from to) = false
is_retryable (frontier_not_reached frontier last_derived) = false
