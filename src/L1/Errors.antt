-- ===== src/L1/Errors.antt =====
-- crates/arb-reth-l1/src/lib.rs, `L1Error`. The ABI decoder's error has no detail here.
use Prim.Native.String.{String}
use arbitrum_reth.Prelude.{ℕ, List}
use arbitrum_reth.Derive.Batch.{BatchError}
use arbitrum_reth.Derive.Multiplexer.{MultiplexerError}

pub data L1Error : Type 0 where
  calldata_too_short : ℕ → L1Error
  unknown_selector : List ℕ → L1Error
  abi : L1Error
  batch : BatchError → L1Error
  mux : MultiplexerError → L1Error
  blob : String → L1Error
  unsupported_data_location : ℕ → L1Error
  missing : String → L1Error
  rpc : String → L1Error
