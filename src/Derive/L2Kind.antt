-- ===== src/Derive/L2Kind.antt =====
-- crates/arb-reth-derive/src/l2message.rs, `l2_kind`: the first byte of an L2 message.
use arbitrum_reth.Prelude.{ℕ}

abbrev pub unsigned_user_tx : ℕ
unsigned_user_tx = 0

abbrev pub contract_tx : ℕ
contract_tx = 1

abbrev pub nonmutating_call : ℕ
nonmutating_call = 2

abbrev pub batch : ℕ
batch = 3

abbrev pub signed_tx : ℕ
signed_tx = 4

abbrev pub signed_compressed_tx : ℕ
signed_compressed_tx = 7
