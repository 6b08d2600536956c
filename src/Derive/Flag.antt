-- ===== src/Derive/Flag.antt =====
-- crates/arb-reth-derive/src/batch.rs, `flag`: the first byte of a payload.
use arbitrum_reth.Prelude.{ℕ}

abbrev pub brotli : ℕ
brotli = 0x00

abbrev pub da_certificate : ℕ
da_certificate = 0x01

abbrev pub anytrust_tree : ℕ
anytrust_tree = 0x08

abbrev pub zeroheavy : ℕ
zeroheavy = 0x20

abbrev pub l1_authenticated : ℕ
l1_authenticated = 0x40

abbrev pub blob_hashes : ℕ
blob_hashes = 0x50

abbrev pub anytrust : ℕ
anytrust = 0x80
