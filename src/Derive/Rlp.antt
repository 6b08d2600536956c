-- ===== src/Derive/Rlp.antt =====
-- What the code calls of the crates alloy-rlp and brotli, which are not part of the repository:
-- functions that the definitions take as arguments, and the documented laws that theorems assume.
use arbitrum_reth.Prelude.{ℕ, ◌+◌, ◌≤◌, ◌<◌, ◌≡◌, List, ◌++◌, Bool, false, Option, some, length}

-- `alloy_rlp::Header`.
pub record RlpHeader : Type 0 where
  pub list : Bool
  pub payload_length : ℕ

-- `Header::decode(&mut buf)`: the header and the bytes left in `buf`.
abbrev pub HeaderDecode : Type 0
HeaderDecode = List ℕ → Option (RlpHeader × List ℕ)

-- `brotli::decompress(body, Dictionary::Empty)`.
abbrev pub Decompress : Type 0
Decompress = List ℕ → Option (List ℕ)

-- A decoded header leaves a part of the input. Only that of a single byte below 0x80, whose payload
-- is that byte, leaves all of it.
abbrev pub Consumes : HeaderDecode → Type 0
Consumes decode =
    (buf : List ℕ) (h : RlpHeader) (rest : List ℕ)
    → decode buf ≡ some (h, rest)
    → (length rest ≤ length buf) × (length rest < length buf + h.payload_length)

-- `encode` writes a byte string as one RLP item, and `decode` reads its header back.
abbrev pub Encodes : HeaderDecode → (List ℕ → List ℕ) → Type 0
Encodes decode encode =
    (bytes tail : List ℕ)
    → (decode (encode bytes ++ tail)
        ≡ some (record { list = false; payload_length = length bytes }, bytes ++ tail))
      × (length bytes ≤ length (encode bytes))
      × (0 < length (encode bytes))
