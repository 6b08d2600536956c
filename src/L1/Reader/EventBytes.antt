-- ===== src/L1/Reader/EventBytes.antt =====
-- The ABI-encoded `bytes` of a log's data, read back.
use arbitrum_reth.Prelude.{
  ℕ, ◌+◌, ◌≡◌, refl, sym, ap, ◌∙◌, List, ◌++◌, arith, length, take, drop, length-append,
  drop-append, take-append, take-drop-append, ok,
}
use arbitrum_reth.Prelude.Bytes.{
  from_be_bytes, to_be_bytes, IsU64, length-to_be_bytes, from_be_bytes-to_be_bytes,
}
use arbitrum_reth.L1.Reader.{decode_event_bytes}
use arbitrum_reth.L1.Delayed.{parse_inbox_message_data}

-- `abi.encode(bytes)`: the offset of the length word, the length word, the body and the padding.
abbrev pub abi_bytes : List ℕ → List ℕ → List ℕ
abi_bytes body pad = to_be_bytes 32 32 ++ (to_be_bytes 32 (length body) ++ (body ++ pad))

length-word :
    (body pad : List ℕ)
    → IsU64 (length body)
    → from_be_bytes (take 32 (drop 32 (abi_bytes body pad))) ≡ length body
length-word body pad fits =
    rw
      (take-drop-append (to_be_bytes 32 32) (to_be_bytes 32 (length body)) (body ++ pad) 32 32
        (sym (length-to_be_bytes 32 32)) (sym (length-to_be_bytes 32 (length body))))
      (from_be_bytes-to_be_bytes 32 (length body) (omega (arith, fits)))

body_part : (body pad : List ℕ) → take (length body) (drop 64 (abi_bytes body pad)) ≡ body
body_part body pad =
    ap (take (length body)) (
      drop-append (to_be_bytes 32 32) (to_be_bytes 32 (length body) ++ (body ++ pad)) 64 32
        (omega (arith, length-to_be_bytes 32 32))
      ∙ drop-append (to_be_bytes 32 (length body)) (body ++ pad) 32 0
          (omega (arith, length-to_be_bytes 32 (length body))))
    ∙ take-append body pad (length body) refl

length-abi_bytes :
    (body pad : List ℕ) → length (abi_bytes body pad) ≡ 64 + (length body + length pad)
length-abi_bytes body pad = omega (arith, length-append {0}, length-to_be_bytes)

-- An ABI-encoded byte string, however it is padded, is read back from a `SequencerBatchData` event
-- and from an `InboxMessageDelivered` event, when its length is a u64.
pub decode_event_bytes-abi_bytes :
    (body pad : List ℕ)
    → IsU64 (length body)
    → (decode_event_bytes (abi_bytes body pad) ≡ ok body)
      × (parse_inbox_message_data (abi_bytes body pad) ≡ ok body)
unfolding decode_event_bytes parse_inbox_message_data
decode_event_bytes-abi_bytes body pad fits =
    let e = length-word body pad fits in
    let f = body_part body pad in
    let g = length-abi_bytes body pad in
    (rw (e, f) (ground (arith, g)), rw (e, f) (ground (arith, g)))
