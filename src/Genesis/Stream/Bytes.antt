-- ===== src/Genesis/Stream/Bytes.antt =====
-- crates/arb-reth-genesis/src/snapshot_stream.rs: the primitives of the format. A reader takes the bytes
-- that are left and gives a value and the rest of them.
use arbitrum_reth.Prelude.{
  ℕ, zero, suc, ◌+◌, ◌-◌, ◌*◌, ◌%◌, ◌^◌, Bool, true, false, not, ◌&&◌, ◌||◌, Option, none, some,
  List, [], ◌∷◌, ltb, leb, ◌==◌, if◌then◌else◌, length, take, drop, Result, ◌>>=◌, ok, err, stuck,
}
use arbitrum_reth.Prelude.Bytes.{from_be_bytes}

pub data StreamError : Type 0 where
  read_failed : StreamError
  varint_overflow : StreamError
  integer_too_wide : ℕ → StreamError
  bad_magic : StreamError
  bad_body : StreamError
  not_the_manifest : ℕ → StreamError
  expected_blocks : ℕ → StreamError
  invalid_tag : ℕ → ℕ → StreamError
  code_hash_mismatch : StreamError
  header_hash_mismatch : ℕ → StreamError
  above_convert_point : ℕ → StreamError
  bad_header : ℕ → StreamError
  blocks_jump : ℕ → ℕ → StreamError
  wrong_parent : ℕ → StreamError
  unsupported_version : ℕ → StreamError
  does_not_advance : ℕ → ℕ → StreamError
  root_chain_broken : ℕ → StreamError
  no_history : StreamError
  history_ends_early : ℕ → StreamError
  root_mismatch : StreamError

abbrev pub Read : Type 0 → Type 0
Read A = List ℕ → Result StreamError (A × List ℕ)

unfoldable pub read_u8 : Read ℕ
read_u8 [] = err read_failed
read_u8 (b ∷ bs) = ok (b, bs)

-- `read_exact`.
unfoldable pub read_exact : ℕ → Read (List ℕ)
read_exact n bs = if leb n (length bs) then ok (take n bs, drop n bs) else err read_failed

unfoldable pub read_b256 : Read ℕ
unfolding read_exact
read_b256 bs = read_exact 32 bs >>= λ (word, rest). ok (from_be_bytes word, rest)

-- The groups of seven bits, the lowest first; `|=` adds a group, since the value is below it. The
-- shift drops the bits that do not fit.
unfoldable pub uvarint_loop : ℕ → ℕ → Read ℕ
uvarint_loop shift value [] = err read_failed
uvarint_loop shift value (b ∷ bs) =
    let value' = value + (b % 128 * 2 ^ shift) % 2 ^ 64 in
    let more = uvarint_loop (shift + 7) value' bs in
    if ltb b 128 then ok (value', bs) else if leb 64 (shift + 7) then err varint_overflow else more

unfoldable pub read_uvarint : Read ℕ
unfolding uvarint_loop
read_uvarint bs = uvarint_loop 0 0 bs

unfoldable pub read_short_bytes : Read (List ℕ)
unfolding read_u8 read_exact
read_short_bytes bs = read_u8 bs >>= λ (len, rest). read_exact len rest

unfoldable pub read_short_u256 : Read ℕ
unfolding read_short_bytes
read_short_u256 bs = read_short_bytes bs >>= λ (bytes, rest).
    if ltb 32 (length bytes)
    then err (integer_too_wide (length bytes))
    else ok (from_be_bytes bytes, rest)

unfoldable pub read_blob : Read (List ℕ)
unfolding read_uvarint read_exact
read_blob bs = read_uvarint bs >>= λ (len, rest). read_exact len rest

-- `(!code_hash.is_empty()).then(|| B256::from_slice(&code_hash))`: `from_slice` panics unless there
-- are 32 bytes, which is `stuck`.
unfoldable pub optional_b256 : List ℕ → Result StreamError (Option ℕ)
optional_b256 [] = ok none
optional_b256 (b ∷ bs) = if length (b ∷ bs) == 32 then ok (some (from_be_bytes (b ∷ bs))) else stuck

-- `blob.get(from..to)`.
unfoldable pub get_range : List ℕ → ℕ → ℕ → Option (List ℕ)
get_range blob from to =
    if leb from to && leb to (length blob) then some (take (to - from) (drop from blob)) else none

unfoldable pub be_usize : ℕ → List ℕ → ℕ
be_usize n [] = n
be_usize n (b ∷ bs) = be_usize ((n * 256) % 2 ^ 64 + b) bs

-- The length of the item's header and of its payload.
unfoldable pub rlp_lengths : List ℕ → ℕ → Option (ℕ × ℕ)
unfolding get_range be_usize
rlp_lengths blob prefix =
    if ltb prefix 0x80
    then some (0, 1)
    else if ltb prefix 0xb8
    then some (1, prefix - 0x80)
    else if ltb prefix 0xc0
    then long (prefix - 0xb7)
    else if ltb prefix 0xf8
    then some (1, prefix - 0xc0)
    else long (prefix - 0xf7)
  where
    long : ℕ → Option (ℕ × ℕ)
    long n = elim (get_range blob 1 (1 + n)) [
      | none ↦ none
      | some bytes ↦ some (1 + n, be_usize 0 bytes)
    ]

-- An item of the wanted kind, and what is behind it. The sum of the lengths wraps.
unfoldable pub rlp_item : List ℕ → Bool → ℕ → ℕ × ℕ → Option (List ℕ × List ℕ)
unfolding get_range
rlp_item blob want_list prefix (header, len) =
    let end = (header + len) % 2 ^ 64 in
    if leb 0xc0 prefix && not want_list || not (leb 0xc0 prefix) && want_list
    then none
    else elim (get_range blob header end) [
      | none ↦ none
      | some payload ↦ some (payload, drop end blob)
    ]

unfoldable pub rlp_split : List ℕ → Bool → Option (List ℕ × List ℕ)
unfolding rlp_lengths rlp_item
rlp_split [] want_list = none
rlp_split (prefix ∷ bs) want_list = elim (rlp_lengths (prefix ∷ bs) prefix) [
  | none ↦ none
  | some lengths ↦ rlp_item (prefix ∷ bs) want_list prefix lengths
]

-- The payload of the field behind `index` others.
unfoldable pub nth_field : ℕ → List ℕ → Option (List ℕ)
unfolding rlp_split
nth_field zero cursor = elim (rlp_split cursor false) [
  | none ↦ none
  | some (payload, rest) ↦ some payload
]
nth_field (suc index) cursor = elim (rlp_split cursor false) [
  | none ↦ none
  | some (payload, next) ↦ nth_field index next
]

unfoldable pub header_field : List ℕ → ℕ → Option (List ℕ)
unfolding rlp_split nth_field
header_field rlp index = elim (rlp_split rlp true) [
  | none ↦ none
  | some (cursor, []) ↦ nth_field index cursor
  | some (cursor, b ∷ rest) ↦ none
]
