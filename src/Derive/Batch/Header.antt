-- ===== src/Derive/Batch/Header.antt =====
-- The time-bounds header and the event data, read back from their bytes.
use mathlib.Core.List.{append_assoc}
use arbitrum_reth.Prelude.{
  ℕ, ◌+◌, ◌≤◌, ◌<◌, ◌≡◌, sym, ap, ◌∙◌, ◌↔◌, List, ◌++◌, arith, length, take, drop, length-append,
  drop-append, take-append, ok, err,
}
use arbitrum_reth.Prelude.Bytes.{
  IsU64, from_be_bytes, to_be_bytes, length-to_be_bytes, from_be_bytes-to_be_bytes,
}
use arbitrum_reth.Derive.Batch.{BatchHeader, parse, u64_at, truncated}

-- The five numbers of a header as big-endian u64s, in order.
unfoldable pub header_bytes : BatchHeader → List ℕ
header_bytes h =
    to_be_bytes 8 h.min_timestamp
    ++ (to_be_bytes 8 h.max_timestamp
        ++ (to_be_bytes 8 h.min_l1_block
            ++ (to_be_bytes 8 h.max_l1_block ++ to_be_bytes 8 h.after_delayed_messages)))

pub record IsU64Header (h : BatchHeader) : Type 0 where
  pub min_timestamp_fits : IsU64 h.min_timestamp
  pub max_timestamp_fits : IsU64 h.max_timestamp
  pub min_l1_block_fits : IsU64 h.min_l1_block
  pub max_l1_block_fits : IsU64 h.max_l1_block
  pub after_delayed_fits : IsU64 h.after_delayed_messages

-- A field of eight bytes at the front, and the step over such a field.
u64_at_front : (v : ℕ) (rest : List ℕ) → IsU64 v → u64_at (to_be_bytes 8 v ++ rest) 0 ≡ v
u64_at_front v rest h =
    ap from_be_bytes (take-append (to_be_bytes 8 v) rest 8 (sym (length-to_be_bytes 8 v)))
    ∙ from_be_bytes-to_be_bytes 8 v (omega arith)

drop_field :
    (w v n k : ℕ) (rest : List ℕ) → n ≡ w + k → drop n (to_be_bytes w v ++ rest) ≡ drop k rest
drop_field w v n k rest h =
    drop-append (to_be_bytes w v) rest n k (omega (arith, length-to_be_bytes w v))

u64_at_later :
    (w v n k : ℕ) (rest : List ℕ) → n ≡ w + k → u64_at (to_be_bytes w v ++ rest) n ≡ u64_at rest k
u64_at_later w v n k rest h = ap (λ bytes. from_be_bytes (take 8 bytes)) (drop_field w v n k rest h)

-- The same fields in front of what follows them.
abbrev fields : ℕ → ℕ → ℕ → ℕ → ℕ → List ℕ → List ℕ
fields a b c d e rest =
    to_be_bytes 8 a
    ++ (to_be_bytes 8 b ++ (to_be_bytes 8 c ++ (to_be_bytes 8 d ++ (to_be_bytes 8 e ++ rest))))

header_bytes-fields :
    (h : BatchHeader) (rest : List ℕ)
    → header_bytes h ++ rest
      ≡ fields h.min_timestamp h.max_timestamp h.min_l1_block h.max_l1_block
          h.after_delayed_messages rest
unfolding header_bytes
header_bytes-fields h rest = simp append_assoc

module _ (a b c d e : ℕ) (rest : List ℕ) where
  length-fields : length (fields a b c d e rest) ≡ 40 + length rest
  length-fields = omega (arith, length-append {0}, length-to_be_bytes)

  drop-fields : drop 40 (fields a b c d e rest) ≡ rest
  drop-fields =
      drop_field 8 a 40 32 _ (omega arith)
      ∙ drop_field 8 b 32 24 _ (omega arith)
      ∙ drop_field 8 c 24 16 _ (omega arith)
      ∙ drop_field 8 d 16 8 _ (omega arith)
      ∙ drop_field 8 e 8 0 _ (omega arith)

  at_8 : IsU64 b → u64_at (fields a b c d e rest) 8 ≡ b
  at_8 h = u64_at_later 8 a 8 0 _ (omega arith) ∙ u64_at_front b _ h

  at_16 : IsU64 c → u64_at (fields a b c d e rest) 16 ≡ c
  at_16 h =
      u64_at_later 8 a 16 8 _ (omega arith)
      ∙ u64_at_later 8 b 8 0 _ (omega arith)
      ∙ u64_at_front c _ h

  at_24 : IsU64 d → u64_at (fields a b c d e rest) 24 ≡ d
  at_24 h =
      u64_at_later 8 a 24 16 _ (omega arith)
      ∙ u64_at_later 8 b 16 8 _ (omega arith)
      ∙ u64_at_later 8 c 8 0 _ (omega arith)
      ∙ u64_at_front d _ h

  at_32 : IsU64 e → u64_at (fields a b c d e rest) 32 ≡ e
  at_32 h =
      u64_at_later 8 a 32 24 _ (omega arith)
      ∙ u64_at_later 8 b 24 16 _ (omega arith)
      ∙ u64_at_later 8 c 16 8 _ (omega arith)
      ∙ u64_at_later 8 d 8 0 _ (omega arith)
      ∙ u64_at_front e _ h

parse_long :
    (bytes rest : List ℕ) (h : BatchHeader)
    → 40 ≤ length bytes
    → u64_at bytes 0 ≡ h.min_timestamp
    → u64_at bytes 8 ≡ h.max_timestamp
    → u64_at bytes 16 ≡ h.min_l1_block
    → u64_at bytes 24 ≡ h.max_l1_block
    → u64_at bytes 32 ≡ h.after_delayed_messages
    → drop 40 bytes ≡ rest
    → parse bytes ≡ ok (h, rest)
unfolding parse
parse_long bytes rest h len p0 p1 p2 p3 p4 p5 = ground arith

-- `parse` reads back each of the five fields and leaves what follows the header.
pub parse-header_bytes :
    (h : BatchHeader) (rest : List ℕ)
    → IsU64Header h
    → parse (header_bytes h ++ rest) ≡ ok (h, rest)
parse-header_bytes h rest fits = rw header_bytes-fields (
    parse_long _ rest h (omega (arith, length-fields a b c d e rest))
      (u64_at_front a _ fits.min_timestamp_fits) (at_8 a b c d e rest fits.max_timestamp_fits)
      (at_16 a b c d e rest fits.min_l1_block_fits) (at_24 a b c d e rest fits.max_l1_block_fits)
      (at_32 a b c d e rest fits.after_delayed_fits) (drop-fields a b c d e rest))
  where
    open h use {
      min_timestamp as a, max_timestamp as b, min_l1_block as c, max_l1_block as d,
      after_delayed_messages as e,
    }

-- `parse` fails exactly on fewer than 40 bytes, and then with `truncated`.
pub parse_short : (bytes : List ℕ) → (parse bytes ≡ err truncated) ↔ (length bytes < 40)
unfolding parse
parse_short bytes = ground arith
