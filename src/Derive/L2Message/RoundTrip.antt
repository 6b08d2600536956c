-- ===== src/Derive/L2Message/RoundTrip.antt =====
-- Messages as trees, the bytes that stand for them, and that the parser reads them back.
use mathlib.Core.List.{append-nil, append_assoc}
use native.Mathlib.Nat.{add-zero, add_assoc}
use arbitrum_reth.Derive.L2Kind.{contract_tx, signed_compressed_tx, signed_tx, unsigned_user_tx}
use native.Mathlib.Nat.{zero-add}
use arbitrum_reth.Prelude.{
  ℕ, zero, suc, ◌+◌, ◌≤◌, ◌<◌, max, ◌≡◌, refl, sym, ap, ◌∙◌, some, List, [], ◌∷◌, ◌++◌, arith,
  length, take, drop, length-append, take-append_length, drop-append_length, drop-append,
  take-append, Result, ◌>>=◌, ok,
}
use arbitrum_reth.Prelude.Bytes.{
  from_be_bytes, to_be_bytes, from_be_bytes-to_be_bytes, length-to_be_bytes,
}
use arbitrum_reth.Derive.L2Kind
use arbitrum_reth.Derive.Rlp.{Decompress}
use arbitrum_reth.Derive.L2Message.{
  L2ParseError, ParsedL2, max_batch_depth, max_l2_message_size, empty, batch_loop, parse_into,
  parse_l2_message,
}

mutual
  pub data Msg : Type 0 where
    signed : List ℕ → Msg
    compressed : List ℕ → Msg
    unsigned : List ℕ → Msg
    contract : List ℕ → Msg
    batch : Msgs → Msg

  pub data Msgs : Type 0 where
    nil : Msgs
    cons : Msg → Msgs → Msgs

unfoldable mutual
  pub txs : Msg → List (List ℕ)
  txs (signed tx) = tx ∷ []
  txs (compressed tx) = tx ∷ []
  txs (unsigned body) = []
  txs (contract body) = []
  txs (batch ms) = all_txs ms

  pub all_txs : Msgs → List (List ℕ)
  all_txs nil = []
  all_txs (cons m ms) = txs m ++ all_txs ms

unfoldable mutual
  pub unsigned_in : Msg → ℕ
  unsigned_in (signed tx) = 0
  unsigned_in (compressed tx) = 0
  unsigned_in (unsigned body) = 1
  unsigned_in (contract body) = 1
  unsigned_in (batch ms) = all_unsigned ms

  pub all_unsigned : Msgs → ℕ
  all_unsigned nil = 0
  all_unsigned (cons m ms) = unsigned_in m + all_unsigned ms

-- How many batches stand inside one another.
unfoldable mutual
  pub nesting : Msg → ℕ
  nesting (signed tx) = 0
  nesting (compressed tx) = 0
  nesting (unsigned body) = 0
  nesting (contract body) = 0
  nesting (batch ms) = suc (deepest ms)

  pub deepest : Msgs → ℕ
  deepest nil = 0
  deepest (cons m ms) = max (nesting m) (deepest ms)

module _ (compress : List ℕ → List ℕ) where
  unfoldable mutual
    pub encode : Msg → List ℕ
    encode (signed tx) = L2Kind.signed_tx ∷ tx
    encode (compressed tx) = L2Kind.signed_compressed_tx ∷ compress tx
    encode (unsigned body) = L2Kind.unsigned_user_tx ∷ body
    encode (contract body) = L2Kind.contract_tx ∷ body
    encode (batch ms) = L2Kind.batch ∷ frames ms

    pub frames : Msgs → List ℕ
    frames nil = []
    frames (cons m ms) = to_be_bytes 8 (length (encode m)) ++ (encode m ++ frames ms)

  -- Every frame of every batch is within the size that the parser accepts.
  unfoldable mutual
    pub Fits : Msg → Type 0
    Fits (signed tx) = Unit {0}
    Fits (compressed tx) = Unit {0}
    Fits (unsigned body) = Unit {0}
    Fits (contract body) = Unit {0}
    Fits (batch ms) = AllFit ms

    pub AllFit : Msgs → Type 0
    AllFit nil = Unit {0}
    AllFit (cons m ms) = (length (encode m) ≤ max_l2_message_size) × (Fits m × AllFit ms)

-- What a message adds to the parser's output.
abbrev added : List (List ℕ) → ℕ → ParsedL2 → ParsedL2
added ts n out = record {
  signed_txs = out.signed_txs ++ ts;
  unsigned_count = out.unsigned_count + n;
}

-- One round of the loop over a well-formed frame.
module _ (parse : List ℕ → ParsedL2 → Result L2ParseError ParsedL2) (fuel : ℕ)
    (out : ParsedL2) where
  round :
      (rd body : List ℕ) (len : ℕ)
      → from_be_bytes (take 8 rd) ≡ len
      → drop 8 rd ≡ body
      → 8 ≤ length rd
      → len ≤ max_l2_message_size
      → len ≤ length body
      → batch_loop parse (suc fuel) rd out
        ≡ (parse (take len body) out >>= λ out'. batch_loop parse fuel (drop len body) out')
  unfolding batch_loop
  round rd body len e f long small within = rw (e, f) (ground arith)

  frame_step :
      (sub rest : List ℕ)
      → length sub ≤ max_l2_message_size
      → batch_loop parse (suc fuel) (to_be_bytes 8 (length sub) ++ (sub ++ rest)) out
        ≡ (parse sub out >>= λ out'. batch_loop parse fuel rest out')
  frame_step sub rest h =
      round _ (sub ++ rest) (length sub)
        (ap from_be_bytes (take-append (to_be_bytes 8 (length sub)) (sub ++ rest) 8 (sym prefix))
          ∙ from_be_bytes-to_be_bytes 8 (length sub) (omega arith))
        (drop-append (to_be_bytes 8 (length sub)) (sub ++ rest) 8 0 (omega (arith, prefix)))
        (omega (arith, prefix, length-append (to_be_bytes 8 (length sub)) (sub ++ rest))) h
        (omega (arith, length-append sub rest))
      ∙ rw (take-append_length sub rest, drop-append_length sub rest)
    where
      prefix : length (to_be_bytes 8 (length sub)) ≡ 8
      prefix = length-to_be_bytes 8 (length sub)

loop_end :
    (parse : List ℕ → ParsedL2 → Result L2ParseError ParsedL2) (fuel : ℕ) (out : ParsedL2)
    → batch_loop parse fuel [] out ≡ ok out
unfolding batch_loop
loop_end parse zero out = refl
loop_end parse (suc fuel) out = refl

added_none : (out : ParsedL2) → out ≡ added [] 0 out
added_none out = λ i. record {
  signed_txs = sym (append-nil out.signed_txs) i;
  unsigned_count = sym (add-zero out.unsigned_count) i;
}

added_twice :
    (xs ys : List (List ℕ)) (n k : ℕ) (out : ParsedL2)
    → added ys k (added xs n out) ≡ added (xs ++ ys) (n + k) out
added_twice xs ys n k out = λ i. record {
  signed_txs = append_assoc out.signed_txs xs ys i;
  unsigned_count = add_assoc out.unsigned_count n k i;
}

length-frame :
    (xs ys : List ℕ)
    → length (to_be_bytes 8 (length xs) ++ (xs ++ ys)) ≡ 8 + (length xs + length ys)
length-frame xs ys = omega (
  arith,
  length-to_be_bytes 8 (length xs),
  length-append (to_be_bytes 8 (length xs)) (xs ++ ys),
  length-append xs ys,
)

module _ (decompress : Decompress) (compress : List ℕ → List ℕ)
    (law : (tx : List ℕ) → decompress (compress tx) ≡ some tx) where
  mutual
    unfolding encode frames txs all_txs unsigned_in all_unsigned nesting deepest Fits AllFit
        parse_into

    parse_into-encode :
        (m : Msg) (fuel depth : ℕ) (out : ParsedL2)
        → Fits compress m
        → nesting m + depth ≤ max_batch_depth
        → nesting m < fuel
        → parse_into decompress fuel (encode compress m) depth out
          ≡ ok (added (txs m) (unsigned_in m) out)
    parse_into-encode m zero depth out fit d f = absurd (omega arith)
    parse_into-encode (signed tx) (suc fuel) depth out fit d f =
        ground (arith, add-zero out.unsigned_count)
    parse_into-encode (compressed tx) (suc fuel) depth out fit d f =
        rw (law tx) (ground (arith, add-zero out.unsigned_count))
    parse_into-encode (unsigned body) (suc fuel) depth out fit d f =
        ground (arith, append-nil out.signed_txs)
    parse_into-encode (contract body) (suc fuel) depth out fit d f =
        ground (arith, append-nil out.signed_txs)
    parse_into-encode (batch ms) (suc fuel) depth out fit d f = ground (
      arith,
      batch_loop-frames ms fuel (length (frames compress ms)) depth out fit (omega arith)
          (omega arith) (omega arith),
    )

    batch_loop-frames :
        (ms : Msgs) (fuel rounds depth : ℕ) (out : ParsedL2)
        → AllFit compress ms
        → deepest ms + (depth + 1) ≤ max_batch_depth
        → deepest ms < fuel
        → length (frames compress ms) ≤ rounds
        → batch_loop
            (λ sub out'. parse_into decompress fuel sub (depth + 1) out')
            rounds
            (frames compress ms)
            out
          ≡ ok (added (all_txs ms) (all_unsigned ms) out)
    batch_loop-frames nil fuel rounds depth out fit d f r =
        loop_end (λ sub out'. parse_into decompress fuel sub (depth + 1) out') rounds out
        ∙ ap ok (added_none out)
    batch_loop-frames (cons m ms) fuel zero depth out fit d f r =
        absurd (omega (arith, r, length-frame (encode compress m) (frames compress ms)))
    batch_loop-frames (cons m ms) fuel (suc rounds) depth out (small, (fit, fits)) d f r =
        frame_step (λ sub out'. parse_into decompress fuel sub (depth + 1) out') rounds out
          (encode compress m) (frames compress ms) small
        ∙ rw (parse_into-encode m fuel (depth + 1) out fit (omega arith) (omega arith)) (
            batch_loop-frames ms fuel rounds depth (added (txs m) (unsigned_in m) out) fits
              (omega arith) (omega arith)
              (omega (arith, r, length-frame (encode compress m) (frames compress ms)))
            ∙ ap ok (added_twice (txs m) (all_txs ms) (unsigned_in m) (all_unsigned ms) out))

  -- For a decompressor that undoes `compress`: a message of any shape, whose frames are within the
  -- size limit and which is nested at most sixteen batches deep, parses to exactly the signed
  -- transactions in it, in order, and the number of its unsigned messages.
  pub parse_l2_message-encode :
      (m : Msg)
      → Fits compress m
      → nesting m ≤ max_batch_depth
      → parse_l2_message decompress (encode compress m)
        ≡ ok (record { signed_txs = txs m; unsigned_count = unsigned_in m })
  unfolding parse_l2_message
  parse_l2_message-encode m fit d =
      parse_into-encode m (max_batch_depth + 1) 0 empty fit (omega arith) (omega arith)
      ∙ ap ok (λ i. record { signed_txs = txs m; unsigned_count = zero-add (unsigned_in m) i })
