-- ===== src/Genesis/Stream/Varint.antt =====
-- crates/arb-reth-genesis/src/snapshot_stream.rs: put_uvarint, and the number that read_uvarint reads
-- back.
use native.Mathlib.Nat.{pow-suc, add-mul, mul_assoc, mul_comm, mul-le-mul_right, pow-le-pow_right}
use arbitrum_reth.Prelude.{
  ℕ, zero, suc, ◌+◌, ◌*◌, ◌/◌, ◌%◌, ◌^◌, ◌≤◌, ◌<◌, ◌≡◌, refl, ap, ◌∙◌, inl, inr, true, false, List,
  [], ◌∷◌, ◌++◌, arith, ltb, leb, Bool-cases, Result, ◌>>=◌, ok, stuck,
}
use arbitrum_reth.Genesis.Stream.Bytes.{StreamError, uvarint_loop, read_uvarint}

-- Each round divides by 128, so the number is enough fuel.
unfoldable pub put_loop : ℕ → ℕ → Result StreamError (List ℕ)
put_loop zero v = stuck
put_loop (suc fuel) v = elim (ltb v 0x80) [
  | true ↦ ok (v ∷ [])
  | false ↦ put_loop fuel (v / 128) >>= λ bs. ok ((v % 128 + 128) ∷ bs)
]

unfoldable pub put_uvarint : ℕ → Result StreamError (List ℕ)
unfolding put_loop
put_uvarint v = put_loop (suc v) v

-- What is put at a shift, and what is read from it.
abbrev Reads : ℕ → ℕ → ℕ → ℕ → Type 0
Reads fuel v shift value =
    (bs : List ℕ) × (put_loop fuel v ≡ ok bs)
    × ((rest : List ℕ) → uvarint_loop shift value (bs ++ rest) ≡ ok (value + v * 2 ^ shift, rest))

mod_small : (n : ℕ) → n < 2 ^ 64 → n % 2 ^ 64 ≡ n
mod_small n h = omega arith

pow_step : (s t : ℕ) → t ≡ suc s → 2 ^ t ≡ 2 ^ s * 2
pow_step s t next = ap (λ n. 2 ^ n) next ∙ pow-suc 2 s

pow_seven : (s : ℕ) → 2 ^ (s + 7) ≡ 2 ^ s * 128
pow_seven s = omega (
  arith,
  pow_step s (s + 1) (omega arith),
  pow_step (s + 1) (s + 2) (omega arith),
  pow_step (s + 2) (s + 3) (omega arith),
  pow_step (s + 3) (s + 4) (omega arith),
  pow_step (s + 4) (s + 5) (omega arith),
  pow_step (s + 5) (s + 6) (omega arith),
  pow_step (s + 6) (s + 7) (omega arith),
)

pow_below : (s : ℕ) → 2 ^ s < 2 ^ 64 → s < 64
pow_below s h = elim (Bool-cases (ltb s 64)) [
  | inl t ↦ ground arith
  | inr f ↦
      let above : 64 ≤ s = ground arith in
      let more : 2 ^ 64 ≤ 2 ^ s = pow-le-pow_right (omega arith) above in absurd (omega arith)
]

split_mul : (v p : ℕ) → v * p ≡ (v % 128) * p + (v / 128) * (p * 128)
split_mul v p =
    let parts : v ≡ v % 128 + (v / 128) * 128 = omega arith in
    ap (λ n. n * p) parts
    ∙ add-mul (v % 128) ((v / 128) * 128) p
    ∙ grind (arith, mul_assoc (v / 128) 128 p, mul_comm 128 p)

put_loop-Reads :
    (fuel v shift value : ℕ) → v < fuel → v * 2 ^ shift < 2 ^ 64 → Reads fuel v shift value
unfolding put_loop uvarint_loop
put_loop-Reads zero v shift value enough fits = absurd (omega arith)
put_loop-Reads (suc fuel) v shift value enough fits = elim (Bool-cases (ltb v 128)) [
  | inl t ↦
      let small : v < 128 = ground arith in
      let eb : v % 128 ≡ v = omega arith in
      (
        v ∷ [],
        rw (t, put_loop) refl,
        λ rest. rw (t, eb, uvarint_loop, mod_small (v * 2 ^ shift) fits) refl,
      )
  | inr f ↦
      let large : 128 ≤ v = ground arith in
      let shifted = ap (λ p. v / 128 * p) (pow_seven shift) in
      let split = split_mul v (2 ^ shift) in
      let fits' : v / 128 * 2 ^ (shift + 7) < 2 ^ 64 = omega arith in
      let one_more : 1 * 2 ^ (shift + 7) ≤ v / 128 * 2 ^ (shift + 7) =
        mul-le-mul_right (2 ^ (shift + 7)) (omega arith) in
      let room : shift + 7 < 64 = pow_below (shift + 7) (omega arith) in
      let value' = value + v % 128 * 2 ^ shift in
      let (bs, put, read) = put_loop-Reads fuel (v / 128) (shift + 7) value' (omega arith) fits' in
      let going : ltb (v % 128 + 128) 128 ≡ false = ground arith in
      let open_ : leb 64 (shift + 7) ≡ false = ground arith in
      let group : (v % 128 + 128) % 128 ≡ v % 128 = omega arith in
      let kept = mod_small (v % 128 * 2 ^ shift) (omega arith) in
      let sum : value' + v / 128 * 2 ^ (shift + 7) ≡ value + v * 2 ^ shift = omega arith in
      (
        (v % 128 + 128) ∷ bs,
        rw (f, put_loop, put) refl,
        λ rest.
            rw (group, going, open_, kept, uvarint_loop) (read rest ∙ ap (λ n. ok (n, rest)) sum),
      )
]

-- A number below 2^64 is put, and what is put is read back with the bytes behind it left.
pub read_uvarint-put_uvarint :
    (v : ℕ) (rest : List ℕ)
    → v < 2 ^ 64
    → (bs : List ℕ) × (put_uvarint v ≡ ok bs) × (read_uvarint (bs ++ rest) ≡ ok (v, rest))
unfolding put_uvarint read_uvarint
read_uvarint-put_uvarint v rest fits =
    let (bs, put, read) = put_loop-Reads (suc v) v 0 0 (omega arith) (omega arith) in
    (bs, put, read rest ∙ ap (λ n. ok (n, rest)) (omega arith))
