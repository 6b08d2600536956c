-- ===== src/Prelude/Bytes.antt =====
-- Byte strings as lists of numbers: big-endian words, as `u64::from_be_bytes`, `to_be_bytes` and
-- the 32-byte words of `U256` read and write them.
use Prim.Native.Nat.{ℕ, zero, suc, ◌+◌, ◌*◌, ◌/◌, ◌%◌, ◌^◌, ◌<◌}
use mathlib.Core.Path.{◌≡◌, refl, sym, ap, ◌∙◌}
use mathlib.Core.List.{List, [], ◌∷◌, ◌++◌}
use native.Mathlib.Omega.{arith}
use native.Mathlib.Nat.{pow-suc}
use arbitrum_reth.Prelude.Lists.{
  length, length-append, All, All-append, take, drop, take_all, drop_all, drop-append_le,
}

abbrev pub IsByte : ℕ → Type 0
IsByte b = b < 256

abbrev pub IsU64 : ℕ → Type 0
IsU64 v = v < 2 ^ 64

be_value : ℕ → List ℕ → ℕ
be_value acc [] = acc
be_value acc (b ∷ bs) = be_value (acc * 256 + b) bs

unfoldable pub from_be_bytes : List ℕ → ℕ
unfolding be_value
from_be_bytes bs = be_value 0 bs

-- The `w` low bytes of `v`, the highest first.
unfoldable pub to_be_bytes : ℕ → ℕ → List ℕ
to_be_bytes zero v = []
to_be_bytes (suc w) v = to_be_bytes w (v / 256) ++ (v % 256 ∷ [])

pub length-to_be_bytes : (w v : ℕ) → length (to_be_bytes w v) ≡ w
unfolding to_be_bytes
length-to_be_bytes zero v = refl
length-to_be_bytes (suc w) v =
    omega (
      arith,
      length-to_be_bytes w (v / 256),
      length-append (to_be_bytes w (v / 256)) (v % 256 ∷ []),
    )

pub to_be_bytes-IsByte : (w v : ℕ) → All IsByte (to_be_bytes w v)
unfolding to_be_bytes
to_be_bytes-IsByte zero v = tt
to_be_bytes-IsByte (suc w) v =
    All-append IsByte (to_be_bytes w (v / 256)) (v % 256 ∷ []) (to_be_bytes-IsByte w (v / 256))
      (omega arith)

be_value-append :
    (acc : ℕ) (xs ys : List ℕ) → be_value acc (xs ++ ys) ≡ be_value (be_value acc xs) ys
unfolding be_value
be_value-append acc [] ys = refl
be_value-append acc (x ∷ xs) ys = be_value-append (acc * 256 + x) xs ys

-- Writing then reading gives the number back, where it fits the width.
pub from_be_bytes-to_be_bytes : (w v : ℕ) → v < 256 ^ w → from_be_bytes (to_be_bytes w v) ≡ v
unfolding from_be_bytes to_be_bytes be_value
from_be_bytes-to_be_bytes zero v h = omega arith
from_be_bytes-to_be_bytes (suc w) v h =
    be_value-append 0 (to_be_bytes w (v / 256)) (v % 256 ∷ [])
    ∙ omega (arith, from_be_bytes-to_be_bytes w (v / 256) (omega (arith, h, pow-suc 256 w)))

-- The low bytes of a wide word are the narrow word.
pub drop-to_be_bytes : (w k n v : ℕ) → n ≡ k + w → drop k (to_be_bytes n v) ≡ to_be_bytes w v
unfolding to_be_bytes
drop-to_be_bytes zero k n v h = drop_all (to_be_bytes n v) k (omega (arith, length-to_be_bytes n v))
drop-to_be_bytes (suc w) k zero v h = absurd (omega arith)
drop-to_be_bytes (suc w) k (suc n) v h =
    drop-append_le (to_be_bytes n (v / 256)) (v % 256 ∷ []) k
      (omega (arith, length-to_be_bytes n (v / 256)))
    ∙ ap (λ bs. bs ++ (v % 256 ∷ [])) (drop-to_be_bytes w k n (v / 256) (omega arith))

-- A u64 in a 32-byte word is read from the word's last eight bytes.
pub low_u64-to_be_bytes :
    (v : ℕ) → IsU64 v → from_be_bytes (take 8 (drop 24 (to_be_bytes 32 v))) ≡ v
low_u64-to_be_bytes v h =
    ap (λ bs. from_be_bytes (take 8 bs)) (drop-to_be_bytes 8 24 32 v (omega arith))
    ∙ ap from_be_bytes (
        ap (λ n. take n (to_be_bytes 8 v)) (sym (length-to_be_bytes 8 v))
        ∙ take_all (to_be_bytes 8 v))
    ∙ from_be_bytes-to_be_bytes 8 v (omega arith)

pub low_byte-to_be_bytes :
    (v : ℕ) → IsByte v → from_be_bytes (take 1 (drop 31 (to_be_bytes 32 v))) ≡ v
low_byte-to_be_bytes v h =
    ap (λ bs. from_be_bytes (take 1 bs)) (drop-to_be_bytes 1 31 32 v (omega arith))
    ∙ ap from_be_bytes (
        ap (λ n. take n (to_be_bytes 1 v)) (sym (length-to_be_bytes 1 v))
        ∙ take_all (to_be_bytes 1 v))
    ∙ from_be_bytes-to_be_bytes 1 v (omega arith)
