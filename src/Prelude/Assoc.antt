-- ===== src/Prelude/Assoc.antt =====
-- Finite maps with number keys, the source's `BTreeMap`s: association lists in ascending order of
-- the keys. The laws of `lookup` need no order.
use Prim.Native.Nat.{ℕ, suc, ◌≤◌}
use arbitrum_reth.Prelude.Lists.{length}
use mathlib.Core.Path.{◌≡◌, refl}
use mathlib.Core.Logic.{inl, inr}
use mathlib.Core.Bool.{Bool, true, false}
use mathlib.Core.Option.{Option, none, some}
use mathlib.Core.List.{List, [], ◌∷◌}
use native.Mathlib.Omega.{arith}
use arbitrum_reth.Prelude.Tests.{Bool-cases, ◌==◌, ltb, if◌then◌else◌}

module _ {ℓ} {V : Type ℓ} where
  unfoldable pub lookup : ℕ → List (ℕ × V) → Option V
  lookup wanted [] = none
  lookup wanted ((key, value) ∷ rest) =
      let later = lookup wanted rest in if key == wanted then some value else later

  unfoldable pub insert : ℕ → V → List (ℕ × V) → List (ℕ × V)
  insert new value [] = (new, value) ∷ []
  insert new value ((key, old) ∷ rest) =
      let later = insert new value rest in
      if new == key
      then (new, value) ∷ rest
      else if ltb new key
      then (new, value) ∷ (key, old) ∷ rest
      else (key, old) ∷ later

  unfoldable pub contains_key : ℕ → List (ℕ × V) → Bool
  unfolding lookup
  contains_key k m = elim (lookup k m) [ none ↦ false | some v ↦ true ]

  -- `retain(|&k, _| k >= floor)`.
  unfoldable pub retain_from : ℕ → List (ℕ × V) → List (ℕ × V)
  retain_from floor [] = []
  retain_from floor ((j, v) ∷ m) =
      if ltb j floor then retain_from floor m else (j, v) ∷ retain_from floor m

  unfoldable pub remove : ℕ → List (ℕ × V) → List (ℕ × V)
  remove old [] = []
  remove old ((key, value) ∷ rest) =
      let later = remove old rest in if key == old then later else (key, value) ∷ later

  unfoldable pub values : List (ℕ × V) → List V
  values [] = []
  values ((j, v) ∷ m) = v ∷ values m

  pub lookup-insert :
      (new wanted : ℕ) (value : V) (entries : List (ℕ × V))
      → lookup wanted (insert new value entries)
        ≡ (if new == wanted then some value else lookup wanted entries)
  unfolding insert lookup
  lookup-insert new wanted value [] = refl
  lookup-insert new wanted value ((key, old) ∷ rest) =
      let ih = lookup-insert new wanted value rest in ground (arith, ih)

  pub lookup-retain_from :
      (floor k : ℕ) (m : List (ℕ × V))
      → lookup k (retain_from floor m) ≡ (if ltb k floor then none else lookup k m)
  unfolding lookup retain_from
  lookup-retain_from floor k [] = ground arith
  lookup-retain_from floor k ((i, w) ∷ m) = ground (arith, lookup-retain_from floor k m)

  pub lookup-remove :
      (old k : ℕ) (m : List (ℕ × V))
      → lookup k (remove old m) ≡ (if k == old then none else lookup k m)
  unfolding lookup remove
  lookup-remove old k [] = ground arith
  lookup-remove old k ((i, w) ∷ m) = ground (arith, lookup-remove old k m)

module _ {ℓ} {V : Type ℓ} where
  pub length-insert :
      (new : ℕ) (value : V) (m : List (ℕ × V)) → length (insert new value m) ≤ suc (length m)
  unfolding insert
  length-insert new value [] = omega arith
  length-insert new value ((key, old) ∷ rest) = ground (arith, length-insert new value rest)

  pub length-remove : (old : ℕ) (m : List (ℕ × V)) → length (remove old m) ≤ length m
  unfolding remove
  length-remove old [] = omega arith
  length-remove old ((key, value) ∷ rest) = ground (arith, length-remove old rest)

  pub length-retain_from : (floor : ℕ) (m : List (ℕ × V)) → length (retain_from floor m) ≤ length m
  unfolding retain_from
  length-retain_from floor [] = omega arith
  length-retain_from floor ((key, value) ∷ rest) = ground (arith, length-retain_from floor rest)

  pub length-remove_found :
      (old : ℕ) (value : V) (m : List (ℕ × V))
      → lookup old m ≡ some value
      → suc (length (remove old m)) ≤ length m
  unfolding remove lookup
  length-remove_found old value [] found = absurd (ground arith)
  length-remove_found old value ((key, v) ∷ rest) found = elim (Bool-cases (key == old)) [
    | inl t ↦ rw t (omega (arith, length-remove old rest))
    | inr f ↦ rw f (omega (arith, length-remove_found old value rest (rw f at found)))
  ]
