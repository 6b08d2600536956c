-- ===== src/L1/Reader/Search.antt =====
-- The binary search over the batch counts, on a provider that answers.
use arbitrum_reth.Prelude.{
  ℕ, zero, suc, ◌+◌, ◌-◌, ◌/◌, ◌≤◌, ◌<◌, ◌≡◌, inl, inr, arith, ltb, leb, Bool-cases, Result, ok,
}
use arbitrum_reth.L1.Errors.{L1Error}
use arbitrum_reth.L1.Reader.{Provider, batch_count, search_loop, first_block_with_batch_count_above}

subst_count : (c : ℕ → ℕ) {lo hi have : ℕ} → lo ≡ hi → have < c hi → have < c lo
subst_count c e h = rw e h

search_loop-IsFirst :
    (count : ℕ → Result L1Error ℕ) (c : ℕ → ℕ) (answers : (b : ℕ) → count b ≡ ok (c b))
    (rises : (a b : ℕ) → a ≤ b → c a ≤ c b) (fuel lo hi have : ℕ)
    → hi - lo ≤ fuel
    → lo ≤ hi
    → have < c hi
    → (r : ℕ) × (search_loop count fuel lo hi have ≡ ok r)
      × (lo ≤ r)
      × (r ≤ hi)
      × (have < c r)
      × ((b : ℕ) → lo ≤ b → b < r → c b ≤ have)
unfolding search_loop
search_loop-IsFirst count c answers rises zero lo hi have enough le above =
    let e : lo ≡ hi = omega arith in
    (lo, ground arith, omega arith, le, subst_count c e above, λ b p q. absurd (omega arith))
search_loop-IsFirst count c answers rises (suc fuel) lo hi have enough le above =
    let mid = lo + (hi - lo) / 2 in
    elim (Bool-cases (ltb lo hi)) [
      | inr f ↦
          let e : lo ≡ hi = ground arith in
          (lo, ground arith, omega arith, le, subst_count c e above, λ b p q. absurd (omega arith))
      | inl t ↦
          let below : mid < hi = ground arith in
          elim (Bool-cases (ltb have (c mid))) [
            | inl u ↦
                let (r, run, p, q, w, first) =
                  search_loop-IsFirst count c answers rises fuel lo mid have (omega arith)
                    (omega arith) (ground arith) in
                (r, rw (t, answers mid, u) run, p, omega arith, w, first)
            | inr u ↦
                let (r, run, p, q, w, first) =
                  search_loop-IsFirst count c answers rises fuel (mid + 1) hi have (omega arith)
                    (omega arith) above in
                (
                  r,
                  rw (t, answers mid, u) run,
                  omega arith,
                  q,
                  w,
                  λ b x y. elim (Bool-cases (leb b mid)) [
                    | inl v ↦ let k = rises b mid (ground arith) in ground (arith, k)
                    | inr v ↦ first b (ground arith) y
                  ],
                )
          ]
    ]

-- On a provider that answers every `batchCount()` call with a count that never falls, the search
-- from `lo` to `hi` returns, when the count at `hi` exceeds `have`: its block lies in the range, its
-- count exceeds `have`, and no earlier block of the range has such a count.
pub first_block_with_batch_count_above-IsFirst :
    (provider : Provider) (c : ℕ → ℕ) (answers : (b : ℕ) → batch_count provider b ≡ ok (c b))
    (rises : (a b : ℕ) → a ≤ b → c a ≤ c b) (lo hi have : ℕ)
    → lo ≤ hi
    → have < c hi
    → (r : ℕ) × (first_block_with_batch_count_above provider lo hi have ≡ ok r)
      × (lo ≤ r)
      × (r ≤ hi)
      × (have < c r)
      × ((b : ℕ) → lo ≤ b → b < r → c b ≤ have)
unfolding first_block_with_batch_count_above
first_block_with_batch_count_above-IsFirst provider c answers rises lo hi have le above =
    search_loop-IsFirst (batch_count provider) c answers rises (hi - lo) lo hi have (omega arith) le
      above
