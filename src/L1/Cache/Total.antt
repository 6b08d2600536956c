-- ===== src/L1/Cache/Total.antt =====
-- The loops of the delayed scan end, whatever the provider answers.
use arbitrum_reth.Prelude.Assoc.{contains_key}
use arbitrum_reth.Prelude.{
  ℕ, zero, suc, ◌+◌, ◌-◌, ◌<◌, max, ◌≢◌, inl, inr, ◌||◌, [], arith, leb, ◌==◌, Bool-cases,
  >>=-ne-stuck, stuck,
}
use arbitrum_reth.Prelude.Assoc
use arbitrum_reth.L1.Cache.{
  Fetch, Messages, DelayedCache, covers, walk_back, fetch_delayed_map_covering, scan_chunks,
  scan_range, insert_messages,
}

module _ (fetch : Fetch) (answers : (lo hi : ℕ) → fetch lo hi ≢ stuck) where
  walk_back-ne-stuck :
      (fuel hi need_from need_to window : ℕ) (acc : Messages)
      → hi < fuel
      → walk_back fetch fuel hi need_from need_to window acc ≢ stuck
  unfolding walk_back
  walk_back-ne-stuck zero hi need_from need_to window acc h = absurd (omega arith)
  walk_back-ne-stuck (suc fuel) hi need_from need_to window acc h =
      >>=-ne-stuck _ _ (answers _ _) (λ ms run.
        let acc' = insert_messages ms acc in
        elim (Bool-cases
          (Assoc.contains_key need_from acc' || covers acc' need_from (need_to - need_from))) [
            | inl t ↦ rw t (λ p. cc)
            | inr f ↦ elim (Bool-cases (hi - (window - 1) == 0)) [
              | inl t ↦ rw (f, t) (λ p. cc)
              | inr g ↦
                  rw (f, g)
                    (walk_back-ne-stuck fuel (hi - (window - 1) - 1) need_from need_to window acc'
                      (ground arith))
            ]
          ])

  scan_chunks-ne-stuck :
      (fuel lo chunk_hi window : ℕ) (msgs : Messages)
      → chunk_hi - lo < fuel
      → scan_chunks fetch fuel lo chunk_hi window msgs ≢ stuck
  unfolding scan_chunks
  scan_chunks-ne-stuck zero lo chunk_hi window msgs h = absurd (omega arith)
  scan_chunks-ne-stuck (suc fuel) lo chunk_hi window msgs h =
      >>=-ne-stuck _ _ (answers _ _) (λ ms run.
        let chunk_lo = max (chunk_hi - (window - 1)) lo in
        elim (Bool-cases (chunk_lo == lo)) [
          | inl t ↦ rw t (λ p. cc)
          | inr f ↦ rw f (
              scan_chunks-ne-stuck fuel lo (chunk_lo - 1) window (insert_messages ms msgs)
                (ground arith))
        ])

  scan_range-ne-stuck :
      (cache : DelayedCache) (lo hi window : ℕ) → scan_range fetch cache lo hi window ≢ stuck
  unfolding scan_range
  scan_range-ne-stuck cache lo hi window =
      >>=-ne-stuck _ _
        (scan_chunks-ne-stuck (hi - lo + 1) lo hi (max window 1) cache.msgs (omega arith))
        (λ msgs run p. cc)

  -- On a provider whose scans come back, with messages or with an error, the backward scan for the
  -- delayed messages of a range ends: with the map or with an error, for every window and range.
  pub fetch_delayed_map_covering-ne-stuck :
      (to_block need_from need_to window : ℕ)
      → fetch_delayed_map_covering fetch to_block need_from need_to window ≢ stuck
  unfolding fetch_delayed_map_covering
  fetch_delayed_map_covering-ne-stuck to_block need_from need_to window =
      elim (Bool-cases (leb need_to need_from)) [
        | inl t ↦ rw t (λ p. cc)
        | inr f ↦ rw f (
            >>=-ne-stuck _ _
              (walk_back-ne-stuck (to_block + 1) to_block need_from need_to (max window 1) []
                (omega arith))
              (λ acc run. elim (Bool-cases (covers acc need_from (need_to - need_from))) [
                | inl c ↦ rw c (λ p. cc)
                | inr c ↦ rw c (λ p. cc)
              ]))
      ]
