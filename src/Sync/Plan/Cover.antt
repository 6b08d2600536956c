-- ===== src/Sync/Plan/Cover.antt =====
-- The windows of the pipeline cover the L1 blocks in order, and the gate skips no batch: for a
-- provider that answers with a batch count that never falls.
use mathlib.Core.List.{append-nil, append_assoc}
use arbitrum_reth.L1.Reader.Search.{first_block_with_batch_count_above-IsFirst}
use Prim.Native.String.{String}
use arbitrum_reth.Prelude.{
  ℕ, zero, suc, ◌+◌, ◌-◌, ◌≤◌, ◌<◌, min, max, ◌≡◌, refl, sym, ap, ◌∙◌, inl, inr, true, false, ◌||◌,
  List, [], ◌∷◌, ◌++◌, arith, ltb, ◌==◌, Bool-cases, Option-cases, length, ok,
}
use arbitrum_reth.L1.Reader.{Provider, batch_count}
use arbitrum_reth.Sync.Plan.{
  Inflight, Gate, Pipeline, fill_slots, fill, plan_step, count_at, barren_to, scan_hi, push_back,
  past_end,
}

-- The batches posted before a block.
abbrev pub batches_before : (ℕ → ℕ) → ℕ → ℕ
batches_before c zero = 0
batches_before c (suc n) = c n

batches_before_next : (c : ℕ → ℕ) (n : ℕ) → batches_before c (n + 1) ≡ c n
batches_before_next c n = let e : n + 1 ≡ suc n = omega arith in ap (batches_before c) e

batches_before-le :
    (c : ℕ → ℕ)
    → ((a b : ℕ) → a ≤ b → c a ≤ c b)
    → (from to : ℕ) → from ≤ to
    → batches_before c from ≤ c to
batches_before-le c rises zero to h = omega arith
batches_before-le c rises (suc n) to h = rises n to (omega arith)

-- Where the counts differ, the blocks do.
strict_of : (c : ℕ → ℕ) (a b : ℕ) → a ≤ b → c a < c b → a < b
strict_of c a b h k = elim (Bool-cases (a == b)) [
  | inl t ↦ let e : a ≡ b = ground (arith, t) in let f = ap c e in absurd (omega (arith, f))
  | inr f ↦ ground arith
]

-- No batch up to `to`, when its last block is `win_to` or has a low count.
low_until :
    (c : ℕ → ℕ) (win_to to low : ℕ)
    → win_to ≤ to
    → c win_to ≤ low
    → (win_to < to → c to ≤ low)
    → c to ≤ low
low_until c win_to to low h base far = elim (Bool-cases (win_to == to)) [
  | inl t ↦ let e : win_to ≡ to = ground (arith, t) in let f = ap c e in omega (arith, f)
  | inr f ↦ far (ground arith)
]

-- A window at `from` up to `hi`: a window that is not scanned delivers no batch.
abbrev pub Fits : (ℕ → ℕ) → ℕ → ℕ → Inflight → Type 0
Fits c from hi w =
    (w.from ≡ from)
    × (from ≤ w.to)
    × (w.to ≤ hi)
    × (w.scan ≡ false → c w.to ≡ batches_before c from)

-- A run of windows that covers the blocks from `from` up to, and not with, `end`.
abbrev pub Covers : (ℕ → ℕ) → ℕ → ℕ → List Inflight → ℕ → Type 0
Covers c from hi [] end = from ≡ end
Covers c from hi (w ∷ ws) end = Fits c from hi w × Covers c (w.to + 1) hi ws end

module _ (provider : Provider) (gate : Gate) (c : ℕ → ℕ)
    (answers : (b : ℕ) → batch_count provider b ≡ ok (c b)) (rises : (a b : ℕ) → a ≤ b → c a ≤ c b)
    (head : gate.head_batch_count ≡ c gate.safe_head) where
  count_at-eq : (what : String) (b : ℕ) → count_at provider gate what b ≡ ok (c b)
  unfolding count_at
  count_at-eq what b = elim (Bool-cases (b == gate.safe_head)) [
    | inl t ↦ let e : b ≡ gate.safe_head = ground arith in rw (t, head, e) refl
    | inr f ↦ rw (f, answers b) refl
  ]

  barren_to-Fits :
      (from win_to : ℕ)
      → from ≤ win_to
      → win_to ≤ scan_hi gate
      → c win_to ≡ batches_before c from
      → (to : ℕ) × (barren_to provider gate win_to (batches_before c from) (c (scan_hi gate))
          ≡ ok to)
        × (win_to ≤ to)
        × (to ≤ scan_hi gate)
        × (c to ≡ batches_before c from)
  unfolding barren_to
  barren_to-Fits from win_to p q e = elim (Bool-cases (c (scan_hi gate) == batches_before c from)) [
    | inl t ↦ (scan_hi gate, rw t refl, q, omega arith, ground arith)
    | inr f ↦
        let k = rises win_to (scan_hi gate) q in
        let below : win_to < scan_hi gate =
          strict_of c win_to (scan_hi gate) q (ground (arith, k)) in
        let (r, run, u, v, w, first) =
          first_block_with_batch_count_above-IsFirst provider c answers rises (win_to + 1)
            (scan_hi gate) (batches_before c from) (omega arith) (ground (arith, k)) in
        let le = rises win_to (r - 1) (omega arith) in
        let high =
          low_until c win_to (r - 1) (batches_before c from) (omega arith) (omega arith)
            (λ far. first (r - 1) (omega arith) (omega arith)) in
        (r - 1, rw (f, run) refl, omega arith, omega arith, omega arith)
  ]

  plan_step-Fits :
      (from : ℕ)
      → from ≤ scan_hi gate
      → (w : Inflight) × (plan_step provider gate from (batches_before c from) ≡ ok (w, c w.to))
        × Fits c from (scan_hi gate) w
  unfolding plan_step
  plan_step-Fits from le =
      let win_to = min (from + max gate.batch_window 1 - 1) (scan_hi gate) in
      let up = batches_before-le c rises from win_to (omega arith) in
      elim (Bool-cases (ltb (batches_before c from) (c win_to))) [
        | inl t ↦ (
          record { from = from; to = win_to; scan = true },
          rw (count_at-eq "batchCount(win_to)" win_to, t) refl,
          (refl, omega arith, omega arith, λ q. cc),
        )
        | inr f ↦
            let (to, run, p, q, e) =
              barren_to-Fits from win_to (omega arith) (omega arith) (ground arith) in
            (
              record { from = from; to = to; scan = false },
              rw
                  (
                    count_at-eq "batchCount(win_to)" win_to,
                    f,
                    count_at-eq "batchCount(scan_hi)" (scan_hi gate),
                    run,
                    e,
                  )
                  refl,
              (refl, omega arith, q, λ s. e),
            )
      ]

  in_range :
      (cursor : ℕ)
      → ltb gate.safe_head cursor || past_end gate cursor ≡ false
      → cursor ≤ scan_hi gate
  in_range cursor h = elim (Option-cases gate.end_block) [
    | inl e ↦ rw e (ground arith)
    | inr (end_block, e) ↦ rw e (ground arith)
  ]

  fill_slots-Covers :
      (free : ℕ) (s : Pipeline)
      → s.seen_batch_count ≡ batches_before c s.spawn_cursor
      → (ws : List Inflight) × (t : Pipeline) × (fill_slots provider gate free s ≡ ok t)
        × (t.inflight ≡ s.inflight ++ ws)
        × Covers c s.spawn_cursor (scan_hi gate) ws t.spawn_cursor
        × (t.seen_batch_count ≡ batches_before c t.spawn_cursor)
  unfolding fill_slots
  fill_slots-Covers zero s seen = ([], s, refl, sym (append-nil s.inflight), refl, seen)
  fill_slots-Covers (suc free) s seen =
      elim (Bool-cases (ltb gate.safe_head s.spawn_cursor || past_end gate s.spawn_cursor)) [
        | inl t ↦ ([], s, rw t refl, sym (append-nil s.inflight), refl, seen)
        | inr f ↦
            let (w, run, fits) = plan_step-Fits s.spawn_cursor (in_range s.spawn_cursor f) in
            let next = push_back s (w, c w.to) in
            let (ws, t, more, grows, covers, e) =
              fill_slots-Covers free next (sym (batches_before_next c w.to)) in
            (
              w ∷ ws,
              t,
              rw (f, seen, run) more,
              grows ∙ append_assoc s.inflight (w ∷ []) ws,
              (fits, covers),
              e,
            )
      ]

  -- On a provider that answers with a count that never falls, and a gate that has seen the batches
  -- before its cursor, filling the pipeline succeeds. The windows that it adds cover the L1 blocks
  -- from the old cursor to the new one with no gap and no overlap, stay within the safe head and the
  -- end block, and a window that is not scanned delivered no batch. The gate is right again after.
  pub fill-Covers :
      (prefetch_windows : ℕ) (s : Pipeline)
      → s.seen_batch_count ≡ batches_before c s.spawn_cursor
      → (ws : List Inflight) × (t : Pipeline) × (fill provider gate prefetch_windows s ≡ ok t)
        × (t.inflight ≡ s.inflight ++ ws)
        × Covers c s.spawn_cursor (scan_hi gate) ws t.spawn_cursor
        × (t.seen_batch_count ≡ batches_before c t.spawn_cursor)
  unfolding fill
  fill-Covers prefetch_windows s seen =
      fill_slots-Covers (max prefetch_windows 1 - length s.inflight) s seen
