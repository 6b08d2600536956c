-- ===== src/Sync/Backoff.antt =====
-- crates/arb-reth-sync/src/l1_sync.rs, `RetryBackoff`: the delay before the next attempt. A duration
-- is its number of nanoseconds.
use native.Mathlib.Nat.{pow-suc, mul-suc}
use arbitrum_reth.Prelude.{
  ℕ, zero, suc, ◌+◌, ◌-◌, ◌*◌, ◌/◌, ◌%◌, ◌^◌, ◌≤◌, ◌<◌, min, ◌≡◌, refl, Bool, true, arith, leb,
  if◌then◌else◌,
}

-- `Duration::MAX`.
abbrev pub duration_max : ℕ
duration_max = 2 ^ 64 * 1_000_000_000 - 1

abbrev pub retry_initial_delay : ℕ
retry_initial_delay = 1_000_000_000

pub record RetryBackoff : Type 0 where
  pub failures_without_progress : ℕ
  pub initial : ℕ
  pub maximum : ℕ

unfoldable pub new : ℕ → ℕ → RetryBackoff
new initial maximum = record { failures_without_progress = 0; initial = initial; maximum = maximum }

-- `checked_mul(..).unwrap_or(maximum).min(maximum)`.
unfoldable pub base_delay : ℕ → ℕ → ℕ → ℕ
base_delay initial maximum factor =
    if leb (initial * factor) duration_max then min (initial * factor) maximum else maximum

-- `base` with `percent` percent more, within the u64 of nanoseconds and the maximum.
unfoldable pub with_jitter : ℕ → ℕ → ℕ → ℕ
with_jitter base percent maximum =
    min (min (base + min (base * percent / 100) (2 ^ 64 - 1)) duration_max) maximum

unfoldable pub next_delay : RetryBackoff → Bool → ℕ × RetryBackoff
unfolding base_delay with_jitter
next_delay s made_progress =
    let failures = if made_progress then 0 else s.failures_without_progress in
    let after = min (failures + 1) (2 ^ 32 - 1) in
    let base = base_delay s.initial s.maximum (2 ^ min failures 31) in
    (
      with_jitter base (after * 17 % 2 ^ 32 % 21) s.maximum,
      record { failures_without_progress = after; initial = s.initial; maximum = s.maximum },
    )

le_times : (a b : ℕ) → 0 < b → a ≤ a * b
le_times a zero h = absurd (omega arith)
le_times a (suc k) h = omega (arith, mul-suc a k)

pow_pos : (n : ℕ) → 0 < 2 ^ n
pow_pos zero = omega arith
pow_pos (suc n) = omega (arith, pow_pos n, pow-suc 2 n)

-- For a maximum that is a duration, every delay lies between the smaller of the two configured
-- delays and the maximum, and the count of failures starts again after an attempt that made
-- progress.
pub next_delay_bounds :
    (s : RetryBackoff) (made_progress : Bool)
    → s.maximum ≤ duration_max
    → let (delay, t) = next_delay s made_progress in
      (min s.initial s.maximum ≤ delay)
      × (delay ≤ s.maximum)
      × (made_progress ≡ true → t.failures_without_progress ≡ 1)
unfolding next_delay base_delay with_jitter
next_delay_bounds s made_progress h =
    let failures = if made_progress then 0 else s.failures_without_progress in
    let k = le_times s.initial (2 ^ min failures 31) (pow_pos (min failures 31)) in
    (ground (arith, k), omega arith, λ e. rw e refl)
