-- ===== src/Sync/Supervise/Outcome.antt =====
-- What a supervised run does, whatever the rounds answer.
use Prim.Native.String.{String}
use arbitrum_reth.Prelude.{
  ℕ, ◌≤◌, min, ◌≡◌, refl, inl, inr, Bool, true, false, not, Option, none, some, List, [], ◌∷◌,
  arith, leb, Bool-cases, Option-cases, All, Result, Result-cases, ok, err, stuck,
}
use arbitrum_reth.Sync.Errors.{L1SyncError, L1SyncCompletion, is_retryable}
use arbitrum_reth.Sync.Resume.{L1ResumeCheckpoint, L1ResumeLog, resume_for, find_last, prefer_later}
use arbitrum_reth.Sync.Backoff
use arbitrum_reth.Sync.Backoff.{RetryBackoff, next_delay, next_delay_bounds, duration_max}
use arbitrum_reth.Sync.Supervise.{
  L1SyncConfig, Round, Supervised, checkpoint_for, resume_config, attempt_config, supervise_loop,
  supervise_l1_sync_with_backoff, after_failure, same_progress, progress,
}

-- An attempt that numbers no block behind the durable tip as derived already.
abbrev pub IsSafe : L1SyncConfig → Type 0
IsSafe cfg = cfg.start_l2_block ≤ cfg.db_tip_l2

-- A delay within the configured bounds.
abbrev pub InBounds : ℕ → ℕ → ℕ → Type 0
InBounds initial maximum delay = (min initial maximum ≤ delay) × (delay ≤ maximum)

-- Only a terminal error ends a run.
abbrev pub IsFinal : Option (Result L1SyncError L1SyncCompletion) → Type 0
IsFinal (some (err e)) = is_retryable e ≡ false
IsFinal (some (ok completion)) = Unit {0}
IsFinal (some stuck) = Unit {0}
IsFinal none = Unit {0}

abbrev pub IsTerminal : Result L1SyncError ℕ → Type 0
IsTerminal (err e) = is_retryable e ≡ false
IsTerminal (ok tip) = Unit {0}
IsTerminal stuck = Unit {0}

abbrev pub StartsBelow : ℕ → Result L1SyncError ℕ → Type 0
StartsBelow start (err e) = Unit {0}
StartsBelow start (ok tip) = start ≤ tip
StartsBelow start stuck = Unit {0}

-- The tip reads of a round fail with terminal errors only, and the tip is not below the start.
abbrev pub IsSound : ℕ → Round → Type 0
IsSound start r = IsTerminal r.tip_before × StartsBelow start r.tip_before × IsTerminal r.tip_after

abbrev pub IsGood : ℕ → ℕ → Supervised → Type 0
IsGood initial maximum s =
    All IsSafe s.attempts × All (InBounds initial maximum) s.delays × IsFinal s.result

abbrev AtMost : ℕ → Option L1ResumeCheckpoint → Type 0
AtMost tip none = Unit {0}
AtMost tip (some cp) = cp.l2_block ≤ tip

prefer_later-AtMost :
    (later : Option L1ResumeCheckpoint) (cp : L1ResumeCheckpoint) (tip : ℕ)
    → AtMost tip later
    → AtMost tip (prefer_later later cp tip)
prefer_later-AtMost none cp tip h = elim (Bool-cases (leb cp.l2_block tip)) [
  | inl t ↦ rw t (ground arith)
  | inr f ↦ rw f tt
]
prefer_later-AtMost (some later) cp tip h = h

find_last-AtMost : (cps : List L1ResumeCheckpoint) (tip : ℕ) → AtMost tip (find_last cps tip)
unfolding find_last
find_last-AtMost [] tip = tt
find_last-AtMost (cp ∷ cps) tip =
    prefer_later-AtMost (find_last cps tip) cp tip (find_last-AtMost cps tip)

checkpoint_for-AtMost :
    (cfg : L1SyncConfig) (load : String → Option L1ResumeLog) (tip : ℕ)
    → AtMost tip (checkpoint_for cfg load tip)
unfolding checkpoint_for resume_for
checkpoint_for-AtMost cfg load tip = elim (Option-cases cfg.checkpoint_path) [
  | inl e ↦ rw e tt
  | inr (path, e) ↦ elim (Option-cases (load path)) [
    | inl f ↦ rw (checkpoint_for, e, f) tt
    | inr (log, f) ↦ rw (checkpoint_for, e, f) (find_last-AtMost log.checkpoints tip)
  ]
]

-- A restart takes up at or below the durable tip.
resume_config-IsSafe :
    (base : L1SyncConfig) (load : String → Option L1ResumeLog) (tip : ℕ)
    → base.start_l2_block ≤ tip
    → IsSafe (resume_config base load tip)
unfolding resume_config
resume_config-IsSafe base load tip h =
    let g = checkpoint_for-AtMost base load tip in
    elim (Option-cases (checkpoint_for base load tip)) [
      | inl e ↦ rw (resume_config, e) h
      | inr (cp, e) ↦ rw (resume_config, e) (rw e at g)
    ]

attempt_config-IsSafe :
    (base : L1SyncConfig) (first : Bool) (r : Round) (tip : ℕ)
    → base.start_l2_block ≤ tip
    → IsSafe (attempt_config base first r tip)
unfolding attempt_config
attempt_config-IsSafe base true r tip h = h
attempt_config-IsSafe base false r tip h = resume_config-IsSafe base r.load_before tip h

module _ (base : L1SyncConfig) (initial maximum : ℕ) where
  after_failure-IsGood :
      (cfg : L1SyncConfig) (r : Round) (tip : ℕ) (backoff : RetryBackoff)
      (again : RetryBackoff → Supervised)
      → IsSafe cfg
      → IsTerminal r.tip_after
      → maximum ≤ duration_max
      → backoff.initial ≡ initial
      → backoff.maximum ≡ maximum
      → ((next : RetryBackoff)
          → next.initial ≡ initial
          → next.maximum ≡ maximum
          → IsGood initial maximum (again next))
      → IsGood initial maximum (after_failure base cfg r tip backoff again)
  unfolding next_delay
  after_failure-IsGood cfg r tip backoff again safe final cap ei em more =
      elim (Result-cases r.tip_after) [
        | inl (t, e) ↦
            let made =
              not
                (same_progress (progress base r.load_after t) (progress base r.load_before tip)) in
            let (low, high, reset) = next_delay_bounds backoff made (omega arith) in
            let ih = more (next_delay backoff made).1 ei em in
            let inside : InBounds initial maximum (next_delay backoff made).0 =
              (omega arith, omega arith) in
            elim (Bool-cases r.waited) [
              | inl w ↦ rw (e, w) ((safe, ih.0), (inside, ih.1), ih.2)
              | inr w ↦ rw (e, w) ((safe, tt), (inside, tt), tt)
            ]
        | inr (inl (x, e)) ↦ rw e ((safe, tt), tt, rw e at final)
        | inr (inr e) ↦ rw e ((safe, tt), tt, tt)
      ]

  supervise_loop-IsGood :
      (first : Bool) (backoff : RetryBackoff) (rounds : List Round)
      → maximum ≤ duration_max
      → backoff.initial ≡ initial
      → backoff.maximum ≡ maximum
      → All (IsSound base.start_l2_block) rounds
      → IsGood initial maximum (supervise_loop base first backoff rounds)
  unfolding supervise_loop
  supervise_loop-IsGood first backoff [] cap ei em sound = (tt, tt, tt)
  supervise_loop-IsGood first backoff (r ∷ rounds) cap ei em ((final, starts, final_after), sound) =
      elim (Result-cases r.tip_before) [
        | inr (inl (x, e)) ↦ rw e (tt, tt, rw e at final)
        | inr (inr e) ↦ rw e (tt, tt, tt)
        | inl (tip, e) ↦
            let safe = attempt_config-IsSafe base first r tip (rw e at starts) in
            elim (Option-cases r.attempt) [
              | inl a ↦ rw (e, a) ((safe, tt), tt, tt)
              | inr (result, a) ↦ elim (Result-cases result) [
                | inl (c, k) ↦ rw (e, a, k) ((safe, tt), tt, tt)
                | inr (inr k) ↦ rw (e, a, k) ((safe, tt), tt, tt)
                | inr (inl (x, k)) ↦ elim (Bool-cases (is_retryable x)) [
                  | inr f ↦ rw (e, a, k, f) ((safe, tt), tt, f)
                  | inl t ↦
                      rw (e, a, k, t)
                        (after_failure-IsGood (attempt_config base first r tip) r tip backoff _ safe
                          final_after cap ei em
                          (λ next i m. supervise_loop-IsGood false next rounds cap i m sound))
                ]
              ]
            ]
      ]

-- A supervised run, whose rounds find a durable tip not below the configured start, and whose reads
-- of that tip fail with terminal errors only: every attempt starts numbering at or below the durable
-- tip, so that no block is skipped. Every delay lies within the configured bounds, and an error that
-- ends the run is a terminal one.
pub supervise_l1_sync_with_backoff-IsGood :
    (base : L1SyncConfig) (initial maximum : ℕ) (rounds : List Round)
    → maximum ≤ duration_max
    → All (IsSound base.start_l2_block) rounds
    → IsGood initial maximum (supervise_l1_sync_with_backoff base initial maximum rounds)
unfolding supervise_l1_sync_with_backoff Backoff.new
supervise_l1_sync_with_backoff-IsGood base initial maximum rounds cap sound =
    supervise_loop-IsGood base initial maximum true (Backoff.new initial maximum) rounds cap refl
      refl sound
