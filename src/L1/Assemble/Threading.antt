-- ===== src/L1/Assemble/Threading.antt =====
-- A run of batches may be assembled in parts: what is threaded from one part to the next.
use mathlib.Core.List.{append_assoc}
use arbitrum_reth.L1.Errors.{L1Error}
use arbitrum_reth.Prelude.{
  ℕ, ◌+◌, ◌≡◌, refl, sym, ap, ◌∙◌, fun_ext, List, [], ◌∷◌, ◌++◌, length, length-append, Result,
  ◌>>=◌, >>=_assoc, ok, err, stuck,
}
use arbitrum_reth.Prelude.Assoc
use native.Mathlib.Nat.{add_assoc, add-zero}
use arbitrum_reth.Derive.Delayed.{DelayedSource, Keccak}
use arbitrum_reth.L1.Batches.{DeliveredBatch}
use arbitrum_reth.L1.Decode.{Codec}
use arbitrum_reth.L1.Feed.{BroadcastFeedMessage}
use arbitrum_reth.L1.Serialize.{serialize_batch, batch_data_hash, batch_data_stats}
use arbitrum_reth.L1.Assemble.{ReportStats, batch_to_feed_messages, assemble_loop}

-- The stats map and the delayed cursor behind a run of batches.
unfoldable pub stats_after : Keccak → List (DeliveredBatch × List ℕ) → ReportStats → ReportStats
stats_after keccak [] stats = stats
stats_after keccak ((b, payload) ∷ resolved) stats =
    stats_after keccak resolved
      (Assoc.insert (batch_data_hash keccak b) (batch_data_stats (serialize_batch b)) stats)

unfoldable pub cursor_after : List (DeliveredBatch × List ℕ) → ℕ → ℕ
cursor_after [] before = before
cursor_after ((b, payload) ∷ resolved) before =
    cursor_after resolved b.event.after_delayed_messages_read

>>=_ok {ℓ κ} : {E : Type κ} {A : Type ℓ} (m : Result E A) → (m >>= λ a. ok a) ≡ m
>>=_ok (ok a) = refl
>>=_ok (err e) = refl
>>=_ok stuck = refl

module _ {A : Type 0} where
  join_append :
      (y : Result L1Error (List A)) (xs ms : List A)
      → ((y >>= λ ns. ok (ms ++ ns)) >>= λ more. ok (xs ++ more))
        ≡ (y >>= λ ns. ok ((xs ++ ms) ++ ns))
  join_append (ok ns) xs ms = ap ok (sym (append_assoc xs ms ns))
  join_append (err e) xs ms = refl
  join_append stuck xs ms = refl

  regroup :
      (x : Result L1Error (List A)) (y : ℕ → Result L1Error (List A)) (msgs : List A) (n : ℕ)
      → ((x >>= λ ms. y (n + length msgs + length ms) >>= λ ns. ok (ms ++ ns)) >>= λ more.
          ok (msgs ++ more))
        ≡ ((x >>= λ more. ok (msgs ++ more)) >>= λ ms. y (n + length ms) >>= λ ns. ok (ms ++ ns))
  regroup (ok ms) y msgs n =
      rw (length-append msgs ms, ← add_assoc n (length msgs) (length ms)) (join_append _ msgs ms)
  regroup (err e) y msgs n = refl
  regroup stuck y msgs n = refl

module _ {Text : Type 0} (base64_encode : List ℕ → Text) (keccak : Keccak) (codec : Codec)
    (delayed : DelayedSource) where
  abbrev run :
      List (DeliveredBatch × List ℕ)
      → ReportStats
      → ℕ
      → ℕ
      → Result L1Error (List (BroadcastFeedMessage Text))
  run resolved stats before seq =
      assemble_loop base64_encode keccak codec resolved delayed stats before seq

  -- Assembling two runs of batches one after the other, the second from the cursor, the stats and the
  -- number that the first left, is assembling them as one run; an error of either is the same error.
  pub assemble_loop-append :
      (xs ys : List (DeliveredBatch × List ℕ)) (stats : ReportStats) (before seq : ℕ)
      → assemble_loop base64_encode keccak codec (xs ++ ys) delayed stats before seq ≡ (
          assemble_loop base64_encode keccak codec xs delayed stats before seq >>= λ ms.
          assemble_loop base64_encode keccak codec ys delayed
            (stats_after keccak xs stats)
            (cursor_after xs before)
            (seq + length ms)
          >>= λ ns. ok (ms ++ ns))
  unfolding assemble_loop stats_after cursor_after
  assemble_loop-append [] ys stats before seq =
      rw (add-zero seq) (sym (>>=_ok (run ys stats before seq)))
  assemble_loop-append ((b, payload) ∷ xs) ys stats before seq =
      ap
        (λ k.
          batch_to_feed_messages base64_encode keccak codec b payload before delayed stats' seq
          >>= k)
        (fun_ext (λ msgs.
          ap (λ r. r >>= λ more. ok (msgs ++ more))
            (assemble_loop-append xs ys stats' b.event.after_delayed_messages_read
              (seq + length msgs))
          ∙ regroup (run xs stats' b.event.after_delayed_messages_read (seq + length msgs))
              (run ys (stats_after keccak xs stats')
                (cursor_after xs b.event.after_delayed_messages_read))
              msgs seq))
      ∙ sym (
          >>=_assoc
            (batch_to_feed_messages base64_encode keccak codec b payload before delayed stats' seq)
            _ _)
    where
      stats' : ReportStats
      stats' = Assoc.insert (batch_data_hash keccak b) (batch_data_stats (serialize_batch b)) stats
