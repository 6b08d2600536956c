-- ===== src/Derive/Multiplexer/Cursor.antt =====
-- The delayed cursor of `extract_messages`: which delayed messages a batch emits, and that it ends.
use arbitrum_reth.Derive.Rlp.{Decompress}
use mathlib.Core.List.{append-nil}
use arbitrum_reth.Derive.Batch.{BatchHeader, Segment}
use arbitrum_reth.Derive.Multiplexer.Step.{
  Step, time, l1_block, plain, compressed, delayed, skipped, walk_segment-Step,
}
use arbitrum_reth.Derive.Multiplexer.{
  push_l2, drain, walk_segment, walk_segments, extract_messages, Walk, make_l2_message, pull, drain,
  walk_segment, walk_segments, extract_messages, DecodeU64,
}
use arbitrum_reth.Prelude.{
  ℕ, zero, suc, ◌+◌, ◌-◌, ◌≤◌, ◌<◌, max, ◌≡◌, refl, sym, ap, ◌∙◌, inl, inr, Option, none, some,
  List, [], ◌∷◌, ◌++◌, arith, ltb, ltb→lt, Bool-cases, Option-cases, >>=-eq-ok, ok,
}
use arbitrum_reth.Derive.Message.{DerivedMessage}
use arbitrum_reth.Derive.Delayed.{DelayedSource, DelayedMessage, to_derived}

-- The messages of a batch that came from the delayed inbox: those with a request id.
keep_delayed : Option ℕ → DerivedMessage → List DerivedMessage → List DerivedMessage
keep_delayed none m ms = ms
keep_delayed (some id) m ms = m ∷ ms

unfoldable pub delayed_part : List DerivedMessage → List DerivedMessage
unfolding keep_delayed
delayed_part [] = []
delayed_part (m ∷ ms) = keep_delayed m.header.request_id m (delayed_part ms)

-- The specification: the `n` delayed messages from index `read` on, each stamped with the cursor
-- behind it, or `none` if the source lacks one of them.
unfoldable pub consumed : DelayedSource → ℕ → ℕ → Option (List DerivedMessage)
consumed source read zero = some []
consumed source read (suc n) = elim (consumed source read n) [
  | none ↦ none
  | some ms ↦ elim (source (read + n)) [
    | none ↦ none
    | some dm ↦ some (ms ++ (to_derived dm (read + n + 1) ∷ []))
  ]
]

delayed_part-append :
    (xs ys : List DerivedMessage) → delayed_part (xs ++ ys) ≡ delayed_part xs ++ delayed_part ys
unfolding delayed_part
delayed_part-append [] ys = refl
delayed_part-append (x ∷ xs) ys = ground (arith, delayed_part-append xs ys)

delayed_part-l2 :
    (header : BatchHeader) (xs : List DerivedMessage) (l2 : List ℕ) (timestamp block read : ℕ)
    → delayed_part (xs ++ (make_l2_message header l2 timestamp block read ∷ [])) ≡ delayed_part xs
unfolding delayed_part make_l2_message
delayed_part-l2 header xs l2 timestamp block read =
    delayed_part-append xs _ ∙ append-nil (delayed_part xs)

delayed_part-pulled :
    (xs : List DerivedMessage) (dm : DelayedMessage) (read : ℕ)
    → delayed_part (xs ++ (to_derived dm read ∷ [])) ≡ delayed_part xs ++ (to_derived dm read ∷ [])
unfolding delayed_part to_derived
delayed_part-pulled xs dm read = delayed_part-append xs _

module _ (source : DelayedSource) (before : ℕ) where
  abbrev Inv : Walk → Type 0
  Inv w =
      (n : ℕ) × (w.delayed_read ≡ before + n)
      × (consumed source before n ≡ some (delayed_part w.out))

  pull-Inv : (w w' : Walk) → pull source w ≡ ok w' → Inv w → Inv w'
  unfolding pull consumed
  pull-Inv w w' h (n, at, done) = elim (Option-cases (source w.delayed_read)) [
    | inl e ↦ absurd (ground arith)
    | inr (dm, e) ↦
        (suc n, ground arith, ground (arith, delayed_part-pulled w.out dm (before + n + 1)))
  ]

  -- No step moves the cursor past the batch's count, or past where it began.
  abbrev Bounded : BatchHeader → Walk → Type 0
  Bounded header w =
      (before ≤ w.delayed_read) × (w.delayed_read ≤ max before header.after_delayed_messages)

  pull-Bounded :
      (header : BatchHeader) (w w' : Walk)
      → w.delayed_read < header.after_delayed_messages
      → pull source w ≡ ok w'
      → Bounded header w
      → Bounded header w'
  unfolding pull
  pull-Bounded header w w' lt h (lo, hi) = elim (Option-cases (source w.delayed_read)) [
    | inl e ↦ absurd (ground arith)
    | inr (dm, e) ↦ (ground arith, ground arith)
  ]

  module _ (decompress : Decompress) (decode_u64 : DecodeU64) (header : BatchHeader) where
    abbrev Good : Walk → Type 0
    Good w = Inv w × Bounded header w

    push_l2-Good : (w : Walk) (l2 : List ℕ) → Good w → Good (push_l2 header l2 w)
    push_l2-Good w l2 ((n, at, done), b) = (
      (
        n,
        at,
        done ∙ ap some (sym (delayed_part-l2 header w.out l2 w.timestamp w.block w.delayed_read)),
      ),
      b,
    )

    Step-Good :
        (seg : Segment) (w w' : Walk)
        → Step decompress decode_u64 header source seg w w'
        → Good w
        → Good w'
    Step-Good seg w w' (time d k e h) g = rw h g
    Step-Good seg w w' (l1_block d k e h) g = rw h g
    Step-Good seg w w' (plain k h) g = rw h (push_l2-Good w seg.payload g)
    Step-Good seg w w' (compressed l2 k e l h) g = rw h (push_l2-Good w l2 g)
    Step-Good seg w w' (delayed k lt h) g = (pull-Inv w w' h g.0, pull-Bounded header w w' lt h g.1)
    Step-Good seg w w' (skipped k h) g = rw h g

    walk_segments-Good :
        (segs : List Segment) (w w' : Walk)
        → walk_segments decompress decode_u64 header source segs w ≡ ok w'
        → Good w
        → Good w'
    unfolding walk_segments
    walk_segments-Good [] w w' h g = let e : w ≡ w' = cc in rw (← e) g
    walk_segments-Good (seg ∷ segs) w w' h g =
        let (w₁, e, r) = >>=-eq-ok (walk_segment decompress decode_u64 header source seg w) _ h in
        walk_segments-Good segs w₁ w' r
          (Step-Good seg w w₁ (walk_segment-Step decompress decode_u64 header source seg w w₁ e) g)

    drain-Good :
        (fuel : ℕ) (w w' : Walk)
        → drain decompress decode_u64 header source fuel w ≡ ok w'
        → Good w
        → Good w' × (header.after_delayed_messages ≤ w'.delayed_read)
    unfolding drain
    drain-Good zero w w' h g =
        elim (Bool-cases (ltb w.delayed_read header.after_delayed_messages)) [
          | inl more ↦ absurd (ground arith)
          | inr done ↦ let e : w ≡ w' = ground arith in rw (← e) (g, ground arith)
        ]
    drain-Good (suc fuel) w w' h g =
        elim (Bool-cases (ltb w.delayed_read header.after_delayed_messages)) [
          | inl more ↦
              let (w₁, e, r) = >>=-eq-ok (pull source w) _ (rw more at h) in
              drain-Good fuel w₁ w' r
                (pull-Inv w w₁ e g.0, pull-Bounded header w w₁ (ltb→lt _ _ more) e g.1)
          | inr done ↦ let e : w ≡ w' = ground arith in rw (← e) (g, ground arith)
        ]

    -- Where a batch decodes, the delayed messages among its messages are those of the source from
    -- the starting cursor up to the batch's own count, each once, in order and with the cursor
    -- behind it; none if the count does not pass the start.
    pub extract_messages-delayed :
        (segs : List Segment) (out : List DerivedMessage)
        → extract_messages decompress decode_u64 header source segs before ≡ ok out
        → consumed source before (header.after_delayed_messages - before) ≡ some (delayed_part out)
    unfolding extract_messages
    extract_messages-delayed segs out h =
        let (w, e, r) =
          >>=-eq-ok (walk_segments decompress decode_u64 header source segs start) _ h in
        let (w', e', r') =
          >>=-eq-ok
            (drain decompress decode_u64 header source
              (header.after_delayed_messages - w.delayed_read) w)
            _ r in
        let (((n, at, done), b), reached) =
          drain-Good _ w w' e' (walk_segments-Good segs start w e start-Good) in
        let k : n ≡ header.after_delayed_messages - before = omega arith in
        let o : w'.out ≡ out = cc in rw (← k, ← o) done
      where
        start : Walk
        start = record { timestamp = 0; block = 0; delayed_read = before; out = [] }

        start-Good : Good start
        start-Good =
            ((0, omega arith, unfold consumed delayed_part in refl), (omega arith, omega arith))
