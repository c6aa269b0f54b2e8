-- ===== src/UsageSnapshot/History.antt =====
-- Any calls, in any order, failing or not: the file stays consistent.
use remnawave_node_go.Base.{
  ℕ, ◌+◌, ◌^◌, ◌≤◌, ◌<◌, ◌≡◌, refl, inl, inr, Bool, Option, List, [], ◌∷◌, arith, Text, text_eq,
  Error, Result, ok, err, Bool-cases, length, add_word,
}
use remnawave_node_go.Base.BigEndian.{read_uint64-put_uint64}
use remnawave_node_go.Bolt.{Bolt, update_keeps}
use remnawave_node_go.UsageSnapshot.Types.{Counter, Db, Store, Formats, AckRequest}
use remnawave_node_go.UsageSnapshot.Store.{
  is_active, next_sequence, activate_tx, capture_tx, capture,
}
use remnawave_node_go.UsageSnapshot.Queue.{ack_tx, ack, activate, answer}
use remnawave_node_go.UsageSnapshot.Buckets.{get_text-put}
use remnawave_node_go.UsageSnapshot.Activation.{activate_tx-eq-ok}
use remnawave_node_go.UsageSnapshot.Capturing.{Captured, quiet, queued, capture_tx-eq-ok}
use remnawave_node_go.UsageSnapshot.Acknowledging.{
  Advanced-others, ack_tx-eq-ok, ack_tx-IsConsistent,
}
use remnawave_node_go.UsageSnapshot.Invariant.{
  IsConsistent, activate_tx-IsConsistent, capture_tx-IsConsistent,
}

-- A call of the store's API that may change the file, with what it gets from outside.
pub data Call : Type 0 where
  activates : Option Error → Result Text → List Counter → Call
  captures : Option Error → Text → List Counter → ℕ → Bool → Call
  acks : Option Error → AckRequest → Call

module _ (B : Bolt) (F : Formats) where
  unfoldable pub step : Call → Store B → Store B
  step (activates commit random counters) s = (activate B commit random counters s).0
  step (captures commit core counters now reset) s =
      (capture B F commit core counters now reset s).0
  step (acks commit request) s = (ack B commit request s).0

  unfoldable pub run : List Call → Store B → Store B
  run [] s = s
  run (c ∷ cs) s = run cs (step c s)

  -- The file after an update and an answer is the file after the update.
  answer-db : (s : Store B) (r : Result (Unit {0})) → (answer B (s, r)).0 ≡ s
  unfolding answer
  answer-db s (ok u) = refl
  answer-db s (err e) = refl

  -- Consistent, and at most `k` numbers handed out beyond those of `old`.
  record Kept (old : Db B) (new : Db B) : Type 0 where
    consistent : IsConsistent B F new
    numbers : next_sequence B new ≤ next_sequence B old + 1

  Kept-refl : (db : Db B) → IsConsistent B F db → Kept db db
  Kept-refl db k = record { consistent = k; numbers = omega arith }

  activate_tx-Kept :
      (random : Result Text) (counters : List Counter) (old new : Db B)
      → IsConsistent B F old
      → activate_tx B random counters old ≡ ok (tt, new)
      → Kept old new
  activate_tx-Kept random counters old new k h = record {
    consistent = activate_tx-IsConsistent B F random counters old new k h;
    numbers = elim (Bool-cases (is_active B old)) [
      | inl a ↦ let same : old ≡ new = unfold activate_tx in ground arith in rw same (omega arith)
      | inr i ↦
          let (_, _, v) = activate_tx-eq-ok B random counters old new i h in omega (arith, v.next)
    ];
  }

  Captured-next :
      (max_bytes : ℕ) (core : Text) (deltas : List Counter) (now : ℕ) (old new : Db B)
      → next_sequence B old + 1 < 2 ^ 64
      → Captured B F max_bytes core now deltas old new
      → next_sequence B new ≤ next_sequence B old + 1
  unfolding text_eq
  Captured-next max_bytes core deltas now old new room (quiet d m s) = rw m (omega arith)
  Captured-next max_bytes core deltas now old new room (queued payload d m fits s e) = rw e (
      simp get_text-put (
        rw (read_uint64-put_uint64 (add_word (next_sequence B old) 1) (omega arith)) (omega arith)))

  capture_tx-Kept :
      (max_bytes : ℕ) (core : Text) (counters : List Counter) (now : ℕ) (reset : Bool)
      (old new : Db B)
      → IsConsistent B F old
      → next_sequence B old + 1 < 2 ^ 64
      → capture_tx B F max_bytes core counters now reset old ≡ ok (tt, new)
      → Kept old new
  capture_tx-Kept max_bytes core counters now reset old new k room h =
      let (deltas, _, _, c) = capture_tx-eq-ok B F max_bytes core counters now reset old new h in
      record {
        consistent = capture_tx-IsConsistent B F max_bytes core counters now reset old new k room h;
        numbers = Captured-next max_bytes core deltas now old new room c;
      }

  ack_tx-Kept :
      (request : AckRequest) (old new : Db B)
      → IsConsistent B F old
      → ack_tx B request old ≡ ok (tt, new)
      → Kept old new
  ack_tx-Kept request old new k h = record {
    consistent = ack_tx-IsConsistent B F request old new k h;
    numbers = elim (ack_tx-eq-ok B request old new h).1 [
      | inl (_, same) ↦ rw same (omega arith)
      | inr v ↦
          let (_, _, n) = Advanced-others B request.through_sequence old new v in omega (arith, n)
    ];
  }

  step-Kept :
      (c : Call) (s : Store B)
      → IsConsistent B F s.db
      → next_sequence B s.db + 1 < 2 ^ 64
      → Kept s.db (step c s).db
  unfolding step activate ack capture
  step-Kept (activates commit random counters) s k room = rw (answer-db _ _) (
      update_keeps (Kept s.db) commit (activate_tx B random counters) s.db (Kept-refl s.db k)
        (λ u t h. activate_tx-Kept random counters s.db t k h))
  step-Kept (captures commit core counters now reset) s k room =
      update_keeps (Kept s.db) commit (capture_tx B F s.max_bytes core counters now reset) s.db
        (Kept-refl s.db k)
        (λ u t h. capture_tx-Kept s.max_bytes core counters now reset s.db t k room h)
  step-Kept (acks commit request) s k room = rw (answer-db _ _) (
      update_keeps (Kept s.db) commit (ack_tx B request) s.db (Kept-refl s.db k)
        (λ u t h. ack_tx-Kept request s.db t k h))

  -- From a consistent file, any calls of Activate, Capture and Ack, whatever they return and however
  -- their commits end, leave a consistent file, while 2^64 sequence numbers are not used up: the
  -- pending snapshots of an active file carry exactly the numbers from the last acknowledged to the
  -- next, in order and each once, and the current generation.
  pub run-IsConsistent :
      (calls : List Call) (s : Store B)
      → IsConsistent B F s.db
      → next_sequence B s.db + length calls < 2 ^ 64
      → IsConsistent B F (run calls s).db
  unfolding run
  run-IsConsistent [] s k room = k
  run-IsConsistent (c ∷ cs) s k room =
      let kept = step-Kept c s k (omega arith) in
      run-IsConsistent cs (step c s) kept.consistent (omega (arith, kept.numbers))
