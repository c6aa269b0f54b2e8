-- ===== src/UsageSnapshot/Traffic.antt =====
-- Traffic over a run of captures and acknowledgements: what the queue's payloads report for a counter,
-- and what has left the queue, is what the counter has counted.

use remnawave_node_go.Base.{
  ℕ, suc, ◌+◌, ◌^◌, ◌<◌, ◌≡◌, ap, sym, ◌∙◌, subst, false, List, [], ◌∷◌, ◌++◌, Text, Result, ok,
  err, arith,
}
use remnawave_node_go.Bolt.{Bolt, Contents}
use remnawave_node_go.UsageSnapshot.Types.{Counter, Db, Formats, Snapshot, AckRequest}
use remnawave_node_go.UsageSnapshot.Store.{
  sequence_key, next_sequence, acked_through, generation, capture_tx,
}
use remnawave_node_go.UsageSnapshot.Queue.{ack_tx}
use remnawave_node_go.UsageSnapshot.Buckets.{insert-last}
use remnawave_node_go.UsageSnapshot.Sequence.{Numbered-below}
use remnawave_node_go.UsageSnapshot.Deltas.{
  reported, reported-nil, value_at, Grow, capture_counters-conserves,
}
use remnawave_node_go.UsageSnapshot.Capturing.{
  Captured, quiet, queued, snapshot_of, capture_tx-eq-ok,
}
use remnawave_node_go.UsageSnapshot.Invariant.{IsQueue, IsConsistent, capture_tx-IsConsistent}
use remnawave_node_go.UsageSnapshot.Pulling.{AllValid}
use remnawave_node_go.UsageSnapshot.Acknowledging.{ack_tx-baseline, ack_tx-IsConsistent}

abbrev counters_of : Result Snapshot → List Counter
counters_of (err e) = []
counters_of (ok s) = s.counters

module _ (F : Formats) (k : Text) where
  -- What the payloads of a queue report for the key `k`, as a client decodes them.
  unfoldable pub queued_traffic : Contents → ℕ
  queued_traffic [] = 0
  queued_traffic ((n, v) ∷ c) = reported k (counters_of (F.unmarshal v)) + queued_traffic c

  queued_traffic-append :
      (c : Contents) (n v : Text)
      → queued_traffic (c ++ (n, v) ∷ [])
        ≡ queued_traffic c + reported k (counters_of (F.unmarshal v))
  unfolding queued_traffic
  queued_traffic-append [] n v = omega arith
  queued_traffic-append ((m, w) ∷ c) n v = omega (arith, queued_traffic-append c n v)

  last_valid :
      (c : Contents) (n v : Text) (s : Snapshot)
      → AllValid F (c ++ (n, v) ∷ [])
      → F.marshal s ≡ ok v
      → F.Valid s
  last_valid [] n v s h e = h.0 s e
  last_valid (x ∷ c) n v s h e = last_valid c n v s h.1 e

module _ (B : Bolt) (F : Formats) (k : Text) where
  -- From `old`, captures without a core reset, of counters that do not go back, and acknowledgements
  -- lead to `new`; the snapshots that the acknowledgements removed reported `taken` for the key `k`.
  pub data Traffic (old : Db B) : Db B → ℕ → Type 0 where
    start : Traffic old old 0
    captured :
        {mid new : Db B} {taken : ℕ} (max_bytes : ℕ) (core : Text) (counters : List Counter)
        (now : ℕ)
        → Traffic old mid taken
        → Grow B counters mid.baseline
        → next_sequence B mid + 1 < 2 ^ 64
        → capture_tx B F max_bytes core counters now false mid ≡ ok (tt, new)
        → AllValid F (B.entries new.snapshots)
        → Traffic old new taken
    acknowledged :
        {mid new : Db B} {taken taken' : ℕ} (request : AckRequest)
        → Traffic old mid taken
        → ack_tx B request mid ≡ ok (tt, new)
        → taken' + queued_traffic F k (B.entries new.snapshots)
          ≡ taken + queued_traffic F k (B.entries mid.snapshots)
        → Traffic old new taken'

  entries-queued :
      (payload : Text) (old new : Db B)
      → IsQueue B F old
      → new.snapshots ≡ B.put old.snapshots (sequence_key (next_sequence B old)) payload
      → B.entries new.snapshots
        ≡ B.entries old.snapshots ++ (sequence_key (next_sequence B old), payload) ∷ []
  entries-queued payload old new q s =
      rw (s, B.entries-put old.snapshots (sequence_key (next_sequence B old)) payload)
        (insert-last (sequence_key (next_sequence B old)) payload (B.entries old.snapshots) (
          Numbered-below F (generation B old) (suc (acked_through B old)) (next_sequence B old)
            (B.entries old.snapshots) q.numbered (omega (arith, q.counted)) q.bounded))

  -- A capture queues what its deltas report.
  Captured-queued_traffic :
      (max_bytes : ℕ) (core : Text) (now : ℕ) (deltas : List Counter) (old new : Db B)
      → IsQueue B F old
      → AllValid F (B.entries new.snapshots)
      → Captured B F max_bytes core now deltas old new
      → queued_traffic F k (B.entries new.snapshots)
        ≡ queued_traffic F k (B.entries old.snapshots) + reported k deltas
  Captured-queued_traffic max_bytes core now deltas old new q valid (quiet none_new m s) =
      ap (λ x. queued_traffic F k (B.entries x)) s
      ∙ omega (arith, ap (reported k) none_new, reported-nil k)
  Captured-queued_traffic max_bytes core now deltas old new q valid
        (queued payload some_new marshalled fits s m) =
      let key = sequence_key (next_sequence B old) in
      let before = B.entries old.snapshots in
      let here = entries-queued payload old new q s in
      let made = snapshot_of B F core deltas now old in
      let good =
        last_valid F k before key payload made (subst (AllValid F) here valid) marshalled in
      let decoded = F.round_trip made payload good marshalled in
      ap (queued_traffic F k) here
      ∙ queued_traffic-append F k before key payload
      ∙ ap (λ r. queued_traffic F k before + reported k (counters_of r)) decoded

  Traffic-IsConsistent :
      {old new : Db B} {taken : ℕ}
      → IsConsistent B F old
      → Traffic old new taken
      → IsConsistent B F new
  Traffic-IsConsistent c start = c
  Traffic-IsConsistent {new = new} c
        (captured {mid = mid} max_bytes core counters now before grow room done valid) =
      capture_tx-IsConsistent B F max_bytes core counters now false mid new
        (Traffic-IsConsistent c before) room done
  Traffic-IsConsistent {new = new} c (acknowledged {mid = mid} request before done left) =
      ack_tx-IsConsistent B F request mid new (Traffic-IsConsistent c before) done

  -- From a consistent file, over any captures without a core reset, of counters that do not go back,
  -- and acknowledgements in between, while sequence numbers are left and the pending snapshots' texts
  -- are valid UTF-8: what the acknowledgements removed and what is pending report for each counter
  -- exactly what was pending before and what its baseline has moved by. Nothing is lost and nothing
  -- is reported twice.
  pub Traffic-conserved :
      {old new : Db B} {taken : ℕ}
      → IsConsistent B F old
      → Traffic old new taken
      → taken + queued_traffic F k (B.entries new.snapshots) + value_at B old.baseline k
        ≡ queued_traffic F k (B.entries old.snapshots) + value_at B new.baseline k
  Traffic-conserved c start = omega arith
  Traffic-conserved {old} {new} c
        (captured {mid = mid} max_bytes core counters now before grow room done valid) =
      let (deltas, live, loop, made) =
        capture_tx-eq-ok B F max_bytes core counters now false mid new done in
      let q = (Traffic-IsConsistent c before).live live in
      let grown = Captured-queued_traffic max_bytes core now deltas mid new q valid made in
      omega (
        arith,
        Traffic-conserved c before,
        grown,
        capture_counters-conserves B counters [] deltas mid.baseline new.baseline k grow loop,
        reported-nil k,
      )
  Traffic-conserved {new = new} c (acknowledged {mid = mid} request before done left) = omega (
    arith,
    Traffic-conserved c before,
    left,
    ap (λ (x : B.Bucket). value_at B x k) (sym (ack_tx-baseline B request mid new done)),
  )
