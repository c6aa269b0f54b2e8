-- ===== src/UsageSnapshot/Capturing.antt =====
-- What a successful `Capture` leaves in the file.
use remnawave_node_go.Base.{
  ℕ, ◌+◌, ◌≤◌, ◌≡◌, ◌≢◌, refl, sym, ap, ◌∙◌, Bool, true, List, [], ◌∷◌, arith, Text, Result, ok,
  err, >>=-eq-ok, length, add_word,
}
use remnawave_node_go.Base.BigEndian.{put_uint64}
use remnawave_node_go.Bolt.{Bolt}
use remnawave_node_go.UsageSnapshot.Types.{Counter, Db, Formats, Snapshot}
use remnawave_node_go.UsageSnapshot.Capture.{put_checked, capture_counters}
use remnawave_node_go.UsageSnapshot.Store.{
  next_sequence_key, last_captured_key, sequence_key, is_active, next_sequence, generation,
  total_bytes, append_snapshot, record_deltas, capture_tx,
}

module _ (B : Bolt) (F : Formats) where
  abbrev pub snapshot_of : Text → List Counter → ℕ → Db B → Snapshot
  snapshot_of core deltas now db = record {
    generation = generation B db;
    sequence = next_sequence B db;
    captured_at = now;
    core = core;
    counters = deltas;
  }

  -- Either there was nothing to report, or one snapshot went to the queue.
  pub data Captured (max_bytes : ℕ) (core : Text) (now : ℕ) (deltas : List Counter) (old new : Db B)
      : Type 0 where
    quiet :
        deltas ≡ []
        → new.meta ≡ old.meta
        → new.snapshots ≡ old.snapshots
        → Captured max_bytes core now deltas old new
    queued :
        (payload : Text)
        → deltas ≢ []
        → F.marshal (snapshot_of core deltas now old) ≡ ok payload
        → length payload + total_bytes (B.entries old.snapshots) ≤ max_bytes
        → new.snapshots ≡ B.put old.snapshots (sequence_key (next_sequence B old)) payload
        → new.meta
          ≡ B.put
              (B.put old.meta next_sequence_key (put_uint64 (add_word (next_sequence B old) 1)))
              last_captured_key
              (F.rfc3339 now)
        → Captured max_bytes core now deltas old new

  append_snapshot-eq-ok :
      (max_bytes : ℕ) (core : Text) (deltas : List Counter) (now : ℕ) (old new : Db B)
      (baseline : B.Bucket)
      → deltas ≢ []
      → append_snapshot B F max_bytes core deltas now (record old { baseline = baseline })
        ≡ ok (tt, new)
      → (new.baseline ≡ baseline) × Captured max_bytes core now deltas old new
  unfolding append_snapshot put_checked
  append_snapshot-eq-ok max_bytes core deltas now old new baseline some_delta h =
      go (F.marshal (snapshot_of core deltas now old)) refl
    where
      go :
          (r : Result Text)
          → F.marshal (snapshot_of core deltas now old) ≡ r
          → (new.baseline ≡ baseline) × Captured max_bytes core now deltas old new
      go (err e) m = ground arith
      go (ok payload) m =
          (ground arith, queued payload some_delta m (ground arith) (ground arith) (ground arith))

  record_deltas-eq-ok :
      (max_bytes : ℕ) (core : Text) (now : ℕ) (old new : Db B) (deltas : List Counter)
      (baseline : B.Bucket)
      → record_deltas B F max_bytes core now old (deltas, baseline) ≡ ok (tt, new)
      → (new.baseline ≡ baseline) × Captured max_bytes core now deltas old new
  unfolding record_deltas
  record_deltas-eq-ok max_bytes core now old new [] baseline h =
      (ground arith, quiet refl (ground arith) (ground arith))
  record_deltas-eq-ok max_bytes core now old new (d ∷ ds) baseline h =
      append_snapshot-eq-ok max_bytes core (d ∷ ds) now old new baseline (λ e. cc) h

  pub capture_tx-eq-ok :
      (max_bytes : ℕ) (core : Text) (counters : List Counter) (now : ℕ) (reset : Bool)
      (old new : Db B)
      → capture_tx B F max_bytes core counters now reset old ≡ ok (tt, new)
      → (deltas : List Counter) × (is_active B old ≡ true)
        × (capture_counters B reset counters [] old.baseline ≡ ok (deltas, new.baseline))
        × Captured max_bytes core now deltas old new
  unfolding capture_tx
  capture_tx-eq-ok max_bytes core counters now reset old new h =
      let live : is_active B old ≡ true = ground arith in
      let h' = rw live at h in
      let (captured, e, k) =
        >>=-eq-ok (capture_counters B reset counters [] old.baseline)
          (record_deltas B F max_bytes core now old) h' in
      let (b, c) = record_deltas-eq-ok max_bytes core now old new captured.0 captured.1 k in
      (captured.0, live, e ∙ ap (λ (x : B.Bucket). ok (captured.0, x)) (sym b), c)
