-- ===== src/UsageSnapshot/Activation.antt =====
-- What a successful `Activate` leaves in the file.
use remnawave_node_go.Base.{
  ◌≡◌, refl, true, false, List, [], arith, Text, codes, text_eq, Result, ok, err,
}
use remnawave_node_go.Base.BigEndian.{put_uint64, read_uint64-put_uint64}
use remnawave_node_go.Base.Hex.{hex}
use remnawave_node_go.Bolt.{Bolt}
use remnawave_node_go.UsageSnapshot.Types.{Counter, Db}
use remnawave_node_go.UsageSnapshot.Capture.{put_checked, get_text, store_baseline}
use remnawave_node_go.UsageSnapshot.Store.{
  active_key, generation_key, next_sequence_key, acked_key, last_captured_key, random_id,
  clear_bucket, is_active, next_sequence, acked_through, generation, activate_tx,
}
use remnawave_node_go.UsageSnapshot.Buckets.{get_text-put, get_text-delete, entries-clear_bucket}

-- A fresh generation: the queue is empty and its next number is 1.
pub record Activated (B : Bolt) (counters : List Counter) (old new : Db B) (bytes : Text)
    : Type 0 where
  pub active : is_active B new ≡ true
  pub generated : generation B new ≡ hex bytes
  pub next : next_sequence B new ≡ 1
  pub acked : acked_through B new ≡ 0
  pub uncaptured : get_text B new.meta last_captured_key ≡ []
  pub drained : B.entries new.snapshots ≡ []
  pub based : store_baseline B (clear_bucket B old.baseline) counters ≡ ok new.baseline

module _ (B : Bolt) where
  meta_of : B.Bucket → Text → B.Bucket
  meta_of meta id =
      B.delete
        (B.put
          (B.put (B.put (B.put meta active_key (codes "1")) generation_key id) next_sequence_key
            (put_uint64 1))
          acked_key (put_uint64 0))
        last_captured_key

  activate_tx-shape :
      (random : Result Text) (counters : List Counter) (old new : Db B)
      → is_active B old ≡ false
      → activate_tx B random counters old ≡ ok (tt, new)
      → (bytes : Text) × (random ≡ ok bytes)
        × (new.meta ≡ meta_of old.meta (hex bytes))
        × (new.snapshots ≡ clear_bucket B old.snapshots)
        × (store_baseline B (clear_bucket B old.baseline) counters ≡ ok new.baseline)
  unfolding activate_tx random_id put_checked meta_of
  activate_tx-shape (err e) counters old new idle h = ground arith
  activate_tx-shape (ok bytes) counters old new idle h =
      (bytes, refl, ground arith, ground arith, ground arith)

  pub activate_tx-eq-ok :
      (random : Result Text) (counters : List Counter) (old new : Db B)
      → is_active B old ≡ false
      → activate_tx B random counters old ≡ ok (tt, new)
      → (bytes : Text) × (random ≡ ok bytes) × Activated B counters old new bytes
  unfolding meta_of text_eq
  activate_tx-eq-ok random counters old new idle h =
      let (bytes, e, m, s, b) = activate_tx-shape random counters old new idle h in
      (
        bytes,
        e,
        record {
          active = rw m (simp (get_text-put, get_text-delete));
          generated = rw m (simp (get_text-put, get_text-delete));
          next =
              rw m (simp (get_text-put, get_text-delete) (read_uint64-put_uint64 1 (omega arith)));
          acked =
              rw m (simp (get_text-put, get_text-delete) (read_uint64-put_uint64 0 (omega arith)));
          uncaptured = rw m (simp (get_text-put, get_text-delete));
          drained = rw s (entries-clear_bucket B old.snapshots);
          based = b;
        },
      )
