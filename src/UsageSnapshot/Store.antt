-- ===== src/UsageSnapshot/Store.antt =====
-- The operations of internal/usagesnapshot/store.go. Each takes what it gets from outside: the
-- random bytes of a new generation, the time, and the error of the commit.
use remnawave_node_go.Base.{
  ℕ, ◌+◌, Bool, not, ◌||◌, Option, none, some, List, [], ◌∷◌, Text, codes, text_eq, length, Error,
  message, Result, ok, err, ◌>>=◌, ◌>>◌, check, ltb, ◌==◌, if◌then◌else◌, is_negative, add_word,
}
use remnawave_node_go.Base.BigEndian.{put_uint64, read_uint64}
use remnawave_node_go.Base.Hex.{hex}
use remnawave_node_go.Bolt.{Bolt, Contents, update}
use remnawave_node_go.UsageSnapshot.Types.{Counter, Formats, Db, Store}
use remnawave_node_go.UsageSnapshot.Capture.{
  put_checked, get_text, store_baseline, capture_counters,
}

abbrev pub active_key : Text
active_key = codes "active"

abbrev pub generation_key : Text
generation_key = codes "generation"

abbrev pub next_sequence_key : Text
next_sequence_key = codes "next_sequence"

abbrev pub acked_key : Text
acked_key = codes "acked_through"

abbrev pub last_captured_key : Text
last_captured_key = codes "last_captured_at"

abbrev pub err_not_active : Error
err_not_active = message "usage snapshot mode is not active"

abbrev pub sequence_key : ℕ → Text
sequence_key = put_uint64

-- snapshotBytes
unfoldable pub total_bytes : Contents → ℕ
total_bytes [] = 0
total_bytes ((k, v) ∷ c) = length v + total_bytes c

-- randomID, given the result of rand.Read on 16 bytes.
unfoldable pub random_id : Result Text → Result Text
random_id random = do bytes ← random; ok (hex bytes)

module _ (B : Bolt) where
  -- The cursor loops that delete: every key that the walk meets up to its end.
  unfoldable pub delete_all : Contents → B.Bucket → B.Bucket
  delete_all [] b = b
  delete_all ((k, v) ∷ c) b = delete_all c (B.delete b k)

  unfoldable pub clear_bucket : B.Bucket → B.Bucket
  clear_bucket b = delete_all (B.entries b) b

  abbrev pub is_active : Db B → Bool
  is_active db = text_eq (get_text B db.meta active_key) (codes "1")

  abbrev pub next_sequence : Db B → ℕ
  next_sequence db = read_uint64 (get_text B db.meta next_sequence_key)

  abbrev pub acked_through : Db B → ℕ
  acked_through db = read_uint64 (get_text B db.meta acked_key)

  abbrev pub generation : Db B → Text
  generation db = get_text B db.meta generation_key

module _ (B : Bolt) where
  -- Open, at a file whose buckets hold `db`; the buckets that a new file lacks are empty.
  unfoldable pub open_store : Db B → ℕ → Store B
  open_store db max_bytes = record {
    db = db;
    max_bytes = if max_bytes == 0 || is_negative max_bytes then 268435456 else max_bytes;
  }

  unfoldable pub activate_tx : Result Text → List Counter → Db B → Result (Unit {0} × Db B)
  activate_tx random counters db = if is_active B db then ok (tt, db) else do
    id ← random_id random
    meta ← put_checked B db.meta active_key (codes "1")
    meta ← put_checked B meta generation_key id
    meta ← put_checked B meta next_sequence_key (put_uint64 1)
    meta ← put_checked B meta acked_key (put_uint64 0)
    let meta = B.delete meta last_captured_key
    baseline ← store_baseline B (clear_bucket B db.baseline) counters
    ok (tt, record { meta = meta; baseline = baseline; snapshots = clear_bucket B db.snapshots })

module _ (B : Bolt) (F : Formats) where
  -- What `Capture` does with the deltas once the baseline is written.
  unfoldable pub append_snapshot : ℕ → Text → List Counter → ℕ → Db B → Result (Unit {0} × Db B)
  append_snapshot max_bytes core deltas now db =
      let sequence = next_sequence B db in
      do
        payload ← F.marshal (record {
          generation = generation B db;
          sequence = sequence;
          captured_at = now;
          core = core;
          counters = deltas;
        })
        check (
            if ltb max_bytes (length payload + total_bytes (B.entries db.snapshots))
            then some (message "snapshot queue safety limit exceeded")
            else none)
        snapshots ← put_checked B db.snapshots (sequence_key sequence) payload
        meta ← put_checked B db.meta next_sequence_key (put_uint64 (add_word sequence 1))
        meta ← put_checked B meta last_captured_key (F.rfc3339 now)
        ok (tt, record db { meta = meta; snapshots = snapshots })

  -- The rest of the transaction, from the deltas and the new baseline of the loop.
  unfoldable pub record_deltas :
      ℕ → Text → ℕ → Db B → List Counter × B.Bucket → Result (Unit {0} × Db B)
  record_deltas max_bytes core now db ([], baseline) = ok (tt, record db { baseline = baseline })
  record_deltas max_bytes core now db (d ∷ ds, baseline) =
      append_snapshot max_bytes core (d ∷ ds) now (record db { baseline = baseline })

  unfoldable pub capture_tx : ℕ → Text → List Counter → ℕ → Bool → Db B → Result (Unit {0} × Db B)
  unfolding record_deltas
  capture_tx max_bytes core counters now reset db =
      if not (is_active B db) then err err_not_active else (do
        captured ← capture_counters B reset counters [] db.baseline
        record_deltas max_bytes core now db captured)

  -- `Capture`; `reset` is the first of the variadic `coreReset`, false where there is none.
  unfoldable pub capture :
      Option Error → Text → List Counter → ℕ → Bool → Store B → Store B × Result (Unit {0})
  capture commit core counters now reset s =
      let (db, r) = update commit (capture_tx s.max_bytes core counters now reset) s.db in
      (record s { db = db }, r)
