-- ===== src/UsageSnapshot/Queue.antt =====
-- Reading and acknowledging the queue: `Active`, `Pull`, `Ack` and `Status` of store.go.
use remnawave_node_go.Base.{
  ℕ, ◌+◌, ◌-◌, Bool, true, false, not, ◌||◌, Option, List, [], ◌∷◌, ◌++◌, Text, text_eq, text_lt,
  is_empty, length, Error, message, Result, ok, err, ◌>>=◌, ltb, leb, ◌==◌, if◌then◌else◌,
  is_negative, add_word,
}
use remnawave_node_go.Base.BigEndian.{put_uint64, read_uint64}
use remnawave_node_go.Bolt.{Bolt, Contents, update}
use remnawave_node_go.UsageSnapshot.Types.{
  Counter, Snapshot, PullRequest, PullResponse, AckRequest, Status, Formats, Db, Store,
}
use remnawave_node_go.UsageSnapshot.Capture.{put_checked, get_text}
use remnawave_node_go.UsageSnapshot.Store.{
  activate_tx, acked_key, last_captured_key, err_not_active, sequence_key, total_bytes, is_active,
  next_sequence, acked_through, generation,
}

-- cursor.Seek: from the first key that is not below `k`.
unfoldable pub seek : Text → Contents → Contents
seek k [] = []
seek k ((j, v) ∷ c) = if text_lt j k then seek k c else (j, v) ∷ c

-- `latest--` above 0.
abbrev pub latest_of : ℕ → ℕ
latest_of next = if ltb 0 next then next - 1 else next

-- The defaults of `Pull`: a value outside 1 … `most` becomes `most`.
unfoldable pub pull_bound : ℕ → ℕ → ℕ
pull_bound most v = if v == 0 || is_negative v || ltb most v then most else v

-- The loop of `Pull`: the snapshots so far and the bytes they take.
module _ (F : Formats) where
  unfoldable pub pull_loop : ℕ → ℕ → Contents → List Snapshot → ℕ → Result (List Snapshot × Bool)
  pull_loop limit max_bytes [] taken used = ok (taken, false)
  pull_loop limit max_bytes ((k, v) ∷ c) taken used =
      let more = do
        snapshot ← F.unmarshal v
        pull_loop limit max_bytes c (taken ++ snapshot ∷ []) (used + length v)
      in if leb limit (length taken) || ltb max_bytes (used + length v)
        then ok (taken, true)
        else more

module _ (B : Bolt) where
  -- The loop of `Ack`: it stops at the first key above `through`.
  unfoldable pub delete_through : ℕ → Contents → B.Bucket → B.Bucket
  delete_through through [] b = b
  delete_through through ((k, v) ∷ c) b =
      let rest = delete_through through c (B.delete b k) in
      if leb (read_uint64 k) through then rest else b

  -- `Active`
  unfoldable pub active : Store B → Bool
  active s = is_active B s.db

  unfoldable pub ack_tx : AckRequest → Db B → Result (Unit {0} × Db B)
  ack_tx request db =
      if is_empty request.generation || not (text_eq request.generation (generation B db))
      then err (message "snapshot generation mismatch")
      else if ltb (latest_of (next_sequence B db)) request.through_sequence
      then err (message "ack is ahead of latest snapshot")
      else if leb request.through_sequence (acked_through B db)
      then ok (tt, db)
      else do
        let left = delete_through request.through_sequence (B.entries db.snapshots) db.snapshots
        meta ← put_checked B db.meta acked_key (put_uint64 request.through_sequence)
        ok (tt, record db { meta = meta; snapshots = left })

  -- The sequence of the first key, 0 where there is none.
  unfoldable pub oldest : Contents → ℕ
  oldest [] = 0
  oldest ((k, v) ∷ c) = read_uint64 k

  unfoldable pub status : Store B → Status
  unfolding oldest
  status s = record {
    active = is_active B s.db;
    capturing = false;
    generation = generation B s.db;
    oldest_sequence = oldest (B.entries s.db.snapshots);
    latest_sequence = latest_of (next_sequence B s.db);
    acked_through = acked_through B s.db;
    pending = length (B.entries s.db.snapshots);
    bytes = total_bytes (B.entries s.db.snapshots);
    last_captured_at = get_text B s.db.meta last_captured_key;
  }

  -- `err != nil` returns the error, and otherwise `s.Status()`.
  unfoldable pub answer : Store B × Result (Unit {0}) → Store B × Result Status
  answer (s, err e) = (s, err e)
  answer (s, ok _) = (s, ok (status s))

  -- `Ack`
  unfoldable pub ack : Option Error → AckRequest → Store B → Store B × Result Status
  unfolding answer
  ack commit request s =
      let (db, r) = update commit (ack_tx request) s.db in answer (record s { db = db }, r)

  -- `Activate`
  unfoldable pub activate :
      Option Error → Result Text → List Counter → Store B → Store B × Result Status
  unfolding answer
  activate commit random counters s =
      let (db, r) = update commit (activate_tx B random counters) s.db in
      answer (record s { db = db }, r)

module _ (B : Bolt) (F : Formats) where
  unfoldable pub pull : PullRequest → Store B → Result PullResponse
  pull request s =
      let limit = pull_bound 500 request.limit in
      let max_bytes = pull_bound 4194304 request.max_bytes in
      let start = sequence_key (add_word request.after_sequence 1) in
      if not (is_active B s.db) then err err_not_active else do
        (snapshots, has_more) ←
            pull_loop F limit max_bytes (seek start (B.entries s.db.snapshots)) [] 0
        ok (record { generation = generation B s.db; snapshots = snapshots; has_more = has_more })
