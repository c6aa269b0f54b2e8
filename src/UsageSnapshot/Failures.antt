-- ===== src/UsageSnapshot/Failures.antt =====
-- What the operations leave behind when they fail, and where `Pull` gets stuck.
use remnawave_node_go.Base.{
  ℕ, ◌<◌, ◌≡◌, ap, Bool, true, Option, List, [], ◌∷◌, arith, Text, Error, ok, err, length, add_word,
}
use remnawave_node_go.Bolt.{Bolt, Contents, update, update_rolls_back}
use remnawave_node_go.UsageSnapshot.Types.{Counter, Db, Store, Formats, PullRequest}
use remnawave_node_go.UsageSnapshot.Store.{is_active, generation, sequence_key, capture, capture_tx}
use remnawave_node_go.UsageSnapshot.Queue.{pull, pull_loop, pull_bound, seek}

module _ (B : Bolt) (F : Formats) where
  same_db : (s : Store B) (db : Db B) → db ≡ s.db → record s { db = db } ≡ s
  same_db s db e = ap (λ (d : Db B). record s { db = d }) e

  -- A capture that reports an error, in the loop, at the size limit, in a write or in the commit,
  -- leaves the store as it was, its baseline too.
  pub capture_fails :
      (commit : Option Error) (core : Text) (counters : List Counter) (now : ℕ) (reset : Bool)
      (s : Store B) {e : Error}
      → (capture B F commit core counters now reset s).1 ≡ err e
      → (capture B F commit core counters now reset s).0 ≡ s
  unfolding capture
  capture_fails commit core counters now reset s h =
      same_db s (update commit (capture_tx B F s.max_bytes core counters now reset) s.db).0
        (update_rolls_back commit (capture_tx B F s.max_bytes core counters now reset) s.db h)

  -- A snapshot larger than 4 MiB at the head of what a pull of an active store asks for is never handed
  -- out: the pull answers no snapshot and that there are more, whatever bounds it asks for.
  pub pull_stuck :
      (request : PullRequest) (s : Store B) (k v : Text) (c : Contents)
      → is_active B s.db ≡ true
      → seek (sequence_key (add_word request.after_sequence 1)) (B.entries s.db.snapshots)
        ≡ (k, v) ∷ c
      → 4194304 < length v
      → pull B F request s
        ≡ ok (record { generation = generation B s.db; snapshots = []; has_more = true })
  unfolding pull
  pull_stuck request s k v c live found big =
      let first : pull_loop F (pull_bound 500 request.limit) (pull_bound 4194304 request.max_bytes)
            ((k, v) ∷ c) [] 0
          ≡ ok ([], true) =
        unfold pull_loop pull_bound in ground arith in
      rw (live, found, first)
