-- ===== src/AccessAudit/Reading.antt =====
-- What is read of the audit's store and removed from it (store.go: Open, Status, Pull, Prune). Open is
-- given the file's buckets, the random bytes and the error of the commit.
use remnawave_node_go.Base.{
  ℕ, ◌+◌, ◌*◌, ◌%◌, ◌^◌, Bool, true, false, not, ◌&&◌, ◌||◌, Option, none, some, List, [], ◌∷◌,
  ◌++◌, Text, codes, text_eq, is_empty, length, Error, Result, ok, err, ◌>>=◌, ltb, leb,
  if◌then◌else◌, is_positive, sub_word,
}
use remnawave_node_go.Base.BigEndian.{put_uint64}
use remnawave_node_go.Base.Hex.{hex}
use remnawave_node_go.Bolt.{Bolt, Contents, update}
use remnawave_node_go.UsageSnapshot.Capture.{put_checked, get_text}
use remnawave_node_go.AccessAudit.Policy.{Config}
use remnawave_node_go.AccessAudit.Store.{Db, Store}
use remnawave_node_go.AccessAudit.Records.{Record, DiskRecord}
use remnawave_node_go.AccessAudit.Applying.{DiskFormats, number_at, put_number}

pub record Batch : Type 0 where
  pub generation : Text
  pub records : List Record
  pub has_more : Bool

pub record AuditStatus : Type 0 where
  pub generation : Text
  pub revision : ℕ
  pub enabled_users : ℕ
  pub capturing : Bool
  pub pending : ℕ
  pub dropped : ℕ
  pub failed : Bool
  pub expires_at : ℕ

abbrev pub no_policy : Config
no_policy = record { revision = 0; expires_at = 0; targets = [] }

-- The policy of a file, whose lease a restart ends.
unfoldable pub restarted_policy : DiskFormats → Option Text → Result Config
restarted_policy J none = ok no_policy
restarted_policy J (some t) = do c ← J.read_config t; ok (record c { expires_at = 0 })

-- The limit of Pull, on an int.
unfoldable pub pull_limit : ℕ → ℕ
pull_limit n = if not (is_positive n) || ltb 500 n then 200 else n

-- A record that its retention has passed.
unfoldable pub is_over : ℕ → DiskRecord → Bool
is_over now d = ltb (d.details.observed_at + d.retention_days * 86400000000000) now

module _ (B : Bolt) where
  -- A file that has no generation yet gets one.
  unfoldable pub with_generation : Result Text → Db B → Result (Db B)
  with_generation random db =
      if not (is_empty (get_text B db.meta (codes "generation"))) then ok db else do
        bytes ← random
        meta ← put_checked B db.meta (codes "generation") (hex bytes)
        ok (record db { meta = meta })

  unfoldable pub open_tx : DiskFormats → Result Text → Db B → Result (Config × Db B)
  open_tx J random db = do
    named ← with_generation random db
    c ← restarted_policy J (B.get named.meta (codes "config"))
    ok (c, named)

  abbrev pub opened : ℕ → Db B × Result Config → Db B × Result (Store B)
  opened max_bytes (db, err e) = (db, err e)
  opened max_bytes (db, ok c) = (
    db,
    ok (record {
      db = db;
      max_bytes = if is_positive max_bytes then max_bytes else 33554432;
      config = c;
      failed = false;
      capturing = false;
    }),
  )

  -- Open, with the buckets there.
  unfoldable pub open_audit :
      DiskFormats → Option Error → Result Text → ℕ → Db B → Db B × Result (Store B)
  open_audit J commit random max_bytes db = opened max_bytes (update commit (open_tx J random) db)

  -- Status
  unfoldable pub audit_status : ℕ → Store B → AuditStatus
  audit_status now s = record {
    generation = get_text B s.db.meta (codes "generation");
    revision = s.config.revision;
    enabled_users = length s.config.targets;
    capturing = s.capturing && ltb now s.config.expires_at;
    pending = length (B.entries s.db.pending);
    dropped = number_at B (codes "dropped") s.db;
    failed = s.failed;
    expires_at = s.config.expires_at;
  }

  -- The loop of Pull over the pending numbers, given the records and the bytes so far.
  unfoldable pub pull_records :
      DiskFormats → ℕ → Db B → Contents → List Record → ℕ → Result (List Record × Bool)
  pull_records J limit db [] taken used = ok (taken, false)
  pull_records J limit db ((n, k) ∷ c) taken used =
      let text = get_text B db.records k in
      do
        d ← J.read_disk text
        if leb limit (length taken) || ltb 1048576 (used + length text)
            then ok (taken, true)
            else pull_records J limit db c (taken ++ d.details ∷ []) (used + length text)

  -- Pull
  unfoldable pub pull_audit : DiskFormats → ℕ → Store B → Result Batch
  pull_audit J limit s = do
    r ← pull_records J (pull_limit limit) s.db (B.entries s.db.pending) [] 0
    ok (record {
      generation = get_text B s.db.meta (codes "generation");
      records = r.0;
      has_more = r.1;
    })

  -- A record leaves the buckets; the index forgets its connection where it leads to this record.
  abbrev pub without_record : Text → DiskRecord → Db B → Db B
  without_record k d db =
      let id = d.details.connection_id in
      record db {
        pending = B.delete db.pending (put_uint64 d.details.sequence);
        index = if text_eq (get_text B db.index id) k then B.delete db.index id else db.index;
        records = B.delete db.records k;
      }

  unfoldable pub remove_record : Text → DiskRecord → Db B → Result (Db B)
  remove_record k d db =
      put_number B (codes "recordCount") (sub_word (number_at B (codes "recordCount") db) 1)
        (without_record k d db)

  -- The loop of Prune, given the bytes that are left.
  unfoldable pub prune_records : DiskFormats → ℕ → Contents → ℕ → Db B → Result (ℕ × Db B)
  prune_records J now [] size db = ok (size, db)
  prune_records J now ((k, v) ∷ c) size db = do
    d ← J.read_disk v
    if not (is_over now d) then prune_records J now c size db else do
      removed ← remove_record k d db
      prune_records J now c (sub_word size (length v % 2 ^ 64)) removed

  unfoldable pub prune_tx : DiskFormats → ℕ → Db B → Result (Unit {0} × Db B)
  prune_tx J now db = do
    left ← prune_records J now (B.entries db.records) (number_at B (codes "bytes") db) db
    sized ← put_number B (codes "bytes") left.0 left.1
    ok (tt, sized)

  -- Prune
  unfoldable pub prune : DiskFormats → Option Error → ℕ → Store B → Store B × Result (Unit {0})
  prune J commit now s =
      let (db, r) = update commit (prune_tx J now) s.db in (record s { db = db }, r)
