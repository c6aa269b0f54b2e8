-- ===== src/AccessAudit/Applying.antt =====
-- The transactions on the audit's records (store.go): Apply, Pull, Prune, and what Open and Status
-- read. Each takes the error of its commit.
use remnawave_node_go.Base.{
  ℕ, ◌%◌, ◌^◌, Bool, true, false, not, ◌&&◌, ◌||◌, Option, none, some, List, [], ◌∷◌, ◌++◌, Text,
  codes, text_eq, length, Error, Result, ok, ◌>>=◌, ltb, leb, if◌then◌else◌, add_word, sub_word,
}
use remnawave_node_go.Base.BigEndian.{put_uint64, read_uint64}
use remnawave_node_go.Bolt.{Bolt, update}
use remnawave_node_go.UsageSnapshot.Capture.{put_checked, get_text}
use remnawave_node_go.AccessAudit.Policy.{Target, Config}
use remnawave_node_go.AccessAudit.Store.{Db, Store, less_int64}
use remnawave_node_go.AccessAudit.Records.{
  Addressing, Connection, Event, DiskRecord, new_record, skips, with_traffic, completed,
}
use remnawave_node_go.Statname.{user_id}

-- encoding/json on a record and the policy.
pub record DiskFormats : Type 0 where
  pub disk_text : DiskRecord → Result Text
  pub read_disk : Text → Result DiskRecord
  pub read_config : Text → Result Config

-- The target of a user; of two the last.
unfoldable pub selected : Text → List Target → Option Target
selected user [] = none
selected user (t ∷ ts) = elim (selected user ts) [
  | some later ↦ some later
  | none ↦ if text_eq t.user_id user then some t else none
]

abbrev pub is_new : Option Text → Bool
is_new none = true
is_new (some t) = false

-- len(previous)
abbrev pub length_before : Option Text → ℕ
length_before none = 0
length_before (some t) = length t

abbrev pub window_of : Option Target → Text
window_of none = []
window_of (some t) = t.window_id

module _ (B : Bolt) where
  -- number(m.Get(name))
  unfoldable pub number_at : Text → Db B → ℕ
  number_at name db = read_uint64 (get_text B db.meta name)

  -- m.Put(name, key(n))
  unfoldable pub put_number : Text → ℕ → Db B → Result (Db B)
  put_number name n db = do
    meta ← put_checked B db.meta name (put_uint64 n)
    ok (record db { meta = meta })

  -- The writes of a record that is accepted: its key, its text, the number before and whether it is new.
  unfoldable pub write_record : Event → Text → Text → ℕ → ℕ → ℕ → Bool → Db B → Result (Db B)
  write_record e k text old sequence size fresh db = do
    records ← put_checked B db.records k text
    counted ←
        if fresh
        then put_number (codes "recordCount") (add_word (number_at (codes "recordCount") db) 1) db
        else ok db
    index ← put_checked B db.index e.id k
    pending ← put_checked B (B.delete db.pending (put_uint64 old)) (put_uint64 sequence) k
    numbered ← put_number (codes "sequence") sequence counted
    put_number (codes "bytes") size
        (record numbered { records = records; index = index; pending = pending })

  -- Whether the file has no room for a text of this size, or no record more.
  unfoldable pub is_full : ℕ → ℕ → Bool → Db B → Bool
  is_full max_bytes size fresh db =
      less_int64 max_bytes size || fresh && leb 50000 (number_at (codes "recordCount") db)

  -- A record with its traffic, written or dropped.
  unfoldable pub store_record :
      DiskFormats → ℕ → ℕ → Event → Text → Option Text → DiskRecord → Db B → Result (Db B)
  store_record J max_bytes now e k previous d db =
      let sequence = add_word (number_at (codes "sequence") db) 1 in
      do
        text ← J.disk_text (completed now sequence e d)
        let size =
            add_word (number_at (codes "bytes") db)
              (sub_word (length text) (length_before previous % 2 ^ 64))
        if is_full max_bytes size (is_new previous) db
            then put_number (codes "dropped") (add_word (number_at (codes "dropped") db) 1) db
            else write_record e k text d.details.sequence sequence size (is_new previous) db

  unfoldable pub store_traffic :
      DiskFormats → ℕ → ℕ → Event → Text → Option Text → Option DiskRecord → Db B → Result (Db B)
  store_traffic J max_bytes now e k previous none db = ok db
  store_traffic J max_bytes now e k previous (some d) db =
      store_record J max_bytes now e k previous d db

  -- An event of a connection that the policy selects.
  unfoldable pub apply_connection :
      Addressing → DiskFormats → ℕ → ℕ → Event → Target → Connection → Db B → Result (Db B)
  apply_connection a J max_bytes now e t c db =
      if skips now t e.id c
      then ok db
      else let k = t.window_id ++ b':' ∷ e.id in
        elim (B.get db.records k) [
          | none ↦
              store_traffic J max_bytes now e k none
                (with_traffic e (some c) (new_record a e.id t c)) db
          | some previous ↦ do
            d ← J.read_disk previous
            store_traffic J max_bytes now e k (some previous) (with_traffic e (some c) d) db
        ]

  -- An update of a connection that the index knows.
  unfoldable pub apply_update :
      DiskFormats → ℕ → ℕ → List Target → Event → Text → Db B → Result (Db B)
  apply_update J max_bytes now targets e k db = do
    d ← J.read_disk (get_text B db.records k)
    if not (text_eq (window_of (selected d.details.user_id targets)) d.details.window_id)
        then ok db
        else elim (B.get db.records k) [
          | none ↦ ok db
          | some previous ↦
              store_traffic J max_bytes now e k (some previous) (with_traffic e none d) db
        ]

  unfoldable pub apply_selected :
      Addressing → DiskFormats → ℕ → ℕ → Event → Connection → Option Target → Db B → Result (Db B)
  apply_selected a J max_bytes now e c none db = ok db
  apply_selected a J max_bytes now e c (some t) db = apply_connection a J max_bytes now e t c db

  unfoldable pub apply_indexed :
      DiskFormats → ℕ → ℕ → List Target → Event → Option Text → Db B → Result (Db B)
  apply_indexed J max_bytes now targets e none db = ok db
  apply_indexed J max_bytes now targets e (some k) db = apply_update J max_bytes now targets e k db

  unfoldable pub apply_new :
      Addressing
      → DiskFormats
      → ℕ
      → ℕ
      → List Target
      → Event
      → Option Connection
      → Db B
      → Result (Db B)
  apply_new a J max_bytes now targets e (some c) db =
      apply_selected a J max_bytes now e c (selected (user_id c.user) targets) db
  apply_new a J max_bytes now targets e none db =
      apply_indexed J max_bytes now targets e (B.get db.index e.id) db

  abbrev pub apply_event :
      Addressing → DiskFormats → ℕ → ℕ → List Target → Event → Db B → Result (Db B)
  apply_event a J max_bytes now targets e db = apply_new a J max_bytes now targets e e.connection db

  -- The loop of Apply.
  unfoldable pub apply_events :
      Addressing → DiskFormats → ℕ → ℕ → List Target → List Event → Db B → Result (Unit {0} × Db B)
  apply_events a J max_bytes now targets [] db = ok (tt, db)
  apply_events a J max_bytes now targets (e ∷ es) db = do
    next ← apply_event a J max_bytes now targets e db
    apply_events a J max_bytes now targets es next

  -- Apply, which does nothing when the lease is over.
  unfoldable pub apply_audit :
      Addressing
      → DiskFormats
      → Option Error
      → List Event
      → ℕ
      → Store B
      → Store B × Result (Unit {0})
  apply_audit a J commit events now s =
      if not (ltb now s.config.expires_at)
      then (s, ok tt)
      else let (db, r) =
          update commit (apply_events a J s.max_bytes now s.config.targets events) s.db in
        (record s { db = db }, r)
