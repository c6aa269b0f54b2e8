-- ===== src/AccessAudit/Store.antt =====
-- The audit's store (store.go): the policy in force, which the file keeps too, and the state of the
-- capture.
use remnawave_node_go.Base.{
  ℕ, Bool, not, ◌&&◌, ◌||◌, Option, List, [], ◌∷◌, Text, codes, text_eq, length, Error, message,
  Result, ok, err, ◌>>=◌, ltb, leb, ◌==◌, if◌then◌else◌, is_negative,
}
use remnawave_node_go.Base.BigEndian.{read_uint64}
use remnawave_node_go.Bolt.{Bolt, Contents, update}
use remnawave_node_go.UsageSnapshot.Capture.{put_checked, get_text}
use remnawave_node_go.AccessAudit.Policy.{Target, Config, validate}

-- encoding/json on the policy.
pub record Formats : Type 0 where
  pub config_text : Config → Text
  pub targets_text : List Target → Text

-- The four buckets of the file.
pub record Db (B : Bolt) : Type 0 where
  pub meta : B.Bucket
  pub records : B.Bucket
  pub pending : B.Bucket
  pub index : B.Bucket

pub record Store (B : Bolt) : Type 0 where
  pub db : Db B
  pub max_bytes : ℕ
  pub config : Config
  pub failed : Bool  -- lastError is not blank
  pub capturing : Bool

-- a < b on int64
unfoldable pub less_int64 : ℕ → ℕ → Bool
less_int64 a b =
    if is_negative a then not (is_negative b) || ltb a b else not (is_negative b) && ltb a b

module _ (B : Bolt) (F : Formats) where
  -- The transaction of Configure.
  unfoldable pub configure_tx : Config → Db B → Result (Unit {0} × Db B)
  configure_tx c db = do
    meta ← put_checked B db.meta (codes "config") (F.config_text c)
    ok (tt, record db { meta = meta })

  -- A policy of the revision in force, while that has not been lost by a restart, has the same targets.
  unfoldable pub conflicting : Config → Config → Bool
  conflicting c old =
      c.revision == old.revision
      && not (old.expires_at == 0)
      && not (text_eq (F.targets_text old.targets) (F.targets_text c.targets))

  -- `s.config = c` where the update succeeds.
  unfoldable pub configured :
      Config → Store B → Db B × Result (Unit {0}) → Store B × Result (Unit {0})
  configured c s (db, err e) = (record s { db = db }, err e)
  configured c s (db, ok u) = (record s { db = db; config = c }, ok u)

  unfoldable pub accept : Option Error → Config → Store B → Store B × Result (Unit {0})
  accept commit c s =
      if less_int64 c.revision s.config.revision
      then (s, err (message "stale audit policy revision"))
      else if conflicting c s.config
      then (s, err (message "audit policy revision conflict"))
      else configured c s (update commit (configure_tx c) s.db)

  unfoldable pub after_validate :
      Option Error → Config → Store B → Result (Unit {0}) → Store B × Result (Unit {0})
  after_validate commit c s (err e) = (s, err e)
  after_validate commit c s (ok u) = accept commit c s

  -- Configure
  unfoldable pub configure : Option Error → Config → ℕ → Store B → Store B × Result (Unit {0})
  configure commit c now s = after_validate commit c s (validate c now)

module _ (B : Bolt) where
  -- Enabled
  unfoldable pub enabled : ℕ → Store B → Bool
  enabled now s = ltb 0 (length s.config.targets) && ltb now s.config.expires_at

  -- Runtime, given whether there was an error.
  unfoldable pub set_runtime : Bool → Bool → Store B → Store B
  set_runtime capturing failed s = record s { capturing = capturing; failed = failed }

  -- The loop of Ack.
  unfoldable pub delete_acked : ℕ → Contents → B.Bucket → B.Bucket
  delete_acked through [] b = b
  delete_acked through ((k, v) ∷ c) b =
      let rest = delete_acked through c (B.delete b k) in
      if leb (read_uint64 k) through then rest else b

  unfoldable pub ack_tx : Text → ℕ → Db B → Result (Unit {0} × Db B)
  ack_tx generation through db =
      if not (text_eq generation (get_text B db.meta (codes "generation")))
      then err (message "audit generation mismatch")
      else if ltb (read_uint64 (get_text B db.meta (codes "sequence"))) through
      then err (message "audit acknowledgement beyond latest sequence")
      else ok (tt, record db { pending = delete_acked through (B.entries db.pending) db.pending })

  -- Ack
  unfoldable pub ack : Option Error → Text → ℕ → Store B → Store B × Result (Unit {0})
  ack commit generation through s =
      let (db, r) = update commit (ack_tx generation through) s.db in (record s { db = db }, r)
