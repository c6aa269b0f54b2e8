-- ===== src/AccessAudit/Accounts.antt =====
-- The counts of the audit's records over the calls of Apply, Prune, Ack and Configure.
use remnawave_node_go.Base.{
  ℕ, ◌≡◌, subst, Option, none, some, Text, text_eq, Error, ok, >>=-eq-ok, Option-cases, Bool-cases,
  inl, inr, [], ◌∷◌, List, not, ◌++◌, ltb,
}
use remnawave_node_go.Bolt.{Bolt, update_keeps}
use remnawave_node_go.AccessAudit.Policy.{Target}
use remnawave_node_go.AccessAudit.Store.{Db, Store}
use remnawave_node_go.AccessAudit.Records.{
  Addressing, Connection, Event, DiskRecord, new_record, skips, with_traffic,
}
use remnawave_node_go.AccessAudit.Applying.{
  DiskFormats, store_traffic, apply_connection, apply_update, apply_event, apply_events,
  apply_selected, apply_indexed, apply_new, apply_audit, window_of, selected,
}
use remnawave_node_go.UsageSnapshot.Capture.{get_text}
use remnawave_node_go.Statname.{user_id}
use remnawave_node_go.AccessAudit.Counted.{IsCounted}
use remnawave_node_go.AccessAudit.Written.{store_record-IsCounted}

module _ (B : Bolt) (J : DiskFormats) where
  store_traffic-IsCounted :
      (max_bytes now : ℕ) (e : Event) (k : Text) (previous : Option Text) (d : Option DiskRecord)
      (db : Db B) {after : Db B}
      → B.get db.records k ≡ previous
      → IsCounted B db
      → store_traffic B J max_bytes now e k previous d db ≡ ok after
      → IsCounted B after
  unfolding store_traffic
  store_traffic-IsCounted max_bytes now e k previous none db {after} found v h =
      let same : db ≡ after = cc in subst (IsCounted B) same v
  store_traffic-IsCounted max_bytes now e k previous (some d) db found v h =
      store_record-IsCounted B J max_bytes now e k previous d db found v h

  apply_connection-IsCounted :
      (a : Addressing) (max_bytes now : ℕ) (e : Event) (t : Target) (c : Connection) (db : Db B)
      {after : Db B}
      → IsCounted B db
      → apply_connection B a J max_bytes now e t c db ≡ ok after
      → IsCounted B after
  unfolding apply_connection
  apply_connection-IsCounted a max_bytes now e t c db {after} v h =
      let k = t.window_id ++ b':' ∷ e.id in
      elim (Bool-cases (skips now t e.id c)) [
        | inl skip ↦
            let done : ok db ≡ ok after = simp skip at h in
            let same : db ≡ after = cc in subst (IsCounted B) same v
        | inr taken ↦ elim (Option-cases (B.get db.records k)) [
          | inl new ↦
              store_traffic-IsCounted max_bytes now e k none
                (with_traffic e (some c) (new_record a e.id t c)) db new v (simp (taken, new) at h)
          | inr (previous, found) ↦
              let (d, read, h1) =
                >>=-eq-ok (J.read_disk previous)
                  (λ d.
                    store_traffic B J max_bytes now e k (some previous) (with_traffic e (some c) d)
                      db)
                  (simp (taken, found) at h) in
              store_traffic-IsCounted max_bytes now e k (some previous) (with_traffic e (some c) d)
                db found v h1
        ]
      ]

  apply_update-IsCounted :
      (max_bytes now : ℕ) (targets : List Target) (e : Event) (k : Text) (db : Db B) {after : Db B}
      → IsCounted B db
      → apply_update B J max_bytes now targets e k db ≡ ok after
      → IsCounted B after
  unfolding apply_update
  apply_update-IsCounted max_bytes now targets e k db {after} v h =
      let (d, read, h1) = >>=-eq-ok (J.read_disk (get_text B db.records k)) _ h in
      elim (Bool-cases
        (text_eq (window_of (selected d.details.user_id targets)) d.details.window_id)) [
          | inr other ↦
              let done : ok db ≡ ok after = simp other at h1 in
              let same : db ≡ after = cc in subst (IsCounted B) same v
          | inl window ↦ elim (Option-cases (B.get db.records k)) [
            | inl gone ↦
                let done : ok db ≡ ok after = simp (window, gone) at h1 in
                let same : db ≡ after = cc in subst (IsCounted B) same v
            | inr (previous, found) ↦
                store_traffic-IsCounted max_bytes now e k (some previous) (with_traffic e none d) db
                  found v (simp (window, found) at h1)
          ]
        ]

  apply_selected-IsCounted :
      (a : Addressing) (max_bytes now : ℕ) (e : Event) (c : Connection) (t : Option Target)
      (db : Db B) {after : Db B}
      → IsCounted B db
      → apply_selected B a J max_bytes now e c t db ≡ ok after
      → IsCounted B after
  unfolding apply_selected
  apply_selected-IsCounted a max_bytes now e c none db {after} v h =
      let same : db ≡ after = cc in subst (IsCounted B) same v
  apply_selected-IsCounted a max_bytes now e c (some t) db v h =
      apply_connection-IsCounted a max_bytes now e t c db v h

  apply_indexed-IsCounted :
      (max_bytes now : ℕ) (targets : List Target) (e : Event) (k : Option Text) (db : Db B)
      {after : Db B}
      → IsCounted B db
      → apply_indexed B J max_bytes now targets e k db ≡ ok after
      → IsCounted B after
  unfolding apply_indexed
  apply_indexed-IsCounted max_bytes now targets e none db {after} v h =
      let same : db ≡ after = cc in subst (IsCounted B) same v
  apply_indexed-IsCounted max_bytes now targets e (some k) db v h =
      apply_update-IsCounted max_bytes now targets e k db v h

  apply_new-IsCounted :
      (a : Addressing) (max_bytes now : ℕ) (targets : List Target) (e : Event)
      (c : Option Connection) (db : Db B) {after : Db B}
      → IsCounted B db
      → apply_new B a J max_bytes now targets e c db ≡ ok after
      → IsCounted B after
  unfolding apply_new
  apply_new-IsCounted a max_bytes now targets e (some c) db v h =
      apply_selected-IsCounted a max_bytes now e c (selected (user_id c.user) targets) db v h
  apply_new-IsCounted a max_bytes now targets e none db v h =
      apply_indexed-IsCounted max_bytes now targets e (B.get db.index e.id) db v h

  apply_events-IsCounted :
      (a : Addressing) (max_bytes now : ℕ) (targets : List Target) (es : List Event) (db : Db B)
      (u : Unit {0}) (after : Db B)
      → IsCounted B db
      → apply_events B a J max_bytes now targets es db ≡ ok (u, after)
      → IsCounted B after
  unfolding apply_events
  apply_events-IsCounted a max_bytes now targets [] db u after v h =
      let same : db ≡ after = cc in subst (IsCounted B) same v
  apply_events-IsCounted a max_bytes now targets (e ∷ es) db u after v h =
      let (next, first, rest) = >>=-eq-ok (apply_event B a J max_bytes now targets e db) _ h in
      apply_events-IsCounted a max_bytes now targets es next u after
        (apply_new-IsCounted a max_bytes now targets e e.connection db v first) rest

  pub apply_audit-IsCounted :
      (a : Addressing) (commit : Option Error) (es : List Event) (now : ℕ) (s : Store B)
      → IsCounted B s.db
      → IsCounted B (apply_audit B a J commit es now s).0.db
  unfolding apply_audit
  apply_audit-IsCounted a commit es now s v =
      elim (Bool-cases (not (ltb now s.config.expires_at))) [
        | inl over ↦ simp over v
        | inr leased ↦ simp leased (
            update_keeps (IsCounted B) commit
              (apply_events B a J s.max_bytes now s.config.targets es) s.db v
              (λ u after h.
                apply_events-IsCounted a s.max_bytes now s.config.targets es s.db u after v h))
      ]
