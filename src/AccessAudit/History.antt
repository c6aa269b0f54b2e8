-- ===== src/AccessAudit/History.antt =====
-- The calls of the audit's store one after another, from the opening of a file.
use remnawave_node_go.Base.{
  ℕ, ◌≡◌, refl, sym, ap, ◌∙◌, subst, false, Option, Text, codes, text_eq, Error, Result, ok, err,
  >>=-eq-ok, Bool-cases, inl, inr, [], ◌∷◌, List, ltb, message,
}
use remnawave_node_go.Base.BigEndian.{read_uint64}
use remnawave_node_go.Bolt.{Bolt, update_keeps, update}
use remnawave_node_go.UsageSnapshot.Capture.{get_text, put_checked}
use remnawave_node_go.UsageSnapshot.Buckets.{get_text-put, put_checked-eq-ok}
use remnawave_node_go.AccessAudit.Policy.{Config, validate}
use remnawave_node_go.AccessAudit.Store.{
  Formats, Db, Store, less_int64, conflicting, configure_tx, configured, accept, after_validate,
  configure, ack_tx, ack, delete_acked,
}
use remnawave_node_go.AccessAudit.Records.{Addressing, Event}
use remnawave_node_go.AccessAudit.Applying.{DiskFormats, number_at, apply_audit}
use remnawave_node_go.AccessAudit.Reading.{prune}
use remnawave_node_go.AccessAudit.Counted.{IsCounted}
use remnawave_node_go.AccessAudit.Accounts.{apply_audit-IsCounted}
use remnawave_node_go.AccessAudit.Pruned.{prune-IsCounted}

module _ (B : Bolt) (F : Formats) where
  configure_tx-IsCounted :
      (c : Config) (db : Db B) (u : Unit {0}) (after : Db B)
      → IsCounted B db
      → configure_tx B F c db ≡ ok (u, after)
      → IsCounted B after
  unfolding configure_tx number_at text_eq
  configure_tx-IsCounted c db u after v h =
      let text = F.config_text c in
      let (meta, put, made) = >>=-eq-ok (put_checked B db.meta (codes "config") text) _ h in
      let written = put_checked-eq-ok B db.meta (codes "config") text put in
      let same : record db { meta = meta } ≡ after = cc in
      let number : (name : Text)
          → text_eq (codes "config") name ≡ false
          → read_uint64 (get_text B meta name) ≡ read_uint64 (get_text B db.meta name) =
        λ name apart.
          ap (λ m. read_uint64 (get_text B m name)) written
          ∙ ap read_uint64 (get_text-put B db.meta (codes "config") text name ∙ simp apart refl) in
      subst (IsCounted B) same (record {
        ordered = v.ordered;
        counted = number (codes "recordCount") refl ∙ v.counted;
        sized = number (codes "bytes") refl ∙ v.sized;
      })

  configured-db :
      (c : Config) (s : Store B) (db : Db B) (r : Result (Unit {0}))
      → (configured B F c s (db, r)).0.db ≡ db
  unfolding configured
  configured-db c s db (err e) = refl
  configured-db c s db (ok u) = refl

  accept-IsCounted :
      (commit : Option Error) (c : Config) (s : Store B)
      → IsCounted B s.db
      → IsCounted B (accept B F commit c s).0.db
  unfolding accept
  accept-IsCounted commit c s v = elim (Bool-cases (less_int64 c.revision s.config.revision)) [
    | inl stale ↦ simp stale v
    | inr current ↦ elim (Bool-cases (conflicting B F c s.config)) [
      | inl conflict ↦ simp (current, conflict) v
      | inr agreed ↦
          let r = update commit (configure_tx B F c) s.db in
          let kept =
            update_keeps (IsCounted B) commit (configure_tx B F c) s.db v
              (λ u after h. configure_tx-IsCounted c s.db u after v h) in
          simp (current, agreed) (subst (IsCounted B) (sym (configured-db c s r.0 r.1)) kept)
    ]
  ]

  after_validate-IsCounted :
      (commit : Option Error) (c : Config) (s : Store B) (r : Result (Unit {0}))
      → IsCounted B s.db
      → IsCounted B (after_validate B F commit c s r).0.db
  unfolding after_validate
  after_validate-IsCounted commit c s (err e) v = v
  after_validate-IsCounted commit c s (ok u) v = accept-IsCounted commit c s v

  configure-IsCounted :
      (commit : Option Error) (c : Config) (now : ℕ) (s : Store B)
      → IsCounted B s.db
      → IsCounted B (configure B F commit c now s).0.db
  unfolding configure
  configure-IsCounted commit c now s v = after_validate-IsCounted commit c s (validate c now) v

module _ (B : Bolt) where
  ack_tx-IsCounted :
      (generation : Text) (through : ℕ) (db : Db B) (u : Unit {0}) (after : Db B)
      → IsCounted B db
      → ack_tx B generation through db ≡ ok (u, after)
      → IsCounted B after
  unfolding ack_tx number_at
  ack_tx-IsCounted generation through db u after v h =
      elim (Bool-cases (text_eq generation (get_text B db.meta (codes "generation")))) [
        | inr other ↦
            let bad : err (message "audit generation mismatch") ≡ ok (u, after) = simp other at h in
            cc
        | inl same ↦
            elim (Bool-cases (ltb (read_uint64 (get_text B db.meta (codes "sequence"))) through)) [
              | inl beyond ↦
                  let bad : err (message "audit acknowledgement beyond latest sequence")
                      ≡ ok (u, after) =
                    simp (same, beyond) at h in
                  cc
              | inr within ↦
                  let pending = delete_acked B through (B.entries db.pending) db.pending in
                  let done : ok (u, record db { pending = pending }) ≡ ok (u, after) =
                    simp (same, within) at h in
                  let final : record db { pending = pending } ≡ after = cc in
                  subst (IsCounted B) final
                    (record { ordered = v.ordered; counted = v.counted; sized = v.sized })
            ]
      ]

  ack-IsCounted :
      (commit : Option Error) (generation : Text) (through : ℕ) (s : Store B)
      → IsCounted B s.db
      → IsCounted B (ack B commit generation through s).0.db
  unfolding ack
  ack-IsCounted commit generation through s v =
      update_keeps (IsCounted B) commit (ack_tx B generation through) s.db v
        (λ u after h. ack_tx-IsCounted generation through s.db u after v h)

-- A call that changes the file, with the error of its commit and its time.
pub data AuditCall : Type 0 where
  configures : Option Error → Config → ℕ → AuditCall
  applies : Option Error → List Event → ℕ → AuditCall
  acks : Option Error → Text → ℕ → AuditCall
  prunes : Option Error → ℕ → AuditCall

module _ (B : Bolt) (F : Formats) (J : DiskFormats) (a : Addressing) where
  unfoldable pub call_audit : AuditCall → Store B → Store B
  call_audit (configures commit c now) s = (configure B F commit c now s).0
  call_audit (applies commit es now) s = (apply_audit B a J commit es now s).0
  call_audit (acks commit generation through) s = (ack B commit generation through s).0
  call_audit (prunes commit now) s = (prune B J commit now s).0

  unfoldable pub run_audit : List AuditCall → Store B → Store B
  run_audit [] s = s
  run_audit (c ∷ cs) s = run_audit cs (call_audit c s)

  call_audit-IsCounted :
      (c : AuditCall) (s : Store B) → IsCounted B s.db → IsCounted B (call_audit c s).db
  unfolding call_audit
  call_audit-IsCounted (configures commit c now) s v = configure-IsCounted B F commit c now s v
  call_audit-IsCounted (applies commit es now) s v = apply_audit-IsCounted B J a commit es now s v
  call_audit-IsCounted (acks commit generation through) s v =
      ack-IsCounted B commit generation through s v
  call_audit-IsCounted (prunes commit now) s v = prune-IsCounted B J commit now s v

  -- From a file whose counts are right, calls of Configure, Apply, Ack and Prune in any order, with any
  -- arguments and any errors of their commits, leave one whose counts are right: the records' keys
  -- ascend, "recordCount" is the number of records and "bytes" the sum of their lengths, both modulo
  -- 2^64.
  pub run_audit-IsCounted :
      (calls : List AuditCall) (s : Store B) → IsCounted B s.db → IsCounted B (run_audit calls s).db
  unfolding run_audit
  run_audit-IsCounted [] s v = v
  run_audit-IsCounted (c ∷ cs) s v =
      run_audit-IsCounted cs (call_audit c s) (call_audit-IsCounted c s v)
