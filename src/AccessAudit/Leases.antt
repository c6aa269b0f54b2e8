-- ===== src/AccessAudit/Leases.antt =====
-- What `Configure` lets in, and what it leaves.
use remnawave_node_go.Base.{
  ℕ, ◌+◌, ◌*◌, ◌^◌, ◌≤◌, ◌<◌, ◌≡◌, refl, sym, ap, true, false, ◌⊎◌, inl, inr, Option, List, [], ◌∷◌,
  arith, All, Text, text_eq, text_eq_iff, length, Error, Result, ok, err, Bool-cases,
}
use remnawave_node_go.Bolt.{Bolt, update}
use remnawave_node_go.AccessAudit.Policy.{
  Target, Config, is_user_id, is_uuid, minute, seen, bad_target, bad_targets, bad_lease, validate,
}
use remnawave_node_go.AccessAudit.Store.{
  Formats, Db, Store, less_int64, configure_tx, conflicting, configured, accept, after_validate,
  configure,
}

-- A target whose ids have their form, which began a minute from now at the latest and keeps records for
-- 1 to 30 days.
pub record IsTarget (now : ℕ) (t : Target) : Type 0 where
  pub user : is_user_id t.user_id ≡ true
  pub window : is_uuid t.window_id ≡ true
  pub begun : (0 < t.enabled_at) × (t.enabled_at ≤ now + minute)
  pub kept : (1 ≤ t.retention_days) × (t.retention_days ≤ 30)

-- No user is among those seen before it.
abbrev pub DistinctUsers : List Text → List Target → Type 0
DistinctUsers users [] = Unit
DistinctUsers users (t ∷ ts) = (seen t.user_id users ≡ false) × DistinctUsers (t.user_id ∷ users) ts

bad_targets-false :
    (now : ℕ) (users : List Text) (ts : List Target)
    → bad_targets now users ts ≡ false
    → All (IsTarget now) ts × DistinctUsers users ts
unfolding bad_targets bad_target
bad_targets-false now users [] h = (tt, tt)
bad_targets-false now users (t ∷ ts) h =
    let (all, distinct) = bad_targets-false now (t.user_id ∷ users) ts (ground arith) in
    (
      (
        record {
          user = ground arith;
          window = ground arith;
          begun = ground arith;
          kept = ground arith;
        },
        all,
      ),
      (ground arith, distinct),
    )

-- A policy that may be put in force at the time.
pub record IsLease (now : ℕ) (c : Config) : Type 0 where
  pub revision : c.revision ≤ 9007199254740991
  pub few : length c.targets ≤ 10000
  pub lasting : (now < c.expires_at) × (c.expires_at ≤ now + 5 * minute)
  pub targets : All (IsTarget now) c.targets
  pub distinct : DistinctUsers [] c.targets

validate-IsLease : (c : Config) (now : ℕ) → validate c now ≡ ok tt → IsLease now c
unfolding validate bad_lease
validate-IsLease c now h =
    let (all, distinct) = bad_targets-false now [] c.targets (ground arith) in
    record {
      revision = ground arith;
      few = ground arith;
      lasting = ground arith;
      targets = all;
      distinct = distinct;
    }

err_ok : {e : Error} {u : Unit {0}} → err e ≡ ok u → ⊥
err_ok h = cc

module _ (B : Bolt) (F : Formats) where
  agreed :
      (c old : Config)
      → ((ts : List Target) → F.targets_text ts ≡ F.targets_text c.targets → ts ≡ c.targets)
      → conflicting B F c old ≡ false
      → c.revision ≡ old.revision
      → (old.expires_at ≡ 0) ⊎ (old.targets ≡ c.targets)
  unfolding conflicting
  agreed c old faithful agree same =
      elim (Bool-cases (text_eq (F.targets_text old.targets) (F.targets_text c.targets))) [
        | inl equal ↦
            inr (faithful old.targets ((text_eq_iff (F.targets_text old.targets) _).0 equal))
        | inr apart ↦ inl (ground arith)
      ]

  configured-ok :
      (c : Config) (s s' : Store B) (u : Db B × Result (Unit {0}))
      → configured B F c s u ≡ (s', ok tt)
      → s'.config ≡ c
  unfolding configured
  configured-ok c s s' (db, err e) h = absurd (err_ok (ap (λ r. r.1) h))
  configured-ok c s s' (db, ok u) h = ap (λ r. r.0.config) (sym h)

  accept-ok :
      (commit : Option Error) (c : Config) (s s' : Store B)
      → accept B F commit c s ≡ (s', ok tt)
      → (s'.config ≡ c)
        × (less_int64 c.revision s.config.revision ≡ false)
        × (conflicting B F c s.config ≡ false)
  unfolding accept
  accept-ok commit c s s' h = elim (Bool-cases (less_int64 c.revision s.config.revision)) [
    | inl stale ↦ absurd (err_ok (ap (λ r. r.1) (simp stale at h)))
    | inr fresh ↦ elim (Bool-cases (conflicting B F c s.config)) [
      | inl differ ↦ absurd (err_ok (ap (λ r. r.1) (simp (fresh, differ) at h)))
      | inr agree ↦ (
        configured-ok c s s' (update commit (configure_tx B F c) s.db) (simp (fresh, agree) at h),
        fresh,
        agree,
      )
    ]
  ]

  after_validate-ok :
      (commit : Option Error) (c : Config) (s s' : Store B) (v : Result (Unit {0}))
      → after_validate B F commit c s v ≡ (s', ok tt)
      → (v ≡ ok tt) × (accept B F commit c s ≡ (s', ok tt))
  unfolding after_validate
  after_validate-ok commit c s s' (err e) h = absurd (err_ok (ap (λ r. r.1) h))
  after_validate-ok commit c s s' (ok u) h = (refl, h)

  -- A policy that Configure takes over is in force afterwards: a lease of five minutes at most with
  -- targets in order and each user once; its revision is not below the one before, which is not
  -- negative, and where it is the same and that policy was still leased, so are the targets. The JSON
  -- text of its targets must be that of no other targets.
  pub configure-IsLease :
      (commit : Option Error) (c : Config) (now : ℕ) (s s' : Store B)
      → ((ts : List Target) → F.targets_text ts ≡ F.targets_text c.targets → ts ≡ c.targets)
      → s.config.revision < 2 ^ 63
      → configure B F commit c now s ≡ (s', ok tt)
      → (s'.config ≡ c)
        × IsLease now c
        × ((s.config.revision < c.revision)
            ⊎ (s.config.revision ≡ c.revision)
              × ((s.config.expires_at ≡ 0) ⊎ (s.config.targets ≡ c.targets)))
  unfolding configure less_int64
  configure-IsLease commit c now s s' faithful old h =
      let (valid, accepted) = after_validate-ok commit c s s' (validate c now) h in
      let (same, fresh, agree) = accept-ok commit c s s' accepted in
      let lease = validate-IsLease c now valid in
      (same, lease, ground (arith, lease.revision, agreed c s.config faithful agree))
