-- ===== src/AccessAudit/Tests.antt =====
-- The theorems on the policy at concrete leases.
use remnawave_node_go.Base.{
  suc, List, Text, ◌+◌, ◌<◌, ◌≡◌, ◌⊎◌, refl, sym, false, none, [], ◌∷◌, arith, codes, text_eq,
  is_empty, message, ok, err,
}
use remnawave_node_go.Bolt.{insert, update}
use remnawave_node_go.Bolt.Memory.{memory, refuses}
use remnawave_node_go.UsageSnapshot.Capture.{put_checked}
use remnawave_node_go.AccessAudit.Policy.{
  Target, Config, minute, is_user_id, is_uuid, seen, bad_target, bad_targets, bad_lease, validate,
}
use remnawave_node_go.AccessAudit.Store.{
  Formats, Store, less_int64, conflicting, configured, configure_tx, accept, after_validate,
  configure,
}
use remnawave_node_go.AccessAudit.Leases.{IsLease, configure-IsLease}

abbrev target : Target
target = record {
  user_id = codes "42";
  window_id = codes "0a1b2c3d-0000-4000-8000-0123456789ab";
  enabled_at = 900000000000;
  retention_days = 7;
}

abbrev lease : Config
lease = record { revision = 3; expires_at = 1000000000000 + minute; targets = target ∷ [] }

-- A text, closed, before more.
abbrev closed : Text → Text → Text
closed [] rest = 0 ∷ rest
closed (x ∷ xs) rest = suc x ∷ closed xs rest

abbrev targets_text : List Target → Text
targets_text [] = []
targets_text (t ∷ ts) =
    closed t.user_id (closed t.window_id (t.enabled_at ∷ t.retention_days ∷ targets_text ts))

closed-nonempty : (a rest : Text) → closed a rest ≡ [] → ⊥
closed-nonempty [] rest h = cc
closed-nonempty (x ∷ a) rest h = cc

closed-injective : (a b xs ys : Text) → closed a xs ≡ closed b ys → (a ≡ b) × (xs ≡ ys)
closed-injective [] [] xs ys h = (refl, cc)
closed-injective [] (y ∷ b) xs ys h = cc
closed-injective (x ∷ a) [] xs ys h = cc
closed-injective (x ∷ a) (y ∷ b) xs ys h =
    let rest : closed a xs ≡ closed b ys = cc in
    let (same, after) = closed-injective a b xs ys rest in let first : x ≡ y = cc in (cc, after)

same_target :
    (t u : Target)
    → t.user_id ≡ u.user_id
    → t.window_id ≡ u.window_id
    → t.enabled_at ≡ u.enabled_at
    → t.retention_days ≡ u.retention_days
    → t ≡ u
same_target t u a b c d i = record {
  user_id = a i;
  window_id = b i;
  enabled_at = c i;
  retention_days = d i;
}

targets_text-injective : (ts us : List Target) → targets_text ts ≡ targets_text us → ts ≡ us
targets_text-injective [] [] h = refl
targets_text-injective [] (u ∷ us) h = absurd (closed-nonempty u.user_id _ (sym h))
targets_text-injective (t ∷ ts) [] h = absurd (closed-nonempty t.user_id _ h)
targets_text-injective (t ∷ ts) (u ∷ us) h =
    let (user, after) = closed-injective t.user_id u.user_id _ _ h in
    let (window, numbers) = closed-injective t.window_id u.window_id _ _ after in
    let enabled : t.enabled_at ≡ u.enabled_at = cc in
    let kept : t.retention_days ≡ u.retention_days = cc in
    let text : targets_text ts ≡ targets_text us = cc in
    let rest = targets_text-injective ts us text in
    let same = same_target t u user window enabled kept in cc

abbrev formats : Formats
formats = record { config_text = λ c. codes "policy"; targets_text = targets_text }

abbrev opened : Store memory
opened = record {
  db = record { meta = []; records = []; pending = []; index = [] };
  max_bytes = 33554432;
  config = record { revision = 0; expires_at = 0; targets = [] };
  failed = false;
  capturing = false;
}

run_all : Unit {0}
unfolding insert update refuses put_checked is_user_id is_uuid seen bad_target bad_targets bad_lease
    validate less_int64 conflicting configured configure_tx accept after_validate configure text_eq
    is_empty
run_all = tt

abbrev leased : Store memory
leased = (configure memory formats none lease 1000000000000 opened).0

accepted : configure memory formats none lease 1000000000000 opened ≡ (leased, ok tt)
unfolding run_all
accepted = refl

configure-IsLease_example :
    (leased.config ≡ lease)
    × IsLease 1000000000000 lease
    × ((opened.config.revision < lease.revision)
        ⊎ (opened.config.revision ≡ lease.revision)
          × ((opened.config.expires_at ≡ 0) ⊎ (opened.config.targets ≡ lease.targets)))
configure-IsLease_example =
    configure-IsLease memory formats none lease 1000000000000 opened leased
      (λ ts h. targets_text-injective ts lease.targets h) (omega arith) accepted

-- The same revision with other targets.
refused :
    configure memory formats none (record lease { targets = [] }) 1000000000000 leased
    ≡ (leased, err (message "audit policy revision conflict"))
unfolding run_all
refused = refl
