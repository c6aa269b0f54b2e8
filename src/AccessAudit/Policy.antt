-- ===== src/AccessAudit/Policy.antt =====
-- The audit's policy (store.go: Target, Config, Validate). Times are nanoseconds since the zero time,
-- which is 0; int and int64 are 64-bit patterns.
use remnawave_node_go.Base.{
  ℕ, zero, suc, ◌+◌, ◌*◌, Bool, true, false, not, ◌&&◌, ◌||◌, List, [], ◌∷◌, Text, text_eq, length,
  message, Result, ok, err, leb, ltb, ◌==◌, if◌then◌else◌, is_negative,
}

pub record Target : Type 0 where
  pub user_id : Text
  pub window_id : Text
  pub enabled_at : ℕ
  pub retention_days : ℕ  -- int

pub record Config : Type 0 where
  pub revision : ℕ  -- int64
  pub expires_at : ℕ
  pub targets : List Target

is_digit : ℕ → Bool
is_digit c = leb b'0' c && leb c b'9'

all_digits : Text → Bool
unfolding is_digit
all_digits [] = true
all_digits (c ∷ t) = is_digit c && all_digits t

-- userIDPattern, ^[1-9][0-9]{0,18}$
unfoldable pub is_user_id : Text → Bool
unfolding all_digits
is_user_id [] = false
is_user_id (c ∷ t) = leb b'1' c && leb c b'9' && leb (length t) 18 && all_digits t

is_hex : ℕ → Bool
unfolding is_digit
is_hex c = is_digit c || leb b'a' c && leb c b'f'

-- Groups of hexadecimal digits of the lengths, with dashes between them.
groups : List ℕ → ℕ → Text → Bool
unfolding is_hex
groups [] zero [] = true
groups (n ∷ ns) zero (c ∷ t) = c == b'-' && groups ns n t
groups ns (suc n) (c ∷ t) = is_hex c && groups ns n t
groups _ _ _ = false

-- uuidPattern
unfoldable pub is_uuid : Text → Bool
unfolding groups
is_uuid = groups (4 ∷ 4 ∷ 4 ∷ 12 ∷ []) 8

abbrev pub minute : ℕ
minute = 60000000000

unfoldable pub seen : Text → List Text → Bool
seen t [] = false
seen t (u ∷ us) = text_eq t u || seen t us

-- The test of one target, less that on its user's id being new.
unfoldable pub bad_target : ℕ → Target → Bool
bad_target now t =
    not (is_user_id t.user_id)
    || not (is_uuid t.window_id)
    || t.enabled_at == 0
    || ltb (now + minute) t.enabled_at
    || t.retention_days == 0
    || is_negative t.retention_days
    || ltb 30 t.retention_days

-- The loop over the targets.
unfoldable pub bad_targets : ℕ → List Text → List Target → Bool
bad_targets now users [] = false
bad_targets now users (t ∷ ts) =
    bad_target now t || seen t.user_id users || bad_targets now (t.user_id ∷ users) ts

-- The test of the revision, the number of targets and the lease's end.
unfoldable pub bad_lease : Config → ℕ → Bool
bad_lease c now =
    is_negative c.revision
    || ltb 9007199254740991 c.revision
    || ltb 10000 (length c.targets)
    || not (ltb now c.expires_at)
    || ltb (now + 5 * minute) c.expires_at

-- Validate
unfoldable pub validate : Config → ℕ → Result (Unit {0})
validate c now =
    if bad_lease c now
    then err (message "invalid audit policy lease")
    else if bad_targets now [] c.targets
    then err (message "invalid audit user policy")
    else ok tt
