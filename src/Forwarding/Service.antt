-- ===== src/Forwarding/Service.antt =====
-- The service's state (forwarding.go) and what it keeps outside: the file of its state and the
-- nftables table. Times are numbers; an error that is kept as its text is kept as itself.
use remnawave_node_go.Base.{
  ℕ, Bool, true, false, not, ◌&&◌, ◌||◌, Option, none, some, [], ◌∷◌, Text, text_eq, is_empty,
  length, ◌==◌, if◌then◌else◌,
}
use remnawave_node_go.Forwarding.Types.{
  Config, Failure, Outcome, done, fail, ◌>>◌, Names, value_of, enabled_count,
}
use remnawave_node_go.Forwarding.Names.{Net}
use remnawave_node_go.Forwarding.Validate.{System}

-- persistedState
pub record Persisted : Type 0 where
  pub config : Config
  pub applied_hash : Text
  pub applied_at : ℕ
  pub iface : Text
  pub resolved_targets : Names
  pub dns_stale : Bool
  pub dns_last_resolved_at : Option ℕ
  pub dns_failure_count : ℕ  -- uint64

pub record Service : Type 0 where
  pub applied : Config
  pub applied_hash : Text
  pub applied_at : Option ℕ
  pub iface : Text
  pub resolved : Names
  pub last_error : Option Failure
  pub dns_stale : Bool
  pub dns_last_resolved_at : Option ℕ
  pub dns_failure_count : ℕ  -- uint64

-- The service, the file at its path, and the hash in the comment of its table.
pub record Node : Type 0 where
  pub service : Service
  pub file : Option Persisted
  pub table : Option Text

-- What the outside answers while an operation runs: the JSON and SHA-256 of a configuration, and the
-- results of the commands and of the writes, each called once at most: `write_file` is the write of
-- applyPreparedLocked, `write_current` that of persistCurrentLocked.
pub record Calls (N : Net) : Type 0 where
  pub system : System N
  pub config_hash : Config → Outcome Text
  pub reconcile_firewall : Outcome (Unit {0})
  pub ensure_forwarding : Outcome (Unit {0})
  pub socket_conflicts : Outcome (Unit {0})
  pub nft_conflicts : Outcome (Unit {0})
  pub check_script : Outcome (Unit {0})
  pub run_script : Outcome (Unit {0})
  pub write_file : Outcome (Unit {0})
  pub write_current : Outcome (Unit {0})
  pub read_file : Outcome (Unit {0})
  pub now : ℕ
  -- the FORWARD chain's policy is drop, and the ruleset allows each forwarded flow
  pub policy_drop : Bool
  pub firewall_allows : Bool

-- `if err := …; err != nil { return err }` at the state `n`.
abbrev pub attempt :
    Node → Outcome (Unit {0}) → Node × Outcome (Unit {0}) → Node × Outcome (Unit {0})
attempt n (fail e) rest = (n, fail e)
attempt n (done _) rest = rest

-- Nothing is forwarded.
abbrev pub is_idle : Config → Bool
is_idle cfg = not cfg.enabled || enabled_count cfg.rules == 0

unfoldable pub has_prefix : Text → Text → Bool
has_prefix [] t = true
has_prefix (c ∷ p) [] = false
has_prefix (c ∷ p) (d ∷ t) = c == d && has_prefix p t

abbrev pub table_exists : Node → Bool
table_exists n = elim n.table [ none ↦ false | some h ↦ true ]

-- tableMatches: the listing contains the comment with the hash, so the hash is a prefix of the one
-- that stands there.
unfoldable pub table_matches : Node → Text → Bool
table_matches n hash =
    if is_empty hash then false else elim n.table [ none ↦ false | some h ↦ has_prefix hash h ]

-- sameStringMap, on maps whose keys differ
unfoldable pub same_values : Names → Names → Bool
same_values [] right = true
same_values ((k, v) ∷ left) right = text_eq (value_of right k) v && same_values left right

unfoldable pub same_string_map : Names → Names → Bool
unfolding same_values
same_string_map left right = length left == length right && same_values left right

-- What persistCurrentLocked writes.
abbrev pub current : Service → ℕ → Persisted
current s at = record {
  config = s.applied;
  applied_hash = s.applied_hash;
  applied_at = at;
  iface = s.iface;
  resolved_targets = s.resolved;
  dns_stale = s.dns_stale;
  dns_last_resolved_at = s.dns_last_resolved_at;
  dns_failure_count = s.dns_failure_count;
}

module _ {N : Net} (c : Calls N) where
  -- persist: a new file takes the old one's place, or nothing changes.
  abbrev pub persist : Persisted → Node → Node → Node × Outcome (Unit {0})
  persist value n after = attempt n c.write_file (record after { file = some value }, done tt)

  abbrev pub persisted_or_not : Outcome (Unit {0}) → Node → Persisted → Node
  persisted_or_not (fail e) n value = n
  persisted_or_not (done _) n value = record n { file = some value }

  unfoldable pub persist_at : Option ℕ → Node → Node
  persist_at none n = n
  persist_at (some at) n = persisted_or_not c.write_current n (current n.service at)

  -- persistCurrentLocked, whose error the callers drop.
  unfoldable pub persist_current : Node → Node
  persist_current n = persist_at n.service.applied_at n

  -- deleteTable
  unfoldable pub delete_table : Node → Outcome (Unit {0})
  delete_table n = if not (table_exists n) then done tt else c.check_script >> c.run_script

-- The states of runtimeStateLocked.
pub data State : Type 0 where
  disabled applied error degraded : State

abbrev wanted_state : Node → State
wanted_state n =
    if is_idle n.service.applied
    then disabled
    else if table_matches n n.service.applied_hash
    then applied
    else error

module _ {N : Net} (c : Calls N) where
  unfoldable pub reported_state : Option Failure → State → State
  reported_state (some e) s = error
  reported_state none applied = if c.policy_drop && not c.firewall_allows then degraded else applied
  reported_state none s = s

  -- runtimeStateLocked, less the text of the error.
  unfoldable pub runtime_state : Node → State
  unfolding reported_state
  runtime_state n = reported_state n.service.last_error (wanted_state n)
