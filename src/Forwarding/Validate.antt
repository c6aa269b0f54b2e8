-- ===== src/Forwarding/Validate.antt =====
-- validateLocked (forwarding.go). `result.config.Rules` and `cfg.Rules` are one array, so a target
-- address that the loop writes is written in the caller's configuration too: each function gives
-- back the array as it leaves it, also where it fails.
use Prim.Native.Nat.{ℕ}
use remnawave_node_go.Base.{
  Bool, true, false, not, ◌&&◌, ◌||◌, Option, none, some, List, [], ◌∷◌, Text, text_eq, length,
  Result, ltb, ◌==◌, if◌then◌else◌,
}
use remnawave_node_go.Base.Strings.{trim_space}
use remnawave_node_go.Forwarding.Types.{
  Protocol, other, Rule, Config, Listener, Conflict, conflict, invalid, Outcome, done, fail, ◌>>=◌,
  ◌>>◌, refuse_if, Names, value_of, has_key, protocols_overlap, overlap_protocol, enabled_count,
}
use remnawave_node_go.Forwarding.Names.{Net, is_ipv4_literal, is_valid_hostname, normalize_rule}
use remnawave_node_go.Forwarding.Resolve.{resolve_target}

-- What validation asks of the system: the resolver, the node's own addresses, the interface to
-- listen on (resolveListenInterface) and the one that a target is reached by (resolveTargetInterface).
pub record System (N : Net) : Type 0 where
  pub lookup : Text → Result (List N.Ip)
  pub local_addresses : List Text
  pub listen_interface : Text → Outcome Text
  pub target_interface : Text → Outcome Text

-- preparedConfig
pub record Prepared : Type 0 where
  pub config : Config
  pub iface : Text
  pub routes : Names
  pub resolved_targets : Names

-- normalizeConfig
unfoldable pub normalize_rules : List Rule → List Rule
normalize_rules [] = []
normalize_rules (r ∷ rs) = normalize_rule r ∷ normalize_rules rs

unfoldable pub normalize_config : Config → Config
normalize_config cfg = record {
  enabled = cfg.enabled;
  listen_interface =
      if length (trim_space cfg.listen_interface) == 0
      then b'a' ∷ b'u' ∷ b't' ∷ b'o' ∷ []
      else cfg.listen_interface;
  rules = normalize_rules cfg.rules;
}

unfoldable pub contains : Text → List Text → Bool
contains t [] = false
contains t (u ∷ us) = text_eq u t || contains t us

abbrev pub is_other : Protocol → Bool
is_other (other t) = true
is_other _ = false

-- A port outside 1 … 65535; a negative int is a pattern above.
abbrev pub bad_port : ℕ → Bool
bad_port p = ltb p 1 || ltb 65535 p

module _ (N : Net) (S : System N) where
  -- The checks of the loop on one rule, before its target is resolved.
  unfoldable pub check_rule : List Text → Rule → Outcome (Unit {0})
  check_rule seen r = do
    refuse_if (length (trim_space r.id) == 0) (invalid "rule id is required")
    refuse_if (contains r.id seen) (invalid "duplicate forwarding rule id")
    refuse_if (length (trim_space r.name) == 0 || ltb 64 (length r.name))
        (invalid "rule name must be 1-64 characters")
    refuse_if (is_other r.protocol) (invalid "unsupported protocol")
    refuse_if (bad_port r.listen_port || bad_port r.target_port)
        (invalid "port must be between 1 and 65535")
    refuse_if (not (is_ipv4_literal N r.target_address) && not (is_valid_hostname r.target_address))
        (invalid "targetAddress must be a routable IPv4 address or valid hostname")

  -- The address of an enabled rule, which is not the node's own.
  unfoldable pub resolve_rule : Names → Rule → Outcome Text
  resolve_rule resolved r = do
    address ← resolve_target N (S.lookup) r.target_address (value_of resolved r.id)
    refuse_if (contains address S.local_addresses) (invalid "targetAddress resolves to this node")
    done address

  -- The rest of the loop where a rule is skipped, and where its target has the address `a`.
  unfoldable pub after_skip :
      Rule → (Names → List Rule × Outcome Names) → Names → List Rule × Outcome Names
  after_skip r next targets = (r ∷ (next targets).0, (next targets).1)

  unfoldable pub after_resolve :
      Rule
      → List Rule
      → (Names → List Rule × Outcome Names)
      → Names
      → Outcome Text
      → List Rule × Outcome Names
  after_resolve r rs next targets (fail e) = (r ∷ rs, fail e)
  after_resolve r rs next targets (done a) =
      let rest = next ((r.id, a) ∷ targets) in (record r { target_address = a } ∷ rest.0, rest.1)

  unfoldable pub after_check :
      Names
      → Rule
      → List Rule
      → (Names → List Rule × Outcome Names)
      → Names
      → Outcome (Unit {0})
      → List Rule × Outcome Names
  after_check resolved r rs next targets (fail e) = (r ∷ rs, fail e)
  after_check resolved r rs next targets (done _) =
      if not r.enabled
      then after_skip r next targets
      else after_resolve r rs next targets (resolve_rule resolved r)

  -- The loop over the rules: the array as it is left, and the resolved targets.
  unfoldable pub resolve_rules : Names → List Text → List Rule → Names → List Rule × Outcome Names
  resolve_rules resolved seen [] targets = ([], done targets)
  resolve_rules resolved seen (r ∷ rs) targets =
      after_check resolved r rs (resolve_rules resolved (r.id ∷ seen) rs) targets
        (check_rule seen r)

-- An enabled rule listens on a port with an overlapping protocol.
abbrev pub clashes : Rule → Protocol → ℕ → Bool
clashes r protocol port = r.listen_port == port && protocols_overlap r.protocol protocol

-- The inner loop over the rules behind `left`.
unfoldable pub find_overlap : Rule → List Rule → Option Conflict
find_overlap left [] = none
find_overlap left (right ∷ rs) =
    if right.enabled && clashes left right.protocol right.listen_port
    then some (record {
      protocol = overlap_protocol left.protocol right.protocol;
      port = left.listen_port;
      conflicts_with = "FORWARDING_RULE";
      detail = right.name;
    })
    else find_overlap left rs

unfoldable pub find_rule_conflict : List Rule → Option Conflict
find_rule_conflict [] = none
find_rule_conflict (left ∷ rs) =
    let rest = find_rule_conflict rs in
    if left.enabled then (elim (find_overlap left rs) [ some c ↦ some c | none ↦ rest ]) else rest

-- The loop over the core's listeners for one rule; also ValidateCoreConfig's.
unfoldable pub find_listener : Rule → List Listener → Option Conflict
find_listener r [] = none
find_listener r (l ∷ ls) =
    if clashes r l.protocol l.port
    then some (record {
      protocol = overlap_protocol r.protocol l.protocol;
      port = r.listen_port;
      conflicts_with = "CORE_INBOUND";
      detail = l.source;
    })
    else find_listener r ls

unfoldable pub find_core_conflict : List Rule → List Listener → Option Conflict
find_core_conflict [] ls = none
find_core_conflict (r ∷ rs) ls =
    let rest = find_core_conflict rs ls in
    if r.enabled then (elim (find_listener r ls) [ some c ↦ some c | none ↦ rest ]) else rest

abbrev pub no_conflict : Option Conflict → Outcome (Unit {0})
no_conflict none = done tt
no_conflict (some c) = fail (conflict c)

-- The interfaces that the targets are reached by, once for each address.
unfoldable pub find_routes : (Text → Outcome Text) → List Rule → Names → Outcome Names
find_routes reach [] routes = done routes
find_routes reach (r ∷ rs) routes =
    let rest = find_routes reach rs routes in
    let found = do
      egress ← reach r.target_address
      find_routes reach rs ((r.target_address, egress) ∷ routes)
    in if not r.enabled || has_key routes r.target_address then rest else found

module _ (N : Net) (S : System N) where
  -- The rest for an enabled configuration.
  unfoldable pub prepare_enabled : Config → List Listener → Names → Outcome Prepared
  prepare_enabled cfg listeners targets = do
    iface ← S.listen_interface cfg.listen_interface
    no_conflict (find_core_conflict cfg.rules listeners)
    routes ← find_routes (S.target_interface) cfg.rules []
    done (record { config = cfg; iface = iface; routes = routes; resolved_targets = targets })

  -- What follows the loop over the rules.
  unfoldable pub prepare : Config → List Listener → Names → Outcome Prepared
  prepare cfg listeners targets =
      no_conflict (find_rule_conflict cfg.rules)
      >> (if not cfg.enabled || enabled_count cfg.rules == 0
          then done (record { config = cfg; iface = []; routes = []; resolved_targets = targets })
          else prepare_enabled cfg listeners targets)

  -- validateLocked, with the addresses that the service has resolved before. Its first component is
  -- the configuration of the caller as the call leaves it.
  unfoldable pub validate : Names → Config → List Listener → Config × Outcome Prepared
  validate resolved cfg listeners =
      let (rules, out) = resolve_rules N S resolved [] cfg.rules [] in
      let cfg' = record cfg { rules = rules } in
      if ltb 64 (length cfg.rules)
      then (cfg, fail (invalid "forwarding rules exceed maximum of 64"))
      else (cfg', out >>= prepare cfg' listeners)
