-- ===== src/Forwarding/Usage.antt =====
-- UsageCounters (forwarding.go): the counters of the installed table as counters of the service. The
-- SHA-256 of a text and the time format are parameters.
use remnawave_node_go.Base.{
  ℕ, ◌-◌, ◌^◌, Bool, true, false, not, Option, none, some, List, [], ◌∷◌, ◌++◌, Text, codes,
  text_eq, take, ltb, if◌then◌else◌,
}
use remnawave_node_go.Base.Hex.{hex}
use remnawave_node_go.Forwarding.Types.{
  Rule, Transport, over_tcp, over_udp, expanded_protocols, Outcome, done, fail, invalid, ◌>>=◌,
}
use remnawave_node_go.Forwarding.Names.{Net}
use remnawave_node_go.Forwarding.Service.{
  Service, Node, Calls, is_idle, State, disabled, error, runtime_state,
}

pub record UsageCounter : Type 0 where
  pub rule_id : Text
  pub protocol : Transport
  pub direction : Text
  pub scope : Text
  pub bytes : ℕ  -- int64

-- The byte counts by the counters' names.
abbrev pub Values : Type 0
Values = List (Text × ℕ)

unfoldable pub bytes_of : Values → Text → Option ℕ
bytes_of [] k = none
bytes_of ((j, v) ∷ m) k = if text_eq j k then some v else bytes_of m k

abbrev pub transport_name : Transport → Text
transport_name over_tcp = codes "tcp"
transport_name over_udp = codes "udp"

-- value > math.MaxInt64
unfoldable pub clamped : ℕ → ℕ
clamped v = if ltb (2 ^ 63 - 1) v then 2 ^ 63 - 1 else v

module _ (sha256 : Text → Text) where
  -- counterPrefix
  unfoldable pub counter_prefix : Text → Transport → Text
  counter_prefix id t = codes "rw_" ++ hex (take 8 (sha256 (id ++ (codes ":" ++ transport_name t))))

  unfoldable pub present : Option ℕ → Outcome ℕ
  present none = fail (invalid "forwarding counter is missing")
  present (some v) = done v

  abbrev pub usage_counter : Rule → Transport → Text → Text → ℕ → UsageCounter
  usage_counter r t direction scope v = record {
    rule_id = r.id;
    protocol = t;
    direction = direction;
    scope = scope;
    bytes = clamped v;
  }

  -- Both directions of a rule and a transport.
  unfoldable pub transport_usage : Text → Values → Rule → Transport → Outcome (List UsageCounter)
  transport_usage scope values r t = do
    up ← present (bytes_of values (counter_prefix r.id t ++ codes "_up"))
    down ← present (bytes_of values (counter_prefix r.id t ++ codes "_down"))
    done (
        usage_counter r t (codes "uplink") scope up
        ∷ usage_counter r t (codes "downlink") scope down
        ∷ [])

  unfoldable pub transports_usage :
      Text → Values → Rule → List Transport → Outcome (List UsageCounter)
  transports_usage scope values r [] = done []
  transports_usage scope values r (t ∷ ts) = do
    here ← transport_usage scope values r t
    later ← transports_usage scope values r ts
    done (here ++ later)

  -- The loop over the rules.
  unfoldable pub rules_usage : Text → Values → List Rule → Outcome (List UsageCounter)
  rules_usage scope values [] = done []
  rules_usage scope values (r ∷ rs) =
      let rest = rules_usage scope values rs in
      if not r.enabled then rest else (do
        here ← transports_usage scope values r (expanded_protocols r.protocol)
        later ← rest
        done (here ++ later))

  unfoldable pub usage_at :
      (ℕ → Text) → Outcome Values → Service → State → Option ℕ → Outcome (List UsageCounter × Bool)
  usage_at rfc3339 read s state none = done ([], false)
  usage_at rfc3339 read s disabled (some at) = done ([], false)
  usage_at rfc3339 read s error (some at) = done ([], false)
  usage_at rfc3339 read s _ (some at) = do
    values ← read
    us ← rules_usage (s.applied_hash ++ (codes ":" ++ rfc3339 at)) values s.applied.rules
    done (us, true)

  -- UsageCounters, given what readCounters returns.
  unfoldable pub usage_counters :
      {N : Net} → Calls N → (ℕ → Text) → Outcome Values → Node → Outcome (List UsageCounter × Bool)
  usage_counters c rfc3339 read n =
      if is_idle n.service.applied
      then done ([], false)
      else usage_at rfc3339 read n.service (runtime_state c n) n.service.applied_at
