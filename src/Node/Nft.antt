-- ===== src/Node/Nft.antt =====
-- The commands that manager.go gives to nft, and the requests on the plugin. What nft answers to a
-- command may depend on all that were given before; a missing table or element is no error (runNft).
use remnawave_node_go.Base.{
  ℕ, Bool, true, false, not, ◌&&◌, Option, none, some, List, [], ◌∷◌, ◌++◌, map, Text, codes,
  text_eq, Error, Result, ok, err, if◌then◌else◌,
}
use remnawave_node_go.Base.Strings.{trim_space}
use remnawave_node_go.Node.ApiConfig.{digits}
use remnawave_node_go.Node.Plugin.{
  PluginState, empty_plugin_state, Plugin, PluginSyncRequest, Compiling, compile_plugin_state,
  resolve_egress_domains,
}

abbrev pub Command : Type 0
Command = List Text

-- The commands given so far.
abbrev pub Log : Type 0
Log = List Command

-- What the commands meet outside: whether nft is ready, what it answers to the last command of a log,
-- and ParseIP and ParseCIDR (the text of the address or network, and whether it is IPv6).
pub record Firewall : Type 0 where
  pub ready : Bool
  pub answer : Log → Option Error
  pub parse_ip : Text → Option (Text × Bool)
  pub parse_cidr : Text → Option (Text × Bool)

abbrev pub table : Text
table = codes "remnanode"

abbrev pub add_set : Text → List Text → Command
add_set name spec =
    codes "add" ∷ codes "set" ∷ codes "inet" ∷ table ∷ name ∷ codes "{" ∷ codes "type" ∷ spec

abbrev pub timed : Text → List Text
timed type = type ∷ codes "flags" ∷ codes "timeout;" ∷ codes "}" ∷ []

abbrev pub ranged : Text → List Text
ranged type = type ∷ codes "flags" ∷ codes "interval;" ∷ codes "auto-merge;" ∷ codes "}" ∷ []

abbrev pub add_chain : Text → Command
add_chain hook =
    codes "add"
    ∷ codes "chain"
    ∷ codes "inet"
    ∷ table
    ∷ hook
    ∷ codes "{"
    ∷ codes "type"
    ∷ codes "filter"
    ∷ codes "hook"
    ∷ hook
    ∷ codes "priority"
    ∷ codes "0;"
    ∷ codes "policy"
    ∷ codes "accept;"
    ∷ codes "}"
    ∷ []

abbrev pub add_rule : Text → Text → Text → Text → Command
add_rule chain family key name =
    codes "add"
    ∷ codes "rule"
    ∷ codes "inet"
    ∷ table
    ∷ chain
    ∷ family
    ∷ key
    ∷ name
    ∷ codes "drop"
    ∷ []

abbrev pub drop_table : Command
drop_table = codes "delete" ∷ codes "table" ∷ codes "inet" ∷ table ∷ []

-- What recreateNFTables gives after the deletion.
unfoldable pub table_commands : List Command
table_commands =
    (codes "add" ∷ codes "table" ∷ codes "inet" ∷ table ∷ [])
    ∷ add_set (codes "temporary-blocked-ip") (timed (codes "ipv4_addr;"))
    ∷ add_set (codes "temporary-blocked-ip6") (timed (codes "ipv6_addr;"))
    ∷ add_set (codes "ingress-filter-ip") (ranged (codes "ipv4_addr;"))
    ∷ add_set (codes "ingress-filter-ip6") (ranged (codes "ipv6_addr;"))
    ∷ add_set (codes "egress-filter-ip") (ranged (codes "ipv4_addr;"))
    ∷ add_set (codes "egress-filter-ip6") (ranged (codes "ipv6_addr;"))
    ∷ add_set (codes "egress-filter-port") (codes "inet_service;" ∷ codes "}" ∷ [])
    ∷ add_chain (codes "input")
    ∷ add_chain (codes "output")
    ∷ add_rule (codes "input") (codes "ip") (codes "saddr") (codes "@ingress-filter-ip")
    ∷ add_rule (codes "input") (codes "ip") (codes "saddr") (codes "@temporary-blocked-ip")
    ∷ add_rule (codes "input") (codes "ip6") (codes "saddr") (codes "@ingress-filter-ip6")
    ∷ add_rule (codes "input") (codes "ip6") (codes "saddr") (codes "@temporary-blocked-ip6")
    ∷ add_rule (codes "output") (codes "ip") (codes "daddr") (codes "@egress-filter-ip")
    ∷ add_rule (codes "output") (codes "ip6") (codes "daddr") (codes "@egress-filter-ip6")
    ∷ add_rule (codes "output") (codes "tcp") (codes "dport") (codes "@egress-filter-port")
    ∷ add_rule (codes "output") (codes "udp") (codes "dport") (codes "@egress-filter-port")
    ∷ []

-- strings.Join(values, ", ")
unfoldable pub join : List Text → Text
join [] = []
join (t ∷ []) = t
join (t ∷ u ∷ ts) = t ++ (codes ", " ++ join (u ∷ ts))

abbrev pub flush_set : Text → Command
flush_set name = codes "flush" ∷ codes "set" ∷ codes "inet" ∷ table ∷ name ∷ []

abbrev pub add_elements : Text → List Text → Command
add_elements name values =
    codes "add"
    ∷ codes "element"
    ∷ codes "inet"
    ∷ table
    ∷ name
    ∷ codes "{"
    ∷ join values
    ∷ codes "}"
    ∷ []

-- The commands that give a set its elements; without elements it is only flushed.
unfoldable pub fill_commands : Text → List Text → List Command
fill_commands name [] = flush_set name ∷ []
fill_commands name (v ∷ vs) = flush_set name ∷ add_elements name (v ∷ vs) ∷ []

-- The state of the plugin and the commands given.
pub record Filter : Type 0 where
  pub plugin : PluginState
  pub log : Log

-- The current state with an attempt that failed.
abbrev pub with_failure : ℕ → Error → PluginState → PluginState
with_failure now e p = record p { last_attempt_at = some now; last_error = some e }

-- The end of SyncPlugin without a plugin.
unfoldable pub cleared : ℕ → Log × Option Error → Filter × Option Error
cleared now (log, some e) = (
  record {
    plugin = record empty_plugin_state { last_attempt_at = some now; last_error = some e };
    log = log;
  },
  some e,
)
cleared now (log, none) = (
  record {
    plugin = record empty_plugin_state { last_attempt_at = some now; applied_at = some now };
    log = log;
  },
  none,
)

-- The end of SyncPlugin with a state that was compiled.
unfoldable pub installed :
    ℕ → PluginState → PluginState → Log × Option Error → Filter × Option Error
installed now next current (log, some e) =
    (record { plugin = with_failure now e current; log = log }, some e)
installed now next current (log, none) = (
  record {
    plugin = record next { applied_at = some now; last_attempt_at = some now; last_error = none };
    log = log;
  },
  none,
)

abbrev pub same_texts : List Text → List Text → Bool
same_texts [] [] = true
same_texts (x ∷ xs) (y ∷ ys) = text_eq x y && same_texts xs ys
same_texts _ _ = false

-- reflect.DeepEqual of a copy that is nil where it is empty and a slice that never is nil.
abbrev pub same_addresses : List Text → List Text → Bool
same_addresses [] ys = false
same_addresses (x ∷ xs) ys = same_texts (x ∷ xs) ys

abbrev pub same_bool : Bool → Bool → Bool
same_bool true b = b
same_bool false b = not b

unfoldable pub of_family : Bool → Option (Text × Bool) → List Text → List Text
of_family ipv6 none rest = rest
of_family ipv6 (some (value, item_ipv6)) rest =
    if same_bool item_ipv6 ipv6 then value ∷ rest else rest

-- runNft, and after it what a command's success leads to.
unfoldable pub then_on : Option Error → Log × Option Error → Log → Log × Option Error
then_on (some e) rest log = (log, some e)
then_on none rest log = rest

module _ (f : Firewall) where
  -- normalizeIPOrCIDR
  unfoldable pub normalize_ip_or_cidr : Text → Option (Text × Bool)
  normalize_ip_or_cidr value = elim (f.parse_ip (trim_space value)) [
    | some ip ↦ some ip
    | none ↦ f.parse_cidr (trim_space value)
  ]

  -- The loop of nftSyncSet over the items.
  unfoldable pub family_values : Bool → List Text → List Text
  family_values ipv6 [] = []
  family_values ipv6 (i ∷ is) = of_family ipv6 (normalize_ip_or_cidr i) (family_values ipv6 is)

  -- The commands of nftSyncSet, nftSyncPortSet and syncNFTState, which stops at the first that fails.
  unfoldable pub sync_commands : PluginState → List Command
  sync_commands p =
      fill_commands (codes "ingress-filter-ip") (family_values false p.ingress_blocked)
      ++ (fill_commands (codes "ingress-filter-ip6") (family_values true p.ingress_blocked)
          ++ (fill_commands (codes "egress-filter-ip") (family_values false p.egress_blocked_ips)
              ++ (fill_commands (codes "egress-filter-ip6")
                    (family_values true p.egress_blocked_ips)
                  ++ fill_commands (codes "egress-filter-port")
                      (map digits p.egress_blocked_ports))))

  -- The commands one after another, up to the first that fails.
  unfoldable pub run_commands : List Command → Log → Log × Option Error
  run_commands [] log = (log, none)
  run_commands (c ∷ cs) log =
      let given = log ++ c ∷ [] in then_on (f.answer given) (run_commands cs given) given

  -- recreateNFTables: what the deletion answers does not count.
  unfoldable pub recreate_nft_tables : Log → Log × Option Error
  recreate_nft_tables log =
      if not f.ready then (log, none) else run_commands table_commands (log ++ drop_table ∷ [])

  -- syncNFTState
  unfoldable pub sync_nft_state : PluginState → Log → Log × Option Error
  sync_nft_state p log = if not f.ready then (log, none) else run_commands (sync_commands p) log

  unfoldable pub then_sync : PluginState → Log × Option Error → Log × Option Error
  then_sync p (log, some e) = (log, some e)
  then_sync p (log, none) = sync_nft_state p log

  -- The table anew, with the sets of the state.
  abbrev pub fill_tables : PluginState → Log → Log × Option Error
  fill_tables p log = then_sync p (recreate_nft_tables log)

  -- restorePluginNFTState, which only logs an error.
  unfoldable pub restore_plugin_nft_state : PluginState → Log → Log
  restore_plugin_nft_state p log = (fill_tables p log).0

  unfoldable pub or_restore : PluginState → Log × Option Error → Log × Option Error
  or_restore fallback (log, none) = (log, none)
  or_restore fallback (log, some e) = (restore_plugin_nft_state fallback log, some e)

  -- applyPluginNFTState
  unfoldable pub apply_plugin_nft_state : PluginState → PluginState → Log → Log × Option Error
  apply_plugin_nft_state next fallback log = or_restore fallback (fill_tables next log)

  unfoldable pub sync_compiled : ℕ → Filter → Result PluginState → Filter × Option Error
  sync_compiled now c (err e) = (record c { plugin = with_failure now e c.plugin }, some e)
  sync_compiled now c (ok next) =
      installed now next c.plugin
        (if f.ready then apply_plugin_nft_state next c.plugin c.log else (c.log, none))

  unfoldable pub sync_with :
      Compiling → PluginSyncRequest → Filter → Option Plugin → Filter × Option Error
  sync_with k request c none = cleared k.now (recreate_nft_tables c.log)
  sync_with k request c (some plugin) =
      sync_compiled k.now c (compile_plugin_state k request c.plugin.domain_resolutions)

  -- SyncPlugin
  unfoldable pub sync_plugin : Compiling → PluginSyncRequest → Filter → Filter × Option Error
  sync_plugin k request c = sync_with k request c request.plugin

  -- The new addresses of the domains, installed or not.
  unfoldable pub refreshed_sets : ℕ → PluginState → PluginState → Log × Option Error → Filter
  refreshed_sets now next before (log, none) = record {
    plugin = record next { last_error = none };
    log = log;
  }
  refreshed_sets now next before (log, some e) = record {
    plugin = with_failure now e before;
    log = restore_plugin_nft_state before log;
  }

  unfoldable pub refreshed_domains : ℕ → Filter → Result PluginState → Filter
  refreshed_domains now c (err e) = record c { plugin = with_failure now e c.plugin }
  refreshed_domains now c (ok next) =
      if same_addresses c.plugin.egress_blocked_ips next.egress_blocked_ips
      then record c { plugin = record next { last_error = none } }
      else refreshed_sets now next c.plugin (sync_nft_state next c.log)

  -- What RefreshForwardingDNS does to the plugin.
  unfoldable pub refresh_plugin_dns : Compiling → Filter → Filter
  refresh_plugin_dns k c =
      refreshed_domains k.now c (resolve_egress_domains k c.plugin.domain_resolutions c.plugin)
