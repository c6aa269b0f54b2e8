-- ===== src/Node/Plugin.antt =====
-- The state of the plugin (state.go) and how manager.go compiles it. The resolver and package net are
-- parameters.
use remnawave_node_go.Base.{
  ℕ, ◌+◌, Bool, true, false, not, ◌||◌, Option, none, some, List, [], ◌∷◌, ◌++◌, Text, codes,
  text_eq, is_empty, length, ◌==◌, Error, message, wrapped, Result, ok, err, ◌>>◌, ◌>>=◌,
  if◌then◌else◌,
}
use remnawave_node_go.Base.Json.{Fields, field_of}
use remnawave_node_go.Runtime.Types.{set}
use remnawave_node_go.Node.Lists.{
  Numbers, Shared, read_shared_lists, validate_shared_list_references, entry_values, section_of,
  bool_value, string_slice, resolve_ip_list, resolve_string_list, resolve_port_list, unique_strings,
}

pub record PluginMeta : Type 0 where
  pub uuid : Text
  pub name : Text

pub record DomainResolution : Type 0 where
  pub domain : Text
  pub addresses : List Text
  pub last_attempt_at : Option ℕ
  pub last_success_at : Option ℕ
  pub failure_count : ℕ  -- int
  pub last_error : Option Error
  pub stale : Bool

-- An error's text is the error, none where it is blank.
pub record PluginState : Type 0 where
  pub config_hash : Text
  pub active_plugin : Option PluginMeta
  pub applied_at : Option ℕ
  pub last_attempt_at : Option ℕ
  pub last_error : Option Error
  pub domain_resolutions : List (Text × DomainResolution)
  pub ingress_blocked : List Text
  pub egress_blocked_base_ips : List Text
  pub egress_blocked_ips : List Text
  pub egress_blocked_domains : List Text
  pub egress_blocked_ports : List ℕ

-- emptyPluginState
abbrev pub empty_plugin_state : PluginState
empty_plugin_state = record {
  config_hash = [];
  active_plugin = none;
  applied_at = none;
  last_attempt_at = none;
  last_error = none;
  domain_resolutions = [];
  ingress_blocked = [];
  egress_blocked_base_ips = [];
  egress_blocked_ips = [];
  egress_blocked_domains = [];
  egress_blocked_ports = [];
}

pub record Plugin : Type 0 where
  pub config : Fields
  pub uuid : Text
  pub name : Text

pub record PluginSyncRequest : Type 0 where
  pub config_hash : Text
  pub plugin : Option Plugin

-- What a compilation meets outside: numbers, ParseIP, LookupIP with the addresses as texts, ConfigHash
-- and the time.
pub record Compiling : Type 0 where
  pub numbers : Numbers
  pub is_ip : Text → Bool
  pub lookup : Text → Result (List Text)
  pub hash : Fields → Text
  pub now : ℕ

-- configureIngressFilter
unfoldable pub configure_ingress_filter : Fields → Shared → PluginState → PluginState
configure_ingress_filter config shared p =
    let plugin = section_of config (codes "ingressFilter") in
    if not (bool_value (field_of plugin (codes "enabled"))) then p else record p {
      ingress_blocked =
          resolve_ip_list (string_slice (entry_values plugin (codes "blockedIps"))) shared;
    }

-- configureEgressFilter
unfoldable pub configure_egress_filter : Numbers → Fields → Shared → PluginState → PluginState
configure_egress_filter n config shared p =
    let plugin = section_of config (codes "egressFilter") in
    let base = resolve_ip_list (string_slice (entry_values plugin (codes "blockedIps"))) shared in
    if not (bool_value (field_of plugin (codes "enabled"))) then p else record p {
      egress_blocked_base_ips = base;
      egress_blocked_ips = base;
      egress_blocked_domains =
          resolve_string_list (string_slice (entry_values plugin (codes "blockedDomains"))) shared;
      egress_blocked_ports =
          resolve_port_list n shared (entry_values plugin (codes "blockedPorts"));
    }

unfoldable pub find_resolution : List (Text × DomainResolution) → Text → Option DomainResolution
find_resolution [] d = none
find_resolution ((k, r) ∷ rs) d = if text_eq k d then some r else find_resolution rs d

abbrev pub has_separator : Text → Bool
has_separator [] = false
has_separator (c ∷ t) = c == b' ' || c == b'/' || c == b'\\' || has_separator t

-- A name that could not be resolved keeps the addresses that it had.
unfoldable pub stale_resolution :
    ℕ → Text → Error → Option DomainResolution → Result DomainResolution
stale_resolution now d e none = err (wrapped "resolve egress domain" e)
stale_resolution now d e (some existing) =
    if length existing.addresses == 0
    then err (wrapped "resolve egress domain" e)
    else ok (record {
      domain = d;
      addresses = existing.addresses;
      last_attempt_at = some now;
      last_success_at = existing.last_success_at;
      failure_count = existing.failure_count + 1;
      last_error = some e;
      stale = true;
    })

-- What the resolver's answer makes of a domain.
unfoldable pub answered_resolution :
    ℕ → Text → Option DomainResolution → Result (List Text) → Result DomainResolution
answered_resolution now d existing (err e) = stale_resolution now d e existing
answered_resolution now d existing (ok []) = err (message "egress domain resolved to no addresses")
answered_resolution now d existing (ok (ip ∷ ips)) = ok (record {
  domain = d;
  addresses = unique_strings (ip ∷ ips);
  last_attempt_at = some now;
  last_success_at = some now;
  failure_count = 0;
  last_error = none;
  stale = false;
})

module _ (k : Compiling) where
  -- The body of the loop over the domains, given the resolutions before.
  unfoldable pub resolve_domain : List (Text × DomainResolution) → Text → Result DomainResolution
  resolve_domain previous d =
      if k.is_ip d || has_separator d
      then err (message "invalid egress domain")
      else answered_resolution k.now d (find_resolution previous d) (k.lookup d)

  -- The loop: the addresses and the resolutions.
  unfoldable pub resolve_domains :
      List (Text × DomainResolution)
      → List Text
      → List Text
      → List (Text × DomainResolution)
      → Result (List Text × List (Text × DomainResolution))
  resolve_domains previous [] resolved out = ok (resolved, out)
  resolve_domains previous (d ∷ ds) resolved out = do
    status ← resolve_domain previous d
    resolve_domains previous ds (resolved ++ status.addresses) (set out d status)

  -- resolveEgressDomains; without a state before there are no resolutions.
  unfoldable pub resolve_egress_domains :
      List (Text × DomainResolution) → PluginState → Result PluginState
  resolve_egress_domains previous p = do
    (resolved, resolutions) ←
        resolve_domains previous p.egress_blocked_domains p.egress_blocked_base_ips []
    ok (record p { egress_blocked_ips = unique_strings resolved; domain_resolutions = resolutions })

  -- The state that is compiled before the domains are resolved.
  abbrev pub base_state : PluginSyncRequest → Plugin → Shared → PluginState
  base_state request plugin shared = configure_egress_filter k.numbers plugin.config shared (
      configure_ingress_filter plugin.config shared (record empty_plugin_state {
        last_attempt_at = some k.now;
        config_hash =
            if is_empty request.config_hash then k.hash plugin.config else request.config_hash;
        active_plugin = some (record { uuid = plugin.uuid; name = plugin.name });
      }))

  unfoldable pub compile_plugin :
      PluginSyncRequest → List (Text × DomainResolution) → Plugin → Result PluginState
  compile_plugin request previous plugin =
      let shared = read_shared_lists k.numbers plugin.config in
      validate_shared_list_references plugin.config shared
      >> resolve_egress_domains previous (base_state request plugin shared)

  -- compilePluginState
  unfoldable pub compile_plugin_state :
      PluginSyncRequest → List (Text × DomainResolution) → Result PluginState
  compile_plugin_state request previous = elim request.plugin [
    | none ↦ ok (record empty_plugin_state { last_attempt_at = some k.now })
    | some plugin ↦ compile_plugin request previous plugin
  ]
