-- ===== src/Node/Compiled.antt =====
-- What every state of the plugin has, whichever requests and refreshes made it.
use remnawave_node_go.Base.{
  ◌≡◌, refl, ap, ◌∙◌, Bool, true, ◌||◌, Option, none, some, List, [], ◌∷◌, map, arith, All, Text,
  codes, text_eq, text_eq_iff, text_eq_refl, subst, is_empty, ok, >>=-eq-ok, Bool-cases, inl, inr,
}
use remnawave_node_go.Base.Strings.{trim_space}
use remnawave_node_go.Base.Json.{field_of}
use remnawave_node_go.Node.Lists.{
  Shared, holds, unique_strings, bool_value, section_of, resolve_string_list, entry_values,
  read_shared_lists, validate_shared_list_references,
}
use remnawave_node_go.Node.Plugin.{
  PluginState, empty_plugin_state, Plugin, PluginSyncRequest, Compiling, configure_ingress_filter,
  configure_egress_filter, find_resolution, resolve_domains, resolve_egress_domains, base_state,
  compile_plugin, compile_plugin_state,
}
use remnawave_node_go.Node.Resolved.{
  Resolutions, is_found, Within, Within-of, value_of, Held, resolve_domains-Resolved,
}
use remnawave_node_go.Node.Ports.{Rising, resolve_port_list-Rising}
use remnawave_node_go.Node.Sorted.{Increasing, unique_strings-Increasing, holds-unique_strings}

-- The text is among the others, less the spaces around it, or blank.
unfoldable pub covers : List Text → Text → Bool
covers ips a = is_empty (trim_space a) || holds ips (trim_space a)

-- Every resolved address is among the blocked ones, and every domain is resolved.
abbrev pub Covers : List Text → Resolutions → Type 0
Covers ips = All (λ e. All (λ a. covers ips a ≡ true) e.1.addresses)

-- The ports increase within 1 … 65535, the domains and the addresses increase, and the addresses of
-- each domain are blocked.
pub record IsCompiled (p : PluginState) : Type 0 where
  pub ports : Rising 0 p.egress_blocked_ports
  pub domains : Increasing p.egress_blocked_domains
  pub addresses : Increasing p.egress_blocked_ips
  pub base : All (λ a. covers p.egress_blocked_ips a ≡ true) p.egress_blocked_base_ips
  pub covered : Covers p.egress_blocked_ips p.domain_resolutions
  pub resolved :
      All (λ d. is_found (find_resolution p.domain_resolutions d) ≡ true) p.egress_blocked_domains

pub empty-IsCompiled : IsCompiled empty_plugin_state
empty-IsCompiled = record {
  ports = tt;
  domains = tt;
  addresses = tt;
  base = tt;
  covered = tt;
  resolved = tt;
}

holds-trimmed :
    (all : List Text) (a : Text)
    → holds all a ≡ true
    → holds (map trim_space all) (trim_space a) ≡ true
unfolding holds
holds-trimmed [] a h = cc
holds-trimmed (t ∷ all) a h = elim (Bool-cases (text_eq t a)) [
  | inl same ↦
      simp
        (ap (λ (x : Text). text_eq (trim_space x) (trim_space a)) ((text_eq_iff t a).0 same)
          ∙ text_eq_refl (trim_space a))
        refl
  | inr other ↦ ground (arith, holds-trimmed all a (simp other at h))
]

covers-unique_strings :
    (all : List Text) (a : Text) → holds all a ≡ true → covers (unique_strings all) a ≡ true
unfolding covers
covers-unique_strings all a h =
    ground (arith, holds-unique_strings all (trim_space a), holds-trimmed all a h)

All-covers :
    (all ts : List Text) → Within all ts → All (λ a. covers (unique_strings all) a ≡ true) ts
All-covers all [] k = tt
All-covers all (t ∷ ts) k = (covers-unique_strings all t k.0, All-covers all ts k.1)

Covers-unique_strings :
    (all : List Text) (out : Resolutions) → Held all out → Covers (unique_strings all) out
Covers-unique_strings all [] k = tt
Covers-unique_strings all (e ∷ out) k =
    (All-covers all e.1.addresses k.0, Covers-unique_strings all out k.1)

module _ (k : Compiling) where
  pub resolve_egress_domains-IsCompiled :
      (previous : Resolutions) (p q : PluginState)
      → Rising 0 p.egress_blocked_ports
      → Increasing p.egress_blocked_domains
      → resolve_egress_domains k previous p ≡ ok q
      → IsCompiled q
  unfolding resolve_egress_domains
  resolve_egress_domains-IsCompiled previous p q rising increasing h =
      let (pair, e, made) =
        >>=-eq-ok (resolve_domains k previous p.egress_blocked_domains p.egress_blocked_base_ips [])
          (λ x. ok (record p { egress_blocked_ips = unique_strings x.0; domain_resolutions = x.1 }))
          h in
      let reached =
        resolve_domains-Resolved k previous p.egress_blocked_domains p.egress_blocked_base_ips []
          pair.0 pair.1 tt e in
      subst IsCompiled (value_of made) (record {
        ports = rising;
        domains = increasing;
        addresses = unique_strings-Increasing pair.0;
        base =
            All-covers pair.0 p.egress_blocked_base_ips
              (Within-of pair.0 p.egress_blocked_base_ips reached.grown);
        covered = Covers-unique_strings pair.0 pair.1 reached.held;
        resolved = reached.found;
      })

  -- What the two filters leave of the lists.
  base_state-lists :
      (request : PluginSyncRequest) (plugin : Plugin) (shared : Shared)
      → Rising 0 (base_state k request plugin shared).egress_blocked_ports
        × Increasing (base_state k request plugin shared).egress_blocked_domains
  unfolding configure_egress_filter configure_ingress_filter
  base_state-lists request plugin shared =
      let ingress = section_of plugin.config (codes "ingressFilter") in
      let egress = section_of plugin.config (codes "egressFilter") in
      elim (Bool-cases (bool_value (field_of egress (codes "enabled")))) [
        | inl on ↦ simp on (
          resolve_port_list-Rising k.numbers shared (entry_values egress (codes "blockedPorts")),
          unfold resolve_string_list in unique_strings-Increasing _,
        )
        | inr off ↦ elim (Bool-cases (bool_value (field_of ingress (codes "enabled")))) [
          | inl in_on ↦ simp (off, in_on) (tt, tt)
          | inr in_off ↦ simp (off, in_off) (tt, tt)
        ]
      ]

  pub compile_plugin_state-IsCompiled :
      (request : PluginSyncRequest) (previous : Resolutions) (q : PluginState)
      → compile_plugin_state k request previous ≡ ok q
      → IsCompiled q
  unfolding compile_plugin_state
  compile_plugin_state-IsCompiled request previous q h = go request.plugin h
    where
      go :
          (o : Option Plugin)
          → elim o [
            | none ↦ ok (record empty_plugin_state { last_attempt_at = some k.now })
            | some plugin ↦ compile_plugin k request previous plugin
          ]
            ≡ ok q
          → IsCompiled q
      go none e = subst IsCompiled (value_of e) (record {
        ports = tt;
        domains = tt;
        addresses = tt;
        base = tt;
        covered = tt;
        resolved = tt;
      })
      go (some plugin) e =
          unfold compile_plugin in
          let shared = read_shared_lists k.numbers plugin.config in
          let lists = base_state-lists request plugin shared in
          let (u, checked, made) =
            >>=-eq-ok (validate_shared_list_references plugin.config shared)
              (λ _. resolve_egress_domains k previous (base_state k request plugin shared)) e in
          resolve_egress_domains-IsCompiled previous (base_state k request plugin shared) q lists.0
            lists.1 made
