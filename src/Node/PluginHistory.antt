-- ===== src/Node/PluginHistory.antt =====
-- Runs of requests and refreshes of the plugin.
use remnawave_node_go.Base.{
  ℕ, ◌≡◌, refl, Option, none, some, List, [], ◌∷◌, Error, Result, ok, err, Bool-cases, inl, inr,
}
use remnawave_node_go.Node.Plugin.{
  PluginState, empty_plugin_state, Plugin, PluginSyncRequest, Compiling, compile_plugin_state,
  resolve_egress_domains,
}
use remnawave_node_go.Node.Nft.{
  Log, Firewall, Filter, cleared, installed, sync_compiled, sync_with, sync_plugin,
  recreate_nft_tables, same_addresses, refreshed_sets, refreshed_domains, refresh_plugin_dns,
  sync_nft_state,
}
use remnawave_node_go.Node.Compiled.{
  IsCompiled, empty-IsCompiled, resolve_egress_domains-IsCompiled, compile_plugin_state-IsCompiled,
}

-- A call, with what it meets outside.
pub data Call : Type 0 where
  syncs : Firewall → Compiling → PluginSyncRequest → Call
  refreshes : Firewall → Compiling → Call

unfoldable pub step : Call → Filter → Filter
step (syncs f k request) c = (sync_plugin f k request c).0
step (refreshes f k) c = refresh_plugin_dns f k c

unfoldable pub run : List Call → Filter → Filter
run [] c = c
run (call ∷ calls) c = run calls (step call c)

-- The fields that the times and errors of an attempt leave alone.
IsCompiled-attempt :
    (p : PluginState) (a b : Option ℕ) (e : Option Error)
    → IsCompiled p
    → IsCompiled (record p { applied_at = a; last_attempt_at = b; last_error = e })
IsCompiled-attempt p a b e i = record {
  ports = i.ports;
  domains = i.domains;
  addresses = i.addresses;
  base = i.base;
  covered = i.covered;
  resolved = i.resolved;
}

module _ (f : Firewall) where
  installed-IsCompiled :
      (now : ℕ) (next current : PluginState) (x : Log × Option Error)
      → IsCompiled next
      → IsCompiled current
      → IsCompiled (installed now next current x).0.plugin
  unfolding installed
  installed-IsCompiled now next current (log, some e) i j =
      IsCompiled-attempt current current.applied_at (some now) (some e) j
  installed-IsCompiled now next current (log, none) i j =
      IsCompiled-attempt next (some now) (some now) none i

  sync_compiled-IsCompiled :
      (now : ℕ) (c : Filter) (r : Result PluginState)
      → ((q : PluginState) → r ≡ ok q → IsCompiled q)
      → IsCompiled c.plugin
      → IsCompiled (sync_compiled f now c r).0.plugin
  unfolding sync_compiled
  sync_compiled-IsCompiled now c (err e) made i =
      IsCompiled-attempt c.plugin c.plugin.applied_at (some now) (some e) i
  sync_compiled-IsCompiled now c (ok next) made i =
      installed-IsCompiled now next c.plugin _ (made next refl) i

  sync_plugin-IsCompiled :
      (k : Compiling) (request : PluginSyncRequest) (c : Filter)
      → IsCompiled c.plugin
      → IsCompiled (sync_plugin f k request c).0.plugin
  unfolding sync_plugin sync_with
  sync_plugin-IsCompiled k request c i = go request.plugin
    where
      none-IsCompiled : (x : Log × Option Error) → IsCompiled (cleared k.now x).0.plugin
      none-IsCompiled (log, some e) =
          unfold cleared in
          IsCompiled-attempt empty_plugin_state none (some k.now) (some e) empty-IsCompiled
      none-IsCompiled (log, none) =
          unfold cleared in
          IsCompiled-attempt empty_plugin_state (some k.now) (some k.now) none empty-IsCompiled

      go : (o : Option Plugin) → IsCompiled (sync_with f k request c o).0.plugin
      go none = none-IsCompiled (recreate_nft_tables f c.log)
      go (some plugin) =
          sync_compiled-IsCompiled k.now c
            (compile_plugin_state k request c.plugin.domain_resolutions)
            (compile_plugin_state-IsCompiled k request c.plugin.domain_resolutions) i

  refreshed_sets-IsCompiled :
      (now : ℕ) (next before : PluginState) (x : Log × Option Error)
      → IsCompiled next
      → IsCompiled before
      → IsCompiled (refreshed_sets f now next before x).plugin
  unfolding refreshed_sets
  refreshed_sets-IsCompiled now next before (log, none) i j =
      IsCompiled-attempt next next.applied_at next.last_attempt_at none i
  refreshed_sets-IsCompiled now next before (log, some e) i j =
      IsCompiled-attempt before before.applied_at (some now) (some e) j

  refreshed_domains-IsCompiled :
      (now : ℕ) (c : Filter) (r : Result PluginState)
      → ((q : PluginState) → r ≡ ok q → IsCompiled q)
      → IsCompiled c.plugin
      → IsCompiled (refreshed_domains f now c r).plugin
  unfolding refreshed_domains
  refreshed_domains-IsCompiled now c (err e) made i =
      IsCompiled-attempt c.plugin c.plugin.applied_at (some now) (some e) i
  refreshed_domains-IsCompiled now c (ok next) made i =
      elim (Bool-cases (same_addresses c.plugin.egress_blocked_ips next.egress_blocked_ips)) [
        | inl same ↦
            simp same
              (IsCompiled-attempt next next.applied_at next.last_attempt_at none (made next refl))
        | inr moved ↦ simp moved (
            refreshed_sets-IsCompiled now next c.plugin (sync_nft_state f next c.log)
              (made next refl) i)
      ]

step-IsCompiled : (call : Call) (c : Filter) → IsCompiled c.plugin → IsCompiled (step call c).plugin
unfolding step refresh_plugin_dns
step-IsCompiled (syncs f k request) c i = sync_plugin-IsCompiled f k request c i
step-IsCompiled (refreshes f k) c i =
    refreshed_domains-IsCompiled f k.now c
      (resolve_egress_domains k c.plugin.domain_resolutions c.plugin)
      (λ q e.
        resolve_egress_domains-IsCompiled k c.plugin.domain_resolutions c.plugin q i.ports i.domains
          e)
      i

-- From a state of the plugin that has it, any requests SyncPlugin and refreshes of the domains,
-- whatever the resolver and nft answer, leave one that has it: the blocked ports increase within
-- 1 … 65535, the blocked domains and addresses increase, so that none comes twice, every domain has a
-- resolution, and every address of the filter's list and of every resolution is blocked.
pub run-IsCompiled :
    (calls : List Call) (c : Filter) → IsCompiled c.plugin → IsCompiled (run calls c).plugin
unfolding run
run-IsCompiled [] c i = i
run-IsCompiled (call ∷ calls) c i = run-IsCompiled calls (step call c) (step-IsCompiled call c i)
