-- ===== src/Node/Syncing.antt =====
-- What a request SyncPlugin leaves, and the commands that it gives to nft.
use remnawave_node_go.Base.{
  ℕ, ◌≡◌, true, Option, none, some, List, ◌∷◌, ◌++◌, Error, Result, ok, err, if◌then◌else◌,
}
use remnawave_node_go.Node.Plugin.{PluginState, Plugin}
use remnawave_node_go.Node.Nft.{
  Command, Log, Firewall, drop_table, table_commands, sync_commands, fill_tables, Filter,
  with_failure,
}

module _ (f : Firewall) where
  -- The table anew with the sets of a state: all the commands.
  abbrev pub all_commands : PluginState → List Command
  all_commands p = drop_table ∷ (table_commands ++ sync_commands f p)

  -- Of the commands `cs` after `log`, those up to one that failed with `e` were given; `after` is the
  -- log then.
  pub record Stuck (cs : List Command) (log after : Log) (e : Error) : Type 0 where
    pub given : List Command
    pub left : List Command
    pub parts : cs ≡ given ++ left
    pub logged : after ≡ log ++ given
    pub failed : f.answer after ≡ some e

  -- What a request with a plugin comes to. `compiled` is what the compilation returns, `now` its time,
  -- `c` what was there before.
  pub data Synced (compiled : Result PluginState) (now : ℕ) (c : Filter)
      : Filter × Option Error → Type 0 where
    refused_plugin :
        (e : Error)
        → compiled ≡ err e
        → Synced compiled now c (record c { plugin = with_failure now e c.plugin }, some e)
    accepted :
        (next : PluginState) (log : Log)
        → compiled ≡ ok next
        → log ≡ (if f.ready then c.log ++ all_commands next else c.log)
        → Synced compiled now c (
          record {
            plugin = record next {
              applied_at = some now;
              last_attempt_at = some now;
              last_error = none;
            };
            log = log;
          },
          none,
        )
    put_back :
        (next : PluginState) (e : Error) (before : Log)
        → compiled ≡ ok next
        → f.ready ≡ true
        → Stuck (all_commands next) c.log before e
        → (fill_tables f c.plugin before).1 ≡ none
        → Synced compiled now c (
          record { plugin = with_failure now e c.plugin; log = before ++ all_commands c.plugin },
          some e,
        )
    not_put_back :
        (next : PluginState) (e again : Error) (before log : Log)
        → compiled ≡ ok next
        → f.ready ≡ true
        → Stuck (all_commands next) c.log before e
        → Stuck (all_commands c.plugin) before log again
        → Synced compiled now c (record { plugin = with_failure now e c.plugin; log = log }, some e)
