-- ===== src/Node/Start.antt =====
-- The requests that start and stop the core (manager.go). Of the answers the models keep whether the
-- core is start_process and the error.
use remnawave_node_go.Base.{
  ℕ, Bool, false, not, ◌||◌, Option, none, some, List, [], Text, text_eq, Error, Result,
  if◌then◌else◌,
}
use remnawave_node_go.Base.Json.{Fields}
use remnawave_node_go.Bolt.{Bolt}
use remnawave_node_go.Runtime.Types.{Runtime, StartHashes}
use remnawave_node_go.Runtime.Core.{
  sing_box, set_core_version, set_sing_box_config, set_running_core, set_online_status,
  set_last_hashes, should_restart, reset,
}
use remnawave_node_go.Forwarding.Types.{Listener, Failure, Outcome, done, fail}
use remnawave_node_go.Forwarding.Names.{Net}
use remnawave_node_go.Forwarding.Extract.{extract_core_listeners}
use remnawave_node_go.Forwarding.Service.{Node}
use remnawave_node_go.Forwarding.Sync.{validate_core}
use remnawave_node_go.Node.ApiConfig.{Settings, normalize_sing_box_keys, no_entries}
use remnawave_node_go.Node.Activation.{
  Core, Outside, prepared_config, refresh_online_status, stop_process,
}
use remnawave_node_go.Node.Restart.{restart_sing_box, record_unchanged_sing_box_config}
use remnawave_node_go.Node.Usage.{Usage, mark_restarted}

-- Why a start is answered with an error.
pub data StartError : Type 0 where
  no_config : StartError
  conflicting : Failure → StartError
  not_activated : Error → StartError

-- What a start meets beside the activation: the version that the binary prints, whether the
-- configuration differs from the runtime's (reflect.DeepEqual), its JSON, and package net.
pub record Starting : Type 1 where
  pub outside : Outside
  pub net : Net
  pub int_of : Text → ℕ
  pub version : Option Text
  pub same_config : Fields → Fields → Bool
  pub marshal : Fields → Result Text

pub record StartRequest : Type 0 where
  pub config : Fields
  pub force_restart : Bool
  pub hashes : StartHashes

-- shouldRestartCore, for sing-box
unfoldable pub should_restart_core : Settings → Bool → StartHashes → Runtime → Bool
should_restart_core s force hashes r =
    force
    || s.disable_hash_check
    || not (text_eq r.running sing_box)
    || not r.sing_box_online
    || should_restart hashes r

-- currentCoreListeners
unfoldable pub current_core_listeners : (N : Net) → (Text → ℕ) → Runtime → List Listener
current_core_listeners N int_of r =
    if text_eq r.running sing_box
    then extract_core_listeners N int_of sing_box r.sing_box_config
    else []

module _ (k : Starting) where
  abbrev pub refreshed : Core → Core
  refreshed c = record c { runtime = refresh_online_status k.outside c.runtime }

  -- SyncEnvironment
  unfoldable pub sync_environment : Core → Core
  sync_environment c = refreshed (record c { runtime = set_core_version k.version c.runtime })

  -- The configuration of the request as it is compared and activated.
  abbrev pub config_of : StartRequest → Fields
  config_of request = prepared_config k.outside (normalize_sing_box_keys request.config)

  -- The end of a start that succeeds.
  unfoldable pub finish_start : StartRequest → Core → Core
  finish_start request c =
      refreshed (record c { runtime = set_last_hashes request.hashes c.runtime })

  -- A core that runs with the same configuration.
  unfoldable pub keep_running : StartRequest → Fields → Core → Core
  keep_running request config c = finish_start request (
      record_unchanged_sing_box_config k.outside (k.marshal config)
        (record c { runtime = set_sing_box_config config c.runtime }))

  module _ {B : Bolt} where
    unfoldable pub after_restart :
        StartRequest → Usage B → Core × Option Error → (Core × Usage B) × Option StartError
    after_restart request u (c, some e) = ((refreshed c, u), some (not_activated e))
    after_restart request u (c, none) = ((finish_start request c, mark_restarted u), none)

    unfoldable pub after_validation :
        StartRequest
        → Fields
        → Usage B
        → Outcome (Unit {0})
        → Core
        → (Core × Usage B) × Option StartError
    after_validation request config u (fail e) c = ((refreshed c, u), some (conflicting e))
    after_validation request config u (done _) c =
        let restart =
          should_restart_core k.outside.settings request.force_restart request.hashes c.runtime
          || not (k.same_config c.runtime.sing_box_config config) in
        if restart
        then after_restart request u (restart_sing_box k.outside config c)
        else ((keep_running request config c, u), none)

    -- Start
    unfoldable pub start_core :
        StartRequest → Node → Core → Usage B → (Core × Usage B) × Option StartError
    start_core request node c u =
        let synced = sync_environment c in
        let config = config_of request in
        if no_entries config
        then ((synced, u), some no_config)
        else after_validation request config u
            (validate_core (extract_core_listeners k.net k.int_of sing_box config) node) synced

-- Stop; `stop` is what StopProcess returns, which the code does not look at.
unfoldable pub stop_core : Outside → Core → Core
stop_core o c =
    let c' = stop_process o o.stop c in
    record c' { runtime = reset (set_online_status false (set_running_core [] c'.runtime)) }
