-- ===== src/Node/Activation.antt =====
-- How manager.go activates a configuration of sing-box, and how it goes back to the one before.
-- supervisord is seen as the text of the file that the process was start_process with: a start that succeeds
-- reads the file, a stop that succeeds leaves no process, and a call that fails has done nothing.
use remnawave_node_go.Base.{
  ℕ, Bool, true, false, ◌&&◌, Option, none, some, [], ◌++◌, Text, codes, text_eq, is_empty, Error,
  message, wrapped, Result, ok, err, ◌==◌, if◌then◌else◌,
}
use remnawave_node_go.Base.Json.{Fields}
use remnawave_node_go.Runtime.Types.{Runtime}
use remnawave_node_go.Runtime.Core.{
  sing_box, set_sing_box_config, set_running_core, set_online_status,
}
use remnawave_node_go.Node.ApiConfig.{Settings, apply_sing_box_api_config}
use remnawave_node_go.Node.Files.{
  Files, CandidateCalls, WriteCalls, write_file_atomic, read_optional_file, RestoreCalls,
  restore_optional_file, hash_config_bytes,
}
use remnawave_node_go.Node.Health.{Health, state_running}

pub data ApplyStatus : Type 0 where
  pending : ApplyStatus
  applied : ApplyStatus
  rejected : ApplyStatus
  failed : ApplyStatus
  rolled_back : ApplyStatus
  unchanged : ApplyStatus

pub data RollbackStatus : Type 0 where
  not_required : RollbackStatus
  succeeded : RollbackStatus
  rollback_failed : RollbackStatus
  not_available : RollbackStatus

pub record ApplyResult : Type 0 where
  pub status : ApplyStatus
  pub requested_hash : Text
  pub active_hash : Option Text
  pub attempted_at : ℕ
  pub applied_at : Option ℕ
  pub rollback : RollbackStatus

-- newSingBoxApplyResult
unfoldable pub new_sing_box_apply_result :
    ApplyStatus → Text → Text → ℕ → Option ℕ → RollbackStatus → ApplyResult
new_sing_box_apply_result status requested active at applied_at rollback = record {
  status = status;
  requested_hash = requested;
  active_hash = if is_empty active then none else some active;
  attempted_at = at;
  applied_at = applied_at;
  rollback = rollback;
}

-- What an activation works on: the runtime, the files, the text that the process was start_process with, and
-- singBoxApplyResult.
pub record Core : Type 0 where
  pub runtime : Runtime
  pub files : Files
  pub process : Option Text
  pub result : Option ApplyResult

-- What an activation meets outside: JSON (`decode` into a map that is there), SHA-256, and what each
-- call returns, in the order of the code.
pub record Outside : Type 0 where
  pub settings : Settings
  pub sha256 : Text → Text
  pub canonical : Text → Option Text
  pub encode : Fields → Result Text
  pub decode : Fields → Text → Result Fields
  pub make_directory : Option Error
  pub candidate : CandidateCalls
  pub read_current : Option Error
  pub check : Option Error
  pub save_last_good : WriteCalls
  pub change_mode : Option Error
  pub rename : Option Error
  pub sync_directory : Option Error
  pub restore : RestoreCalls
  pub stop : Option Error
  pub start : Option Error
  pub health : Health
  pub persist : WriteCalls
  pub stop_again : Option Error
  pub restore_again : RestoreCalls
  pub read_last_good : Option Error
  pub write_last_good : WriteCalls
  pub save_again : WriteCalls
  pub start_again : Option Error
  pub process_state : Result ℕ
  pub attempted_at : ℕ
  pub finished_at : ℕ

-- What one activation has found out.
pub record Attempt : Type 0 where
  pub config : Fields
  pub encoded : Text
  pub requested_hash : Text
  pub previous_hash : Text
  pub previous_core : Text
  pub previous_runtime : Fields
  pub previous : Option Text

abbrev pub config_path : Settings → Text
config_path s =
    if is_empty s.sing_box_config_path
    then codes "/run/remnawave/sing-box.json"
    else s.sing_box_config_path

-- singBoxLastGoodPath
abbrev pub last_good_path : Settings → Text
last_good_path s =
    if is_empty s.sing_box_last_good_path
    then config_path s ++ codes ".last-good"
    else s.sing_box_last_good_path

abbrev pub is_some : {A : Type 0} → Option A → Bool
is_some none = false
is_some (some x) = true

unfoldable pub is_running : Result ℕ → Bool
is_running (err e) = false
is_running (ok state) = state == state_running

-- The error of a wait; `none` where the fuel ran out, which it does not.
unfoldable pub health_error : Option (Option Error) → Option Error
health_error none = some (message "the wait for sing-box did not end")
health_error (some r) = r

module _ (o : Outside) where
  -- refreshOnlineStatus
  unfoldable pub refresh_online_status : Runtime → Runtime
  refresh_online_status = set_online_status (is_running o.process_state)

  abbrev pub hash_of : Text → Text
  hash_of = hash_config_bytes o.canonical o.sha256

  -- The configuration that goes to sing-box.
  abbrev pub prepared_config : Fields → Fields
  prepared_config = apply_sing_box_api_config o.sha256 o.settings

  unfoldable pub report : ApplyStatus → Text → Text → Option ℕ → RollbackStatus → Core → Core
  report status requested active applied_at rollback c = record c {
    result =
        some (new_sing_box_apply_result status requested active o.attempted_at applied_at rollback);
  }

  -- FAILED before anything was replaced.
  abbrev pub give_up : Attempt → Error → Core → Core × Option Error
  give_up a e c = (report failed a.requested_hash a.previous_hash none not_required c, some e)

  unfoldable pub stop_process : Option Error → Core → Core
  stop_process none c = record c { process = none }
  stop_process (some e) c = c

  unfoldable pub start_process : Core → Core
  start_process c = record c { process = c.files (config_path o.settings) }

  abbrev pub was_sing_box : Attempt → Bool
  was_sing_box a = text_eq a.previous_core sing_box

  -- `m.state.SetRunningCore(core)` and refreshOnlineStatus.
  unfoldable pub with_core : Text → Core → Core
  with_core core c = record c { runtime = refresh_online_status (set_running_core core c.runtime) }

  unfoldable pub with_config : Fields → Core → Core
  with_config config c = record c { runtime = set_sing_box_config config c.runtime }

  -- The end of rollbackSingBox, given what the start of the core before returned.
  unfoldable pub after_start_again : Attempt → Option Error → Core → Core × Option Error
  after_start_again a none c = (with_core a.previous_core (start_process c), none)
  after_start_again a (some e) c = (with_core [] c, some (wrapped "restart previous core" e))

  -- rollbackSingBox once the files are restored.
  unfoldable pub restart_previous : Attempt → Files × Option Error → Core → Core × Option Error
  restart_previous a (files, some e) c =
      (with_core [] (record c { files = files }), some (wrapped "restore sing-box configuration" e))
  restart_previous a (files, none) c =
      let c' = record c { files = files } in
      if was_sing_box a
      then after_start_again a o.start_again (with_config a.previous_runtime c')
      else (with_core a.previous_core c', none)

  -- The last configuration that was good, in place of a file that was not there.
  unfoldable pub from_last_good :
      Attempt → Files × Option Error → Result (Option Text) → Files × Option Error
  from_last_good a (files, e) (err f) = (files, some f)
  from_last_good a (files, e) (ok none) = (files, e)
  from_last_good a (files, e) (ok (some content)) =
      if was_sing_box a
      then write_file_atomic o.write_last_good (config_path o.settings) content files
      else (files, e)

  -- The last good configuration is the one before, where there was one.
  unfoldable pub save_previous : Attempt → Text → Files × Option Error → Files × Option Error
  save_previous a content (files, some e) = (files, some e)
  save_previous a content (files, none) =
      if was_sing_box a
      then write_file_atomic o.save_again (last_good_path o.settings) content files
      else (files, none)

  unfoldable pub restore_files : Attempt → Option Text → Files → Files × Option Error
  restore_files a none files =
      let back = restore_optional_file o.restore_again (config_path o.settings) none files in
      from_last_good a back (read_optional_file o.read_last_good (last_good_path o.settings) back.0)
  restore_files a (some content) files =
      save_previous a content
        (restore_optional_file o.restore_again (config_path o.settings) (some content) files)

  -- rollbackSingBox
  unfoldable pub rollback_sing_box : Attempt → Core → Core × Option Error
  rollback_sing_box a c =
      let c' = stop_process o.stop_again c in
      restart_previous a (restore_files a a.previous c'.files) c'

  -- failSingBoxActivation after the rollback.
  unfoldable pub after_rollback : Attempt → Error → Core × Option Error → Core × Option Error
  after_rollback a e (c, some f) = (
    report failed a.requested_hash a.previous_hash none rollback_failed c,
    some (wrapped "rollback failed" e),
  )
  after_rollback a e (c, none) =
      if is_empty a.previous_core && (if is_some a.previous then false else true)
      then (
        report failed a.requested_hash [] none not_available c,
        some (wrapped "first activation failed" e),
      )
      else (
        report rolled_back a.requested_hash a.previous_hash (some o.finished_at) succeeded c,
        some (wrapped "previous configuration and core restored" e),
      )

  -- failSingBoxActivation
  unfoldable pub fail_sing_box_activation : Attempt → Error → Core → Core × Option Error
  fail_sing_box_activation a e c = after_rollback a e (rollback_sing_box a c)
