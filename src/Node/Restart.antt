-- ===== src/Node/Restart.antt =====
-- restartSingBox of manager.go: the steps of an activation, each given what its call returned.
use remnawave_node_go.Base.{
  ◌&&◌, Option, none, some, [], Text, text_eq, Error, wrapped, Result, ok, err, if◌then◌else◌,
}
use remnawave_node_go.Base.Json.{Fields}
use remnawave_node_go.Runtime.Core.{sing_box, mark_hashes_dirty}
use remnawave_node_go.Node.Files.{
  Files, put_file, write_candidate_file, write_file_atomic, read_optional_file,
  restore_optional_file,
}
use remnawave_node_go.Node.Health.{wait_for_sing_box_healthy}
use remnawave_node_go.Node.Activation.{
  pending, applied, rejected, failed, unchanged, not_required, succeeded, rollback_failed, Core,
  Outside, Attempt, config_path, last_good_path, is_some, health_error, hash_of, prepared_config,
  report, give_up, stop_process, start_process, was_sing_box, with_core, with_config,
  fail_sing_box_activation,
}

module _ (o : Outside) where
  -- APPLIED
  unfoldable pub finish_activation : Attempt → Core → Core × Option Error
  finish_activation a c = (
    with_core o sing_box (
        with_config o a.config
          (report o applied a.requested_hash a.requested_hash (some o.finished_at) not_required c)),
    none,
  )

  unfoldable pub after_persist : Attempt → Files × Option Error → Core → Core × Option Error
  after_persist a (files, some e) c =
      fail_sing_box_activation o a (wrapped "persist sing-box last-known-good configuration" e)
        (record c { files = files })
  after_persist a (files, none) c = finish_activation a (record c { files = files })

  unfoldable pub after_health : Attempt → Option Error → Core → Core × Option Error
  after_health a (some e) c = fail_sing_box_activation o a e c
  after_health a none c =
      after_persist a (write_file_atomic o.persist (last_good_path o.settings) a.encoded c.files) c

  unfoldable pub after_start : Attempt → Option Error → Core → Core × Option Error
  after_start a (some e) c = fail_sing_box_activation o a (wrapped "start sing-box" e) c
  after_start a none c =
      after_health a (health_error (wait_for_sing_box_healthy o.health)) (start_process o c)

  unfoldable pub after_restore : Attempt → Error → Files × Option Error → Core → Core × Option Error
  after_restore a e (files, some f) c = (
    report o failed a.requested_hash a.previous_hash none rollback_failed
        (record c { files = files }),
    some (wrapped "sync sing-box configuration directory" e),
  )
  after_restore a e (files, none) c = (
    report o failed a.requested_hash a.previous_hash none succeeded (record c { files = files }),
    some (wrapped "sync sing-box configuration directory" e),
  )

  unfoldable pub after_sync : Attempt → Option Error → Core → Core × Option Error
  after_sync a (some e) c =
      after_restore a e
        (restore_optional_file o.restore (config_path o.settings) a.previous c.files) c
  after_sync a none c = after_start a o.start (stop_process o o.stop c)

  -- The candidate takes the place of the file.
  unfoldable pub after_rename : Attempt → Option Error → Core → Core × Option Error
  after_rename a (some e) c = give_up o a (wrapped "activate sing-box candidate configuration" e) c
  after_rename a none c =
      after_sync a o.sync_directory
        (record c { files = put_file (config_path o.settings) (some a.encoded) c.files })

  unfoldable pub after_mode : Attempt → Option Error → Core → Core × Option Error
  after_mode a (some e) c = give_up o a (wrapped "set sing-box candidate permissions" e) c
  after_mode a none c = after_rename a o.rename c

  unfoldable pub after_save : Attempt → Files × Option Error → Core → Core × Option Error
  after_save a (files, some e) c =
      give_up o a (wrapped "save current sing-box configuration as last-known-good" e)
        (record c { files = files })
  after_save a (files, none) c = after_mode a o.change_mode (record c { files = files })

  -- The file before is kept as the last good one where the core ran on it.
  unfoldable pub save_current : Attempt → Option Text → Core → Core × Option Error
  save_current a none c = after_mode a o.change_mode c
  save_current a (some content) c =
      if was_sing_box o a
      then after_save a
          (write_file_atomic o.save_last_good (last_good_path o.settings) content c.files) c
      else after_mode a o.change_mode c

  -- checkSingBoxConfig, less the output of the command.
  unfoldable pub check_sing_box_config : Option Error
  check_sing_box_config = elim o.check [
    | none ↦ none
    | some e ↦ some (wrapped "sing-box configuration preflight failed" e)
  ]

  unfoldable pub after_preflight : Attempt → Option Error → Core → Core × Option Error
  after_preflight a none c = save_current a a.previous c
  after_preflight a (some e) c =
      let c' =
        if was_sing_box o a && is_some a.previous then with_config o a.previous_runtime c else c in
      (report o rejected a.requested_hash a.previous_hash none not_required c', some e)

  abbrev pub attempt_of : Fields → Text → Option Text → Fields → Core → Attempt
  attempt_of config encoded previous previous_runtime c = record {
    config = config;
    encoded = encoded;
    requested_hash = hash_of o encoded;
    previous_hash = elim previous [ none ↦ [] | some content ↦ hash_of o content ];
    previous_core = c.runtime.running;
    previous_runtime = previous_runtime;
    previous = previous;
  }

  -- FAILED while the state before is read.
  abbrev pub unread : Text → Error → Core → Core × Option Error
  unread encoded e c = (report o failed (hash_of o encoded) [] none not_required c, some e)

  unfoldable pub after_decode :
      Fields → Text → Option Text → Result Fields → Core → Core × Option Error
  after_decode config encoded previous (err e) c =
      unread encoded (wrapped "decode current sing-box configuration for rollback" e) c
  after_decode config encoded previous (ok previous_runtime) c =
      after_preflight (attempt_of config encoded previous previous_runtime c) check_sing_box_config
        c

  -- The runtime's configuration, under what the file says where the core runs on it.
  unfoldable pub previous_runtime_of : Option Text → Core → Result Fields
  previous_runtime_of none c = ok c.runtime.sing_box_config
  previous_runtime_of (some content) c =
      if text_eq c.runtime.running sing_box
      then o.decode c.runtime.sing_box_config content
      else ok c.runtime.sing_box_config

  unfoldable pub after_read : Fields → Text → Result (Option Text) → Core → Core × Option Error
  after_read config encoded (err e) c =
      unread encoded (wrapped "read current sing-box configuration" e) c
  after_read config encoded (ok previous) c =
      after_decode config encoded previous (previous_runtime_of previous c) c

  unfoldable pub after_candidate : Fields → Text → Option Error → Core → Core × Option Error
  after_candidate config encoded (some e) c =
      unread encoded (wrapped "write sing-box candidate configuration" e) c
  after_candidate config encoded none c =
      after_read config encoded (read_optional_file o.read_current (config_path o.settings) c.files)
        c

  unfoldable pub after_encode : Fields → Result Text → Core → Core × Option Error
  after_encode config (err e) c = (c, some (wrapped "encode sing-box configuration" e))
  after_encode config (ok encoded) c =
      after_candidate config encoded (write_candidate_file o.candidate)
        (report o pending (hash_of o encoded) [] none not_required c)

  unfoldable pub after_directory : Fields → Option Error → Core → Core × Option Error
  after_directory config (some e) c =
      (c, some (wrapped "create sing-box configuration directory" e))
  after_directory config none c = after_encode config (o.encode config) c

  -- restartSingBox
  unfoldable pub restart_sing_box : Fields → Core → Core × Option Error
  restart_sing_box config = after_directory (prepared_config o config) o.make_directory

  -- restartCurrentCore
  unfoldable pub restart_current_core : Core → Core × Option Error
  restart_current_core c =
      let dirty = record c { runtime = mark_hashes_dirty c.runtime } in
      if text_eq c.runtime.running sing_box
      then restart_sing_box c.runtime.sing_box_config dirty
      else (dirty, none)

  -- recordUnchangedSingBoxConfig; `marshal` is json.Marshal.
  unfoldable pub record_unchanged_sing_box_config : Result Text → Core → Core
  record_unchanged_sing_box_config (err e) c = record c { result = none }
  record_unchanged_sing_box_config (ok encoded) c =
      report o unchanged (hash_of o encoded) (hash_of o encoded) none not_required c
