-- ===== src/Node/Activating.antt =====
-- The whole of restartSingBox: what is served before and after.
use remnawave_node_go.Base.{
  ◌≡◌, refl, ◌∙◌, false, Option, none, some, [], Text, text_eq, Error, Result, ok, err, Bool-cases,
  inl, inr, ◌⊎◌,
}
use remnawave_node_go.Base.Json.{Fields}
use remnawave_node_go.Runtime.Core.{sing_box}
use remnawave_node_go.Node.Files.{write_candidate_file, read_optional_file}
use remnawave_node_go.Node.Activation.{
  ApplyResult, Core, Outside, config_path, last_good_path, prepared_config, hash_of, report,
  pending, not_required,
}
use remnawave_node_go.Node.Restart.{
  attempt_of, after_decode, after_read, after_candidate, after_encode, after_directory,
  restart_sing_box, check_sing_box_config,
}
use remnawave_node_go.Node.Served.{served, Replaces, replaced, untouched, resumed, lost, IsServed}
use remnawave_node_go.Node.RollingBack.{Known, idle, running_on, served-idle, served-running}
use remnawave_node_go.Node.Refines.{Post, SaysRollbackFailed, after_preflight-Post}

module _ (o : Outside) where
  Known-attempt_of :
      (config : Fields) (encoded : Text) (previous_runtime : Fields) (c : Core)
      → IsServed o c
      → Known o
          (attempt_of o config encoded (c.files (config_path o.settings)) previous_runtime c)
          (served c)
  Known-attempt_of config encoded previous_runtime c (inl off) = idle off (served-idle o c off)
  Known-attempt_of config encoded previous_runtime c (inr (t, file, process)) =
      elim (Bool-cases (text_eq c.runtime.running sing_box)) [
        | inl on ↦ running_on t on file (served-running o c on ∙ process)
        | inr off ↦ idle off (served-idle o c off)
      ]

  -- An answer with an error before anything happened.
  nothing_done :
      (wanted : Result Text) (c : Core) (e : Error) → IsServed o c → Post o wanted c (c, some e)
  nothing_done wanted c e on = (untouched e refl refl refl, inl on)

  -- The result reported before is no part of what is replaced.
  Replaces-report :
      (wanted : Result Text) (c : Core) (r : Option ApplyResult) {new : Core} {out : Option Error}
      → Replaces o wanted (record c { result = r }) new out
      → Replaces o wanted c new out
  unfolding served
  Replaces-report wanted c r (replaced t want now fine) = replaced t want now fine
  Replaces-report wanted c r (untouched e same process bad) = untouched e same process bad
  Replaces-report wanted c r (resumed e same clean bad) = resumed e same clean bad
  Replaces-report wanted c r (lost e nothing clean bad) = lost e nothing clean bad

  module _ (apart : text_eq (last_good_path o.settings) (config_path o.settings) ≡ false) where
    after_decode-Post :
        (wanted : Result Text) (config : Fields) (encoded : Text) (r : Result Fields) (c : Core)
        → IsServed o c
        → wanted ≡ ok encoded
        → Post o wanted c (after_decode o config encoded (c.files (config_path o.settings)) r c)
    unfolding after_decode report served
    after_decode-Post wanted config encoded (err e) c on want = (untouched _ refl refl refl, inl on)
    after_decode-Post wanted config encoded (ok previous_runtime) c on want =
        after_preflight-Post o apart wanted _ c (check_sing_box_config o) c
          (record {
            known = Known-attempt_of config encoded previous_runtime c on;
            running = refl;
            serves = refl;
            process = refl;
          })
          want refl

    after_candidate-Post :
        (wanted : Result Text) (config : Fields) (encoded : Text) (r : Option Error) (c : Core)
        → IsServed o c
        → wanted ≡ ok encoded
        → Post o wanted c (after_candidate o config encoded r c)
    unfolding after_candidate report served
    after_candidate-Post wanted config encoded (some e) c on want =
        (untouched _ refl refl refl, inl on)
    after_candidate-Post wanted config encoded none c on want = go o.read_current
      where
        go :
            (x : Option Error)
            → Post o wanted c (
                after_read o config encoded
                  (read_optional_file x (config_path o.settings) c.files)
                  c)
        go (some e) =
            unfold after_read read_optional_file report served in
            (untouched _ refl refl refl, inl on)
        go none =
            unfold after_read read_optional_file in
            after_decode-Post wanted config encoded _ c on want

    after_encode-Post :
        (config : Fields) (r : Result Text) (c : Core)
        → IsServed o c
        → Post o r c (after_encode o config r c)
    unfolding after_encode report served
    after_encode-Post config (err e) c on = nothing_done (err e) c _ on
    after_encode-Post config (ok encoded) c on =
        let after : Post o (ok encoded)
            (report o pending (hash_of o encoded) [] none not_required c)
            (after_candidate o config encoded (write_candidate_file o.candidate)
              (report o pending (hash_of o encoded) [] none not_required c)) =
          after_candidate-Post (ok encoded) config encoded (write_candidate_file o.candidate)
            (report o pending (hash_of o encoded) [] none not_required c) on refl in
        (Replaces-report (ok encoded) c _ after.0, after.1)

    -- From a core that, where it is said to run, runs on the file that is there, an activation either
    -- serves the encoded configuration and returns no error, or returns an error and serves what it
    -- served, or returns an error and serves nothing. What is served is the configuration of the
    -- supervised process, where the core is said to run. With an error, the process is the same one as
    -- before, or the one with the configuration that is served, and none runs where nothing is served,
    -- unless the rollback's stop returned an error and the candidate was started or the stop before it
    -- returned one too. A core that is said to run afterwards runs on the file that is there, unless
    -- the result says that a rollback failed. The last good configuration must have a file of its own.
    pub restart_sing_box-Replaces :
        (config : Fields) (c : Core)
        → IsServed o c
        → Replaces o
            (o.encode (prepared_config o config))
            c
            (restart_sing_box o config c).0
            (restart_sing_box o config c).1
          × (IsServed o (restart_sing_box o config c).0
              ⊎ SaysRollbackFailed (restart_sing_box o config c).0)
    unfolding restart_sing_box
    restart_sing_box-Replaces config c on = go o.make_directory
      where
        go :
            (x : Option Error)
            → Post o
                (o.encode (prepared_config o config))
                c
                (after_directory o (prepared_config o config) x c)
        go (some e) =
            unfold after_directory in nothing_done (o.encode (prepared_config o config)) c _ on
        go none =
            unfold after_directory in
            after_encode-Post (prepared_config o config) (o.encode (prepared_config o config)) c on
