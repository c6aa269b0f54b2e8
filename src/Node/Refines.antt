-- ===== src/Node/Refines.antt =====
-- An activation as its caller sees it: one change of what is served, or none.
use remnawave_node_go.Base.{
  ◌≡◌, refl, sym, ap, ◌∙◌, true, false, ◌&&◌, Option, none, some, Text, text_eq, text_eq_refl,
  is_empty, Error, Result, ok, if◌then◌else◌, Bool-cases, inl, inr, ◌⊎◌,
}
use remnawave_node_go.Base.Json.{Fields}
use remnawave_node_go.Runtime.Core.{sing_box}
use remnawave_node_go.Node.Files.{Files, put_file}
use remnawave_node_go.Node.Health.{wait_for_sing_box_healthy}
use remnawave_node_go.Node.Activation.{
  rollback_failed, ApplyResult, new_sing_box_apply_result, Core, Outside, Attempt, config_path,
  last_good_path, is_some, health_error, report, stop_process, start_process, was_sing_box,
  with_config, rollback_sing_box, after_rollback, fail_sing_box_activation,
}
use remnawave_node_go.Node.Restart.{
  finish_activation, after_persist, after_health, after_start, after_restore, after_sync,
  after_rename, after_mode, after_save, save_current, after_preflight,
}
use remnawave_node_go.Node.Served.{
  served, IsLoose, Replaces, replaced, untouched, resumed, lost, IsServed,
}
use remnawave_node_go.Node.Restoring.{
  write_file_atomic_other, restore_optional_file_done, running-set_sing_box_config,
}
use remnawave_node_go.Node.RollingBack.{
  Known, idle, running_on, Back, served-idle, served-running, with_core-serves,
  rollback_sing_box-Back,
}

-- The apply result says that a rollback failed.
abbrev pub SaysRollbackFailed : Core → Type 0
SaysRollbackFailed c = (r : ApplyResult) × (c.result ≡ some r) × (r.rollback ≡ rollback_failed)

module _ (o : Outside) where
  -- What is served is replaced, kept or lost, and a core that is said to run runs on the file that is
  -- there, unless the result says that a rollback failed.
  abbrev pub Post : Result Text → Core → Core × Option Error → Type 0
  Post wanted old x = Replaces o wanted old x.0 x.1 × (IsServed o x.0 ⊎ SaysRollbackFailed x.0)

  -- Before the process is touched.
  pub record Ctx (a : Attempt) (old c : Core) : Type 0 where
    pub known : Known o a (served old)
    pub running : c.runtime.running ≡ a.previous_core
    pub serves : served c ≡ served old
    pub process : c.process ≡ old.process

  Ctx-with :
      (a : Attempt) (old : Core) (c : Core) (files : Files) (r : Option ApplyResult)
      → Ctx a old c
      → Ctx a old (record c { files = files; result = r })
  unfolding served
  Ctx-with a old c files r x = record {
    known = x.known;
    running = x.running;
    serves = x.serves;
    process = x.process;
  }

  files-stopped : (r : Option Error) (c : Core) → (stop_process o r c).files ≡ c.files
  unfolding stop_process
  files-stopped none c = refl
  files-stopped (some e) c = refl

  Ctx-process :
      (a : Attempt) (old : Core) (c : Core)
      → Ctx a old c
      → text_eq a.previous_core sing_box ≡ true
      → c.process ≡ served old
  Ctx-process a old c x on =
      sym (served-running o c (ap (λ (t : Text). text_eq t sing_box) x.running ∙ on)) ∙ x.serves

  Ctx-IsServed :
      (a : Attempt) (old : Core) (c : Core)
      → Ctx a old c
      → c.files (config_path o.settings) ≡ a.previous
      → IsServed o c
  Ctx-IsServed a old c x file = go x.known
    where
      go : Known o a (served old) → IsServed o c
      go (idle off nothing) = inl (ap (λ (t : Text). text_eq t sing_box) x.running ∙ off)
      go (running_on t on previous was) = inr (t, file ∙ previous, Ctx-process a old c x on ∙ was)

  Ctx-with_config :
      (a : Attempt) (old : Core) (config : Fields) (c : Core)
      → Ctx a old c
      → Ctx a old (with_config o config c)
  unfolding with_config served
  Ctx-with_config a old config c x =
      let same = running-set_sing_box_config config c.runtime in
      record {
        known = x.known;
        running = same ∙ x.running;
        serves = ap (λ (t : Text). if text_eq t sing_box then c.process else none) same ∙ x.serves;
        process = x.process;
      }

  -- An answer with an error that leaves everything as it is.
  refused :
      (wanted : Result Text) (a : Attempt) (old : Core) (c : Core) (e : Error)
      → Ctx a old c
      → c.files (config_path o.settings) ≡ a.previous
      → Post wanted old (c, some e)
  refused wanted a old c e x file =
      (untouched e x.serves x.process refl, inl (Ctx-IsServed a old c x file))

  module _ (apart : text_eq (last_good_path o.settings) (config_path o.settings) ≡ false) where
    after_rollback-Post :
        (wanted : Result Text) (a : Attempt) (e : Error) (old : Core) (x : Core × Option Error)
        → Back o (served old) x
        → Post wanted old (after_rollback o a e x)
    unfolding after_rollback report served
    after_rollback-Post wanted a e old (c, some f) (off, clean) =
        (lost _ (served-idle o c off) clean refl, inl (inl off))
    after_rollback-Post wanted a e old (c, none) (same, on, clean) =
        elim (Bool-cases
          (is_empty a.previous_core && (if is_some a.previous then false else true))) [
            | inl first ↦ simp first (resumed _ same clean refl, inl on)
            | inr again ↦ simp again (resumed _ same clean refl, inl on)
          ]

    fail-Post :
        (wanted : Result Text) (a : Attempt) (e : Error) (old : Core) (c : Core)
        → Known o a (served old)
        → (c.process ≡ none) ⊎ IsLoose o
        → Post wanted old (fail_sing_box_activation o a e c)
    unfolding fail_sing_box_activation
    fail-Post wanted a e old c known from =
        after_rollback-Post wanted a e old (rollback_sing_box o a c)
          (rollback_sing_box-Back o apart a (served old) c known from)

    finish_activation-Post :
        (wanted : Result Text) (a : Attempt) (old : Core) (c : Core)
        → wanted ≡ ok a.encoded
        → c.process ≡ some a.encoded
        → c.files (config_path o.settings) ≡ some a.encoded
        → Post wanted old (finish_activation o a c)
    unfolding finish_activation with_config report
    finish_activation-Post wanted a old c want process file =
        let (now, on, clean) =
          with_core-serves o _ sing_box a.encoded (text_eq_refl sing_box) file process in
        (replaced a.encoded want now refl, inl on)

    after_persist-Post :
        (wanted : Result Text) (a : Attempt) (old : Core) (x : Files × Option Error) (c : Core)
        → Known o a (served old)
        → o.start ≡ none
        → wanted ≡ ok a.encoded
        → c.process ≡ some a.encoded
        → x.0 (config_path o.settings) ≡ some a.encoded
        → Post wanted old (after_persist o a x c)
    unfolding after_persist
    after_persist-Post wanted a old (files, some e) c known begun want process file =
        fail-Post wanted a _ old _ known (inr (inl begun))
    after_persist-Post wanted a old (files, none) c known begun want process file =
        finish_activation-Post wanted a old _ want process file

    after_start-Post :
        (wanted : Result Text) (a : Attempt) (old : Core) (r : Option Error) (c : Core)
        → Known o a (served old)
        → o.start ≡ r
        → (c.process ≡ none) ⊎ IsLoose o
        → wanted ≡ ok a.encoded
        → c.files (config_path o.settings) ≡ some a.encoded
        → Post wanted old (after_start o a r c)
    unfolding after_start
    after_start-Post wanted a old (some e) c known begun from want file =
        fail-Post wanted a _ old c known from
    after_start-Post wanted a old none c known begun from want file =
        go (health_error (wait_for_sing_box_healthy o.health))
      where
        go : (h : Option Error) → Post wanted old (after_health o a h (start_process o c))
        go (some e) =
            unfold after_health in
            fail-Post wanted a e old (start_process o c) known (inr (inl begun))
        go none =
            unfold after_health start_process in
            after_persist-Post wanted a old _ (start_process o c) known begun want file (
              write_file_atomic_other o.persist (last_good_path o.settings) (config_path o.settings)
                a.encoded c.files apart
              ∙ file)

    stopped :
        (r : Option Error) (c : Core)
        → o.stop ≡ r
        → ((stop_process o r c).process ≡ none) ⊎ IsLoose o
    unfolding stop_process
    stopped none c h = inl refl
    stopped (some e) c h = inr (inr (e, h))

    after_restore-Post :
        (wanted : Result Text) (a : Attempt) (old : Core) (e : Error) (y : Files × Option Error)
        (c : Core)
        → Ctx a old c
        → (y.1 ≡ none → y.0 (config_path o.settings) ≡ a.previous)
        → Post wanted old (after_restore o a e y c)
    unfolding after_restore report new_sing_box_apply_result
    after_restore-Post wanted a old e (files, some f) c x back =
        (untouched _ (unfold served in x.serves) x.process refl, inr (_, refl, refl))
    after_restore-Post wanted a old e (files, none) c x back =
        refused wanted a old _ _ (Ctx-with a old c _ _ x) (back refl)

    after_sync-Post :
        (wanted : Result Text) (a : Attempt) (old : Core) (r : Option Error) (c : Core)
        → Ctx a old c
        → wanted ≡ ok a.encoded
        → c.files (config_path o.settings) ≡ some a.encoded
        → Post wanted old (after_sync o a r c)
    unfolding after_sync
    after_sync-Post wanted a old none c x want file =
        after_start-Post wanted a old o.start (stop_process o o.stop c) x.known refl
          (stopped o.stop c refl) want
          (ap (λ (f : Files). f (config_path o.settings)) (files-stopped o.stop c) ∙ file)
    after_sync-Post wanted a old (some e) c x want file =
        after_restore-Post wanted a old e _ c x
          (restore_optional_file_done o.restore (config_path o.settings) a.previous c.files)

    after_rename-Post :
        (wanted : Result Text) (a : Attempt) (old : Core) (r : Option Error) (c : Core)
        → Ctx a old c
        → wanted ≡ ok a.encoded
        → c.files (config_path o.settings) ≡ a.previous
        → Post wanted old (after_rename o a r c)
    unfolding after_rename report
    after_rename-Post wanted a old (some e) c x want file =
        refused wanted a old _ _ (Ctx-with a old c _ _ x) file
    after_rename-Post wanted a old none c x want file =
        after_sync-Post wanted a old o.sync_directory _ (Ctx-with a old c _ _ x) want
          (unfold put_file in simp (text_eq_refl (config_path o.settings)) refl)

    after_mode-Post :
        (wanted : Result Text) (a : Attempt) (old : Core) (r : Option Error) (c : Core)
        → Ctx a old c
        → wanted ≡ ok a.encoded
        → c.files (config_path o.settings) ≡ a.previous
        → Post wanted old (after_mode o a r c)
    unfolding after_mode report
    after_mode-Post wanted a old (some e) c x want file =
        refused wanted a old _ _ (Ctx-with a old c _ _ x) file
    after_mode-Post wanted a old none c x want file =
        after_rename-Post wanted a old o.rename c x want file

    after_save-Post :
        (wanted : Result Text) (a : Attempt) (old : Core) (y : Files × Option Error) (c : Core)
        → Ctx a old c
        → wanted ≡ ok a.encoded
        → y.0 (config_path o.settings) ≡ a.previous
        → Post wanted old (after_save o a y c)
    unfolding after_save report
    after_save-Post wanted a old (files, some e) c x want file =
        refused wanted a old _ _ (Ctx-with a old c _ _ x) file
    after_save-Post wanted a old (files, none) c x want file =
        after_mode-Post wanted a old o.change_mode _ (Ctx-with a old c _ _ x) want file

    save_current-Post :
        (wanted : Result Text) (a : Attempt) (old : Core) (p : Option Text) (c : Core)
        → Ctx a old c
        → wanted ≡ ok a.encoded
        → c.files (config_path o.settings) ≡ a.previous
        → Post wanted old (save_current o a p c)
    unfolding save_current
    save_current-Post wanted a old none c x want file =
        after_mode-Post wanted a old o.change_mode c x want file
    save_current-Post wanted a old (some content) c x want file =
        elim (Bool-cases (was_sing_box o a)) [
          | inl on ↦ simp on (
              after_save-Post wanted a old _ c x want (
                write_file_atomic_other o.save_last_good (last_good_path o.settings)
                  (config_path o.settings) content c.files apart
                ∙ file))
          | inr off ↦ simp off (after_mode-Post wanted a old o.change_mode c x want file)
        ]

    pub after_preflight-Post :
        (wanted : Result Text) (a : Attempt) (old : Core) (r : Option Error) (c : Core)
        → Ctx a old c
        → wanted ≡ ok a.encoded
        → c.files (config_path o.settings) ≡ a.previous
        → Post wanted old (after_preflight o a r c)
    unfolding after_preflight report
    after_preflight-Post wanted a old none c x want file =
        save_current-Post wanted a old a.previous c x want file
    after_preflight-Post wanted a old (some e) c x want file =
        elim (Bool-cases (was_sing_box o a && is_some a.previous)) [
          | inl on ↦ simp on (
              refused wanted a old _ _
                (Ctx-with a old _ _ _ (Ctx-with_config a old a.previous_runtime c x))
                (unfold with_config in file))
          | inr off ↦ simp off (refused wanted a old _ _ (Ctx-with a old c _ _ x) file)
        ]
