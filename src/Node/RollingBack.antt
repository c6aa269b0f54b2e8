-- ===== src/Node/RollingBack.antt =====
-- What the rollback of an activation leaves: the core that ran before, or none.
use remnawave_node_go.Base.{
  ◌≡◌, refl, sym, ap, ◌∙◌, subst, true, false, Option, none, some, [], Text, text_eq, Error,
  Bool-cases, inl, inr, ◌⊎◌,
}
use remnawave_node_go.Runtime.Core.{sing_box, set_online_status}
use remnawave_node_go.Node.Files.{Files}
use remnawave_node_go.Node.Activation.{
  Core, Outside, Attempt, config_path, last_good_path, refresh_online_status, start_process,
  was_sing_box, with_core, with_config, after_start_again, restart_previous, stop_process,
  save_previous, restore_files, rollback_sing_box,
}
use remnawave_node_go.Node.Served.{served, IsLoose, IsUnstopped, IsClean, IsServed}
use remnawave_node_go.Node.Restoring.{
  write_file_atomic_other, running-set_running_core, restore_optional_file_done,
}

blank_core : text_eq [] sing_box ≡ false
unfolding text_eq
blank_core = refl

module _ (o : Outside) where
  -- What the attempt knows of what was served: nothing, as no core ran, or the text of the file.
  pub data Known (a : Attempt) (old : Option Text) : Type 0 where
    idle : text_eq a.previous_core sing_box ≡ false → old ≡ none → Known a old
    running_on :
        (t : Text)
        → text_eq a.previous_core sing_box ≡ true
        → a.previous ≡ some t
        → old ≡ some t
        → Known a old

  -- A rollback without an error leaves what was served before; one with an error, no core.
  abbrev pub Back : Option Text → Core × Option Error → Type 0
  Back old (c, none) = (served c ≡ old) × IsServed o c × IsClean o c
  Back old (c, some e) = (text_eq c.runtime.running sing_box ≡ false) × IsClean o c

  -- No process runs, or it could not be stopped.
  abbrev Halted : Core → Type 0
  Halted c = (c.process ≡ none) ⊎ IsUnstopped o

  Halted-stop_process :
      (r : Option Error) (c : Core)
      → o.stop_again ≡ r
      → (c.process ≡ none) ⊎ IsLoose o
      → Halted (stop_process o r c)
  unfolding stop_process
  Halted-stop_process none c h from = inl refl
  Halted-stop_process (some e) c h (inl bare) = inl bare
  Halted-stop_process (some e) c h (inr loose) = inr ((e, h), loose)

  running-with_core : (core : Text) (c : Core) → (with_core o core c).runtime.running ≡ core
  unfolding with_core refresh_online_status set_online_status
  running-with_core core c = running-set_running_core core c.runtime

  not_running :
      (core : Text) (c : Core)
      → text_eq core sing_box ≡ false
      → text_eq (with_core o core c).runtime.running sing_box ≡ false
  not_running core c other =
      ap (λ (x : Text). text_eq x sing_box) (running-with_core core c) ∙ other

  pub served-idle : (c : Core) → text_eq c.runtime.running sing_box ≡ false → served c ≡ none
  unfolding served
  served-idle c off = simp off refl

  pub served-running : (c : Core) → text_eq c.runtime.running sing_box ≡ true → served c ≡ c.process
  unfolding served
  served-running c on = simp on refl

  IsClean-Halted : (c : Core) → text_eq c.runtime.running sing_box ≡ false → Halted c → IsClean o c
  IsClean-Halted c off (inl stopped) = inl (stopped ∙ sym (served-idle c off))
  IsClean-Halted c off (inr left) = inr left

  -- With a core of another name, or of none, nothing is served.
  with_core-IsClean :
      (core : Text) (c : Core)
      → text_eq core sing_box ≡ false
      → Halted c
      → (text_eq (with_core o core c).runtime.running sing_box ≡ false)
        × IsClean o (with_core o core c)
  with_core-IsClean core c other halted = (
    not_running core c other,
    IsClean-Halted (with_core o core c) (not_running core c other) (unfold with_core in halted),
  )

  -- A core that is said to run, on a process with the text that its file has.
  pub with_core-serves :
      (c : Core) (core t : Text)
      → text_eq core sing_box ≡ true
      → c.files (config_path o.settings) ≡ some t
      → c.process ≡ some t
      → (served (with_core o core c) ≡ some t)
        × IsServed o (with_core o core c)
        × IsClean o (with_core o core c)
  with_core-serves c core t on file process =
      let runs : text_eq (with_core o core c).runtime.running sing_box ≡ true =
        ap (λ (x : Text). text_eq x sing_box) (running-with_core core c) ∙ on in
      (
        served-running (with_core o core c) runs ∙ unfold with_core in process,
        inr (t, unfold with_core in file, unfold with_core in process),
        inl (sym (served-running (with_core o core c) runs)),
      )

  after_start_again-Back :
      (a : Attempt) (t : Text) (r : Option Error) (c : Core)
      → text_eq a.previous_core sing_box ≡ true
      → c.files (config_path o.settings) ≡ some t
      → Halted c
      → Back (some t) (after_start_again o a r c)
  unfolding after_start_again start_process
  after_start_again-Back a t none c on file halted =
      with_core-serves (start_process o c) a.previous_core t on file file
  after_start_again-Back a t (some e) c on file halted = with_core-IsClean [] c blank_core halted

  restart_previous-Back :
      (a : Attempt) (old : Option Text) (x : Files × Option Error) (c : Core)
      → Known a old
      → ((t : Text)
          → text_eq a.previous_core sing_box ≡ true
          → a.previous ≡ some t
          → x.1 ≡ none
          → x.0 (config_path o.settings) ≡ some t)
      → Halted c
      → Back old (restart_previous o a x c)
  unfolding restart_previous
  restart_previous-Back a old (files, some e) c known back halted =
      with_core-IsClean [] _ blank_core halted
  restart_previous-Back a old (files, none) c (idle off nothing) back halted =
      let (out, clean) =
        with_core-IsClean a.previous_core (record c { files = files }) off halted in
      simp off (served-idle _ out ∙ sym nothing, inl out, clean)
  restart_previous-Back a old (files, none) c (running_on t on previous was) back halted = simp on (
      subst
        (λ (w : Option Text). Back w (
          after_start_again o a o.start_again
            (with_config o a.previous_runtime (record c { files = files }))))
        (sym was)
        (after_start_again-Back a t o.start_again _ on
          (unfold with_config in back t on previous refl) (unfold with_config in halted)))

  module _ (apart : text_eq (last_good_path o.settings) (config_path o.settings) ≡ false) where
    save_previous_keeps :
        (a : Attempt) (content : Text) (x : Files × Option Error)
        → (x.1 ≡ none → x.0 (config_path o.settings) ≡ some content)
        → (save_previous o a content x).1 ≡ none
        → (save_previous o a content x).0 (config_path o.settings) ≡ some content
    unfolding save_previous
    save_previous_keeps a content (files, some e) file h = cc
    save_previous_keeps a content (files, none) file h = elim (Bool-cases (was_sing_box o a)) [
      | inl on ↦ simp on (
          write_file_atomic_other o.save_again (last_good_path o.settings) (config_path o.settings)
            content files apart
          ∙ file refl)
      | inr off ↦ simp off (file refl)
    ]

    restore_files_done :
        (a : Attempt) (p : Option Text) (files : Files) (t : Text)
        → p ≡ some t
        → (restore_files o a p files).1 ≡ none
        → (restore_files o a p files).0 (config_path o.settings) ≡ some t
    unfolding restore_files
    restore_files_done a none files t e h = cc
    restore_files_done a (some content) files t e h =
        save_previous_keeps a content _
          (restore_optional_file_done o.restore_again (config_path o.settings) (some content) files)
          h
        ∙ e

    pub rollback_sing_box-Back :
        (a : Attempt) (old : Option Text) (c : Core)
        → Known a old
        → (c.process ≡ none) ⊎ IsLoose o
        → Back old (rollback_sing_box o a c)
    unfolding rollback_sing_box
    rollback_sing_box-Back a old c known from =
        restart_previous-Back a old _ _ known
          (λ t on previous done. restore_files_done a a.previous _ t previous done)
          (Halted-stop_process o.stop_again c refl from)
