-- ===== src/Node/Restoring.antt =====
-- What the files of an activation hold once they are written or restored, and which core is said to
-- run once it is set.
use remnawave_node_go.Base.{
  ◌≡◌, refl, false, Option, none, some, [], ◌∷◌, Text, text_eq, text_eq_refl, Error, Bool-cases,
  inl, inr,
}
use remnawave_node_go.Base.Json.{Fields}
use remnawave_node_go.Runtime.Types.{Runtime}
use remnawave_node_go.Runtime.Inbounds.{reindex}
use remnawave_node_go.Runtime.Core.{sing_box, set_sing_box_config, set_running_core}
use remnawave_node_go.Node.Files.{
  Files, put_file, first_error, WriteCalls, write_candidate_file, renamed, write_file_atomic,
  RestoreCalls, unlinked, restore_optional_file,
}

pub write_file_atomic_other :
    (w : WriteCalls) (path q content : Text) (files : Files)
    → text_eq path q ≡ false
    → (write_file_atomic w path content files).0 q ≡ files q
unfolding write_file_atomic renamed put_file
write_file_atomic_other w path q content files apart = go (
    first_error
      (w.make_directory ∷ write_candidate_file w.candidate ∷ w.change_mode ∷ w.rename ∷ []))
  where
    go : (x : Option Error) → (renamed x path content w.sync_directory files).0 q ≡ files q
    go (some e) = refl
    go none = rw apart refl

pub write_file_atomic_done :
    (w : WriteCalls) (path content : Text) (files : Files)
    → (write_file_atomic w path content files).1 ≡ none
    → (write_file_atomic w path content files).0 path ≡ some content
unfolding write_file_atomic renamed put_file
write_file_atomic_done w path content files = go (
    first_error
      (w.make_directory ∷ write_candidate_file w.candidate ∷ w.change_mode ∷ w.rename ∷ []))
  where
    go :
        (x : Option Error)
        → (renamed x path content w.sync_directory files).1 ≡ none
        → (renamed x path content w.sync_directory files).0 path ≡ some content
    go (some e) h = cc
    go none h = rw (text_eq_refl path) refl

pub running-set_running_core :
    (core : Text) (r : Runtime) → (set_running_core core r).running ≡ core
unfolding set_running_core
running-set_running_core core r = elim (Bool-cases (text_eq core sing_box)) [
  | inl same ↦ simp same (unfold reindex in refl)
  | inr other ↦ simp other refl
]

pub running-set_sing_box_config :
    (config : Fields) (r : Runtime) → (set_sing_box_config config r).running ≡ r.running
unfolding set_sing_box_config
running-set_sing_box_config config r = elim (Bool-cases (text_eq r.running sing_box)) [
  | inl same ↦ simp same (unfold reindex in refl)
  | inr other ↦ simp other refl
]

pub restore_optional_file_done :
    (r : RestoreCalls) (path : Text) (content : Option Text) (files : Files)
    → (restore_optional_file r path content files).1 ≡ none
    → (restore_optional_file r path content files).0 path ≡ content
unfolding restore_optional_file unlinked put_file
restore_optional_file_done r path (some content) files h =
    write_file_atomic_done r.writing path content files h
restore_optional_file_done r path none files h = go r.remove h
  where
    go :
        (x : Option Error)
        → (unlinked x path r.sync_directory files).1 ≡ none
        → (unlinked x path r.sync_directory files).0 path ≡ none
    go (some e) k = cc
    go none k = simp (text_eq_refl path) refl
