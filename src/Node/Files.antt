-- ===== src/Node/Files.antt =====
-- The files of a configuration and how manager.go writes them. A file system maps paths to texts;
-- temporary files, which each operation makes and removes again, are left out of it.
use remnawave_node_go.Base.{
  Option, none, some, List, [], ◌∷◌, Text, text_eq, Error, Result, ok, err, if◌then◌else◌,
}
use remnawave_node_go.Base.Hex.{hex}

abbrev pub Files : Type 0
Files = Text → Option Text

unfoldable pub put_file : Text → Option Text → Files → Files
put_file path content files p = if text_eq path p then content else files p

-- The first step that fails.
unfoldable pub first_error : List (Option Error) → Option Error
first_error [] = none
first_error (some e ∷ steps) = some e
first_error (none ∷ steps) = first_error steps

-- What the steps of writeCandidateFile return.
pub record CandidateCalls : Type 0 where
  pub create : Option Error
  pub chmod : Option Error
  pub write_data : Option Error
  pub sync : Option Error
  pub close : Option Error

-- writeCandidateFile: the temporary file stands where no step fails.
unfoldable pub write_candidate_file : CandidateCalls → Option Error
write_candidate_file c = first_error (c.create ∷ c.chmod ∷ c.write_data ∷ c.sync ∷ c.close ∷ [])

-- What the steps of writeFileAtomic return.
pub record WriteCalls : Type 0 where
  pub make_directory : Option Error
  pub candidate : CandidateCalls
  pub change_mode : Option Error
  pub rename : Option Error
  pub sync_directory : Option Error

unfoldable pub renamed : Option Error → Text → Text → Option Error → Files → Files × Option Error
renamed (some e) path content synced files = (files, some e)
renamed none path content synced files = (put_file path (some content) files, synced)

-- writeFileAtomic: the file is there once it is renamed, also where the directory's sync fails.
unfoldable pub write_file_atomic : WriteCalls → Text → Text → Files → Files × Option Error
write_file_atomic w path content files =
    renamed
      (first_error
        (w.make_directory ∷ write_candidate_file w.candidate ∷ w.change_mode ∷ w.rename ∷ []))
      path content w.sync_directory files

-- readOptionalFile; `failed` is an error other than a missing file.
unfoldable pub read_optional_file : Option Error → Text → Files → Result (Option Text)
read_optional_file (some e) path files = err e
read_optional_file none path files = ok (files path)

-- What the steps of restoreOptionalFile return; a missing file is no error of `remove`.
pub record RestoreCalls : Type 0 where
  pub writing : WriteCalls
  pub remove : Option Error
  pub sync_directory : Option Error

unfoldable pub unlinked : Option Error → Text → Option Error → Files → Files × Option Error
unlinked (some e) path synced files = (files, some e)
unlinked none path synced files = (put_file path none files, synced)

-- restoreOptionalFile
unfoldable pub restore_optional_file :
    RestoreCalls → Text → Option Text → Files → Files × Option Error
restore_optional_file r path (some content) files = write_file_atomic r.writing path content files
restore_optional_file r path none files = unlinked r.remove path r.sync_directory files

-- hashConfigBytes; `canonical` is the JSON of the decoded text, none where it is not JSON.
unfoldable pub hash_config_bytes : (Text → Option Text) → (Text → Text) → Text → Text
hash_config_bytes canonical sha256 t = elim (canonical t) [
  | none ↦ hex (sha256 t)
  | some c ↦ hex (sha256 c)
]
