-- ===== src/Node/Served.antt =====
-- What the node serves, and what an activation may make of it.
use remnawave_node_go.Base.{
  ◌≡◌, false, Option, none, some, Text, text_eq, Error, Result, ok, if◌then◌else◌, ◌⊎◌,
}
use remnawave_node_go.Runtime.Core.{sing_box}
use remnawave_node_go.Node.Activation.{Core, Outside, config_path}

-- The configuration that the node runs: the process's, where the core is said to run.
unfoldable pub served : Core → Option Text
served c = if text_eq c.runtime.running sing_box then c.process else none

-- The process left was not stopped: the rollback's stop returned an error, and the core was started
-- before it or its stop returned an error too.
abbrev pub IsLoose : Outside → Type 0
IsLoose o = (o.start ≡ none) ⊎ ((e : Error) × (o.stop ≡ some e))

abbrev pub IsUnstopped : Outside → Type 0
IsUnstopped o = ((e : Error) × (o.stop_again ≡ some e)) × IsLoose o

-- The supervised process is the one that is served, and none runs where nothing is, unless it could
-- not be stopped.
abbrev pub IsClean : Outside → Core → Type 0
IsClean o c = (c.process ≡ served c) ⊎ IsUnstopped o

-- From a core to the next, at an answer: it serves the wanted configuration without an error; or with
-- an error it serves the one before, with its process as it was or started again, or nothing.
pub data Replaces (o : Outside) (wanted : Result Text) (old new : Core) (out : Option Error)
    : Type 0 where
  replaced :
      (t : Text) → wanted ≡ ok t → served new ≡ some t → out ≡ none → Replaces o wanted old new out
  untouched :
      (e : Error)
      → served new ≡ served old
      → new.process ≡ old.process
      → out ≡ some e
      → Replaces o wanted old new out
  resumed :
      (e : Error)
      → served new ≡ served old
      → IsClean o new
      → out ≡ some e
      → Replaces o wanted old new out
  lost :
      (e : Error) → served new ≡ none → IsClean o new → out ≡ some e → Replaces o wanted old new out

-- Where the core is said to run, its process was start_process with the file that is there.
abbrev pub IsServed : Outside → Core → Type 0
IsServed o c =
    (text_eq c.runtime.running sing_box ≡ false)
    ⊎ ((t : Text) × (c.files (config_path o.settings) ≡ some t) × (c.process ≡ some t))
