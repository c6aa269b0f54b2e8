-- ===== src/Base/Json.antt =====
-- Values of `any` as encoding/json decodes them, numbers by their text, and the casts that the code
-- makes.
use mathlib.Core.Bool.{Bool}
use mathlib.Core.List.{List, [], ◌∷◌}
use remnawave_node_go.Base.Tests.{if◌then◌else◌}
use remnawave_node_go.Base.Texts.{Text, text_eq, is_empty}

mutual
  pub data Json : Type 0 where
    null : Json
    boolean : Bool → Json
    number : Text → Json
    string : Text → Json
    array : Items → Json
    object : Fields → Json

  pub data Items : Type 0 where
    no_items : Items
    item : Json → Items → Items

  pub data Fields : Type 0 where
    no_fields : Fields
    field : Text → Json → Fields → Fields

-- m[k], nil where it is missing.
unfoldable pub field_of : Fields → Text → Json
field_of no_fields k = null
field_of (field j v fs) k = if text_eq j k then v else field_of fs k

-- asString
unfoldable pub as_string : Json → Text
as_string (string t) = t
as_string _ = []

unfoldable pub objects_of : Items → List Fields
objects_of no_items = []
objects_of (item (object fs) is) = fs ∷ objects_of is
objects_of (item _ is) = objects_of is

-- asObjectSlice
unfoldable pub as_object_slice : Json → List Fields
as_object_slice (array is) = objects_of is
as_object_slice _ = []

-- firstNonEmpty of two
unfoldable pub first_non_empty : Text → Text → Text
first_non_empty a b = if is_empty a then b else a
