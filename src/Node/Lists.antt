-- ===== src/Node/Lists.antt =====
-- The lists of a plugin (manager.go): shared lists, references to them, and the lists of texts and
-- ports that they resolve to. How a decoded float64 is written as an int is a parameter.
use remnawave_node_go.Base.{
  ℕ, Bool, false, not, ◌&&◌, ◌||◌, Option, none, some, List, [], ◌∷◌, ◌++◌, Text, codes, text_eq,
  text_lt, is_empty, ltb, leb, ◌==◌, Error, message, check, Result, ◌>>◌, if◌then◌else◌,
}
use remnawave_node_go.Base.Strings.{trim_space}
use remnawave_node_go.Base.Json.{
  Json, boolean, number, string, array, Items, no_items, item, Fields, field_of, as_string,
  as_object_slice,
}
use remnawave_node_go.Runtime.Types.{value_at, set}
use remnawave_node_go.Forwarding.Service.{has_prefix}
use remnawave_node_go.Forwarding.Listeners.{atoi}
use remnawave_node_go.Node.ApiConfig.{ensure_map}

-- strconv.Itoa(int(value)) of a number, and that where the number is whole.
pub record Numbers : Type 0 where
  pub truncated : Text → Text
  pub whole : Text → Option Text

-- pluginSharedList
pub record SharedList : Type 0 where
  pub list_type : Text
  pub items : List Text

abbrev pub Shared : Type 0
Shared = List (Text × SharedList)

abbrev pub no_list : SharedList
no_list = record { list_type = []; items = [] }

unfoldable pub or_skip : Option Text → List Text → List Text
or_skip none ts = ts
or_skip (some t) ts = t ∷ ts

-- The loop over the items of a shared list.
unfoldable pub item_texts : Numbers → Items → List Text
item_texts n no_items = []
item_texts n (item (string t) is) = t ∷ item_texts n is
item_texts n (item (number t) is) = or_skip (n.whole t) (item_texts n is)
item_texts n (item v is) = item_texts n is

-- asAnySlice
unfoldable pub as_any_slice : Json → Items
as_any_slice (array is) = is
as_any_slice _ = no_items

-- The loop over the shared lists; a later one with a name replaces an earlier.
unfoldable pub read_lists : Numbers → List Fields → Shared → Shared
read_lists n [] out = out
read_lists n (l ∷ ls) out =
    let name = as_string (field_of l (codes "name")) in
    let list_type = as_string (field_of l (codes "type")) in
    let list : SharedList = record {
      list_type = list_type;
      items = item_texts n (as_any_slice (field_of l (codes "items")));
    } in
    let skip = read_lists n ls out in
    let next = read_lists n ls (set out name list) in
    if is_empty name || is_empty list_type then skip else next

-- readSharedLists
unfoldable pub read_shared_lists : Numbers → Fields → Shared
read_shared_lists n config =
    read_lists n (as_object_slice (field_of config (codes "sharedLists"))) []

abbrev pub ext_prefix : Text
ext_prefix = codes "ext:"

unfoldable pub find_list : Shared → Text → Option SharedList
find_list [] name = none
find_list ((k, l) ∷ ls) name = if text_eq k name then some l else find_list ls name

unfoldable pub check_list : Text → Option SharedList → Option Error
check_list expected none = some (message "shared list was not provided")
check_list expected (some l) =
    if text_eq l.list_type expected
    then none
    else some (message "shared list has another type than expected")

-- The loop over the values of a field.
unfoldable pub check_values : Shared → Text → Items → Option Error
check_values shared expected no_items = none
check_values shared expected (item (string t) is) =
    let rest = check_values shared expected is in
    if not (has_prefix ext_prefix t)
    then rest
    else elim (check_list expected (find_list shared t)) [ some e ↦ some e | none ↦ rest ]
check_values shared expected (item v is) = check_values shared expected is

abbrev pub entry_values : Fields → Text → Items
entry_values config k = as_any_slice (field_of config k)

-- ensureConfigMap
abbrev pub section_of : Fields → Text → Fields
section_of config k = ensure_map (field_of config k)

-- validateSharedListReferences
unfoldable pub validate_shared_list_references : Fields → Shared → Result (Unit {0})
validate_shared_list_references config shared =
    let ingress = section_of config (codes "ingressFilter") in
    let egress = section_of config (codes "egressFilter") in
    check (check_values shared (codes "ipList") (entry_values ingress (codes "blockedIps")))
    >> check (check_values shared (codes "ipList") (entry_values egress (codes "blockedIps")))
    >> check
        (check_values shared (codes "domainList") (entry_values egress (codes "blockedDomains")))
    >> check (check_values shared (codes "portList") (entry_values egress (codes "blockedPorts")))

-- boolValue
unfoldable pub bool_value : Json → Bool
bool_value (boolean b) = b
bool_value (string t) = text_eq t (codes "true")
bool_value _ = false

-- stringSlice
unfoldable pub string_slice : Items → List Text
string_slice no_items = []
string_slice (item (string t) is) = t ∷ string_slice is
string_slice (item v is) = string_slice is

-- resolveIPList
unfoldable pub resolve_ip_list : List Text → Shared → List Text
resolve_ip_list [] shared = []
resolve_ip_list (v ∷ vs) shared =
    let rest = resolve_ip_list vs shared in
    if has_prefix ext_prefix v then (value_at no_list shared v).items ++ rest else v ∷ rest

unfoldable pub holds : List Text → Text → Bool
holds [] t = false
holds (x ∷ xs) t = text_eq x t || holds xs t

-- The loop of uniqueStrings.
unfoldable pub distinct_texts : List Text → List Text → List Text
distinct_texts seen [] = []
distinct_texts seen (v ∷ vs) =
    let value = trim_space v in
    let skip = distinct_texts seen vs in
    let next = value ∷ distinct_texts (value ∷ seen) vs in
    if is_empty value || holds seen value then skip else next

unfoldable pub insert_text : Text → List Text → List Text
insert_text x [] = x ∷ []
insert_text x (y ∷ ys) = if text_lt y x then y ∷ insert_text x ys else x ∷ (y ∷ ys)

-- sort.Strings
unfoldable pub sort_texts : List Text → List Text
sort_texts [] = []
sort_texts (x ∷ xs) = insert_text x (sort_texts xs)

-- uniqueStrings
unfoldable pub unique_strings : List Text → List Text
unique_strings values = sort_texts (distinct_texts [] values)

-- resolveStringList
unfoldable pub resolve_string_list : List Text → Shared → List Text
resolve_string_list values shared = unique_strings (resolve_ip_list values shared)

-- A port that Atoi reads without an error: where it fails, it gives 0 or an end of the ints.
abbrev pub is_port : ℕ → Bool
is_port p = leb 1 p && leb p 65535

-- appendValue, for each text.
unfoldable pub append_ports : List Text → List ℕ → List ℕ
append_ports [] ports = ports
append_ports (t ∷ ts) ports =
    let rest = append_ports ts ports in if is_port (atoi t) then atoi t ∷ rest else rest

-- The ports of the items, in their order.
unfoldable pub item_ports : Numbers → Shared → Items → List ℕ
item_ports n shared no_items = []
item_ports n shared (item (number t) is) =
    append_ports (n.truncated t ∷ []) (item_ports n shared is)
item_ports n shared (item (string t) is) =
    append_ports (if has_prefix ext_prefix t then (value_at no_list shared t).items else t ∷ [])
      (item_ports n shared is)
item_ports n shared (item v is) = item_ports n shared is

unfoldable pub insert_port : ℕ → List ℕ → List ℕ
insert_port p [] = p ∷ []
insert_port p (q ∷ qs) = if ltb q p then q ∷ insert_port p qs else p ∷ (q ∷ qs)

-- sort.Ints
unfoldable pub sort_ports : List ℕ → List ℕ
sort_ports [] = []
sort_ports (p ∷ ps) = insert_port p (sort_ports ps)

-- The loop that drops repetitions, given the last port that it kept, 0 for none.
unfoldable pub drop_repeats : ℕ → List ℕ → List ℕ
drop_repeats last [] = []
drop_repeats last (p ∷ ps) =
    let skip = drop_repeats last ps in
    let next = p ∷ drop_repeats p ps in if p == last then skip else next

-- resolvePortList
unfoldable pub resolve_port_list : Numbers → Shared → Items → List ℕ
resolve_port_list n shared values = drop_repeats 0 (sort_ports (item_ports n shared values))
