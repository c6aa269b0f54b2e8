-- ===== src/Runtime/Tests.antt =====
-- The theorems on the runtime at concrete calls.
use remnawave_node_go.Base.{
  ◌≡◌, refl, false, ◌&&◌, [], ◌∷◌, All, codes, text_eq, is_empty, length, ◌==◌, if◌then◌else◌,
}
use remnawave_node_go.Base.Strings.{to_lower}
use remnawave_node_go.Base.Json.{
  Fields, string, array, object, item, no_items, field, no_fields, field_of, as_string, objects_of,
  as_object_slice, first_non_empty,
}
use remnawave_node_go.Statname.{
  user_id, parse_user_inbound, parse_parts, cut, cut_here, strip_prefix,
}
use remnawave_node_go.Runtime.Types.{StartHashes, Runtime, value_at, set}
use remnawave_node_go.Runtime.Inbounds.{
  normalize_sing_box_type, add_user, index_users, index_inbounds, extract_sing_box_inbounds,
  reindex,
}
use remnawave_node_go.Runtime.Addresses.{
  without_ip, insert_seen, sort_seen, seen_again, record_user_ip, user_ips_of,
}
use remnawave_node_go.Runtime.Core.{
  sing_box, new_runtime, set_sing_box_config, set_running_core, set_last_hashes, last_of_tag,
  same_inbound, all_known, should_restart, inbound_users_of,
}
use remnawave_node_go.Runtime.Seen.{count_seen, Latest, record_user_ip_lem}
use remnawave_node_go.Runtime.History.{
  sets_sing_box_config, sets_running_core, step, run, run-IsIndexed,
}
use remnawave_node_go.Runtime.Restart.{Among, should_restart-false, should_restart-set_last_hashes}

abbrev user : Fields
user = field (codes "name") (string (codes "u1")) no_fields

abbrev inbound : Fields
inbound = field (codes "tag") (string (codes "in")) (
    field (codes "type") (string (codes "hy2"))
      (field (codes "users") (array (item (object user) no_items)) no_fields))

abbrev config : Fields
config = field (codes "inbounds") (array (item (object inbound) no_items)) no_fields

abbrev runtime : Runtime
runtime =
    run (sets_running_core sing_box ∷ sets_sing_box_config config ∷ []) (new_runtime (codes "1"))

run_all : Unit {0}
unfolding run step set_running_core set_sing_box_config new_runtime reindex
    extract_sing_box_inbounds index_inbounds index_users add_user value_at set
    normalize_sing_box_type to_lower text_eq is_empty field_of as_string objects_of as_object_slice
    first_non_empty user_id parse_user_inbound parse_parts cut cut_here strip_prefix
    inbound_users_of without_ip insert_seen sort_seen seen_again record_user_ip user_ips_of
    last_of_tag same_inbound all_known should_restart set_last_hashes
run_all = tt

users :
    inbound_users_of (codes "in") runtime
    ≡ record { user_id = codes "u1"; protocol = codes "hysteria2"; tag = codes "in" } ∷ []
unfolding run_all
users = refl

run-IsIndexed_example : (runtime.inbound_users, runtime.inbound_kinds) ≡ (
    if text_eq runtime.running sing_box
    then extract_sing_box_inbounds runtime.sing_box_config [] []
    else ([], []))
run-IsIndexed_example =
    run-IsIndexed (codes "1") (sets_running_core sing_box ∷ sets_sing_box_config config ∷ [])

abbrev seen : Runtime
seen = record_user_ip (codes "u1") (codes "a") 5 (record_user_ip (codes "u1") (codes "b") 7 runtime)

-- Seen again at 9, the address comes first.
again :
    user_ips_of (codes "u1") (record_user_ip (codes "u1") (codes "a") 9 seen)
    ≡ record { ip = codes "a"; last_seen = 9 } ∷ record { ip = codes "b"; last_seen = 7 } ∷ []
unfolding run_all
again = refl

record_user_ip_lem_example :
    Latest (user_ips_of (codes "u1") (record_user_ip (codes "u1") (codes "a") 9 seen))
    × (count_seen
          (codes "b")
          7
          (user_ips_of (codes "u1") (record_user_ip (codes "u1") (codes "a") 9 seen))
        ≡ (if text_eq (codes "u1") (codes "u1") && text_eq (codes "a") (codes "b")
            then (if 9 == 7 then 1 else 0)
            else count_seen (codes "b") 7 (user_ips_of (codes "u1") seen)))
record_user_ip_lem_example =
    record_user_ip_lem (codes "u1") (codes "a") 9 seen (codes "u1") (codes "b") 7

abbrev hashes : StartHashes
hashes = record {
  empty_config = codes "e";
  inbounds = record { tag = codes "in"; hash = codes "h"; users_count = 2 } ∷ [];
}

kept : should_restart hashes (set_last_hashes hashes runtime) ≡ false
unfolding run_all
kept = refl

should_restart-false_example :
    (false ≡ false)
    × (hashes.empty_config ≡ hashes.empty_config)
    × (length hashes.inbounds ≡ length hashes.inbounds)
    × All (λ h. Among h hashes.inbounds) hashes.inbounds
unfolding set_last_hashes
should_restart-false_example = should_restart-false hashes (set_last_hashes hashes runtime) kept

should_restart-set_last_hashes_example :
    should_restart hashes (set_last_hashes hashes runtime) ≡ false
should_restart-set_last_hashes_example =
    should_restart-set_last_hashes hashes runtime (unfold is_empty in refl)
      (unfold last_of_tag in (refl, tt))
