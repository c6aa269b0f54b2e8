-- ===== src/Node/Tests.antt =====
-- The theorems on the manager at concrete calls.
use remnawave_node_go.Base.{
  ℕ, zero, suc, String, ◌%◌, ◌^◌, ◌≡◌, ◌⊎◌, inr, refl, Bool, true, false, Option, none, some, List,
  [], ◌∷◌, arith, All, Text, codes, text_eq, text_lt, is_empty, leb, if◌then◌else◌, Error, message,
  Result, ok,
}
use remnawave_node_go.Base.Base64.{decode_base64}
use remnawave_node_go.Base.Json.{
  Fields, string, array, object, item, no_items, field, no_fields, field_of, as_string,
}
use remnawave_node_go.Statname.{
  user_id, parse_user_inbound, parse_parts, parse_tag, cut, cut_here, strip_prefix,
}
use remnawave_node_go.Base.BigEndian.{big_endian, of_big_endian, put_uint64, read_uint64}
use remnawave_node_go.Bolt.{lookup, insert, erase, update}
use remnawave_node_go.Bolt.Memory.{memory, refuses}
use remnawave_node_go.UsageSnapshot.Types.{Store, counter_key}
use remnawave_node_go.UsageSnapshot.Capture.{
  counter_delta, add_delta, put_checked, get_text, capture_counters,
}
use remnawave_node_go.UsageSnapshot.Store.{
  append_snapshot, record_deltas, capture_tx, capture, total_bytes,
}
use remnawave_node_go.UsageSnapshot.Queue.{active}
use remnawave_node_go.UsageSnapshot.Sample.{sample, snapshot_text, write_counters, write_counter}
use remnawave_node_go.Runtime.Types.{Runtime}
use remnawave_node_go.Runtime.Inbounds.{reindex}
use remnawave_node_go.Runtime.Core.{sing_box, new_runtime, inbound_users_of}
use remnawave_node_go.Node.Stats.{
  Stat, uplink, direction_of, last_here, cut_last, named_direction, parse_remainder, parse_prefixed,
  parse_stat, add_traffic, has_traffic, update_item, count_stat, group_stats, insert_item,
  sort_items, user_label, user_key, user_before, group_tags, group_users, fetch_grouped_stats,
  fetch_user_inbound_stats, get_tag_stats, get_users_stats, find_tag_stats,
}
use remnawave_node_go.Node.Totals.{side, reported}
use remnawave_node_go.Node.Grouped.{Ascending}
use remnawave_node_go.Node.Carried.{carried}
use remnawave_node_go.Node.Traffic.{get_tag_stats-carried}
use remnawave_node_go.Node.UserTraffic.{get_users_stats-reported}
use remnawave_node_go.Node.Usage.{
  user_counters, tag_counters, current_core_usage_counters, forwarding_counters, stats_client,
  with_core_counters, sample_core, Around, sample_forwarding, current_usage_counters, is_not_active,
  Usage, after_capture, capture_sample, capture_active, capture_usage_snapshot,
}
use remnawave_node_go.Node.Marker.{
  Consumed, answers_not_active, disowned_sample, disowned_at, capture_usage_snapshot_fails,
  capture_usage_snapshot_keeps_restart,
}
use remnawave_node_go.Node.Health.{
  Poll, Health, verdict, info_verdict, stats_verdict, or_default, wait_loop,
  wait_for_sing_box_healthy,
}
use remnawave_node_go.Node.Waiting.{Timely, Ended, wait_for_sing_box_healthy-Ended}
use remnawave_node_go.Node.ApiConfig.{Settings}
use remnawave_node_go.Node.Files.{WriteCalls, RestoreCalls}
use remnawave_node_go.Node.Activation.{Core, Outside, prepared_config}
use remnawave_node_go.Node.Restart.{restart_sing_box}
use remnawave_node_go.Node.Served.{Replaces, IsServed}
use remnawave_node_go.Node.Refines.{SaysRollbackFailed}
use remnawave_node_go.Node.Activating.{restart_sing_box-Replaces}
use remnawave_node_go.Node.Users.{remove_user_everywhere}
use remnawave_node_go.Node.Removal.{count_user, remove_user_everywhere-count}

-- Names all that a capture computes with, for the `unfolding` lines below.
everything : Unit {0}
unfolding text_eq text_lt is_empty capture_usage_snapshot capture_active capture_sample
    after_capture active disowned_at disowned_sample answers_not_active is_not_active
    current_usage_counters sample_forwarding sample_core stats_client with_core_counters
    current_core_usage_counters fetch_user_inbound_stats fetch_grouped_stats group_tags group_users
    group_stats count_stat update_item add_traffic insert_item sort_items user_key user_label
    user_before parse_stat parse_prefixed parse_remainder named_direction direction_of cut_last
    last_here strip_prefix parse_user_inbound parse_parts parse_tag cut cut_here decode_base64
    user_counters tag_counters forwarding_counters capture update capture_tx capture_counters
    get_text put_checked lookup insert erase refuses counter_delta add_delta record_deltas
    append_snapshot snapshot_text write_counters write_counter total_bytes counter_key big_endian
    put_uint64 read_uint64 of_big_endian
everything = tt

abbrev stats : List Stat
stats =
    record { name = codes "inbound>>>in>>>traffic>>>uplink"; value = 5 }
    ∷ record { name = codes "inbound>>>other>>>traffic>>>uplink"; value = 7 }
    ∷ record { name = codes "inbound>>>in>>>traffic>>>uplink"; value = 11 }
    ∷ []

abbrev query : Text → Bool → Result (List Stat)
query pattern reset = ok stats

-- The inbound's 5 and 11.
get_tag_stats-carried_example :
    side uplink (get_tag_stats (some query) (codes "inbound") (codes "in") false).1 % 2 ^ 64
    ≡ carried (codes "inbound>>>") (codes "in") uplink stats % 2 ^ 64
get_tag_stats-carried_example =
    get_tag_stats-carried query (codes "inbound") (codes "in") false uplink stats refl

sums : carried (codes "inbound>>>") (codes "in") uplink stats ≡ 16
unfolding carried text_eq is_empty
sums = refl

abbrev user_stats : List Stat
user_stats =
    record { name = codes "user>>>u1.rwib.aW4>>>traffic>>>uplink"; value = 5 }
    ∷ record { name = codes "user>>>u1>>>traffic>>>uplink"; value = 2 }
    ∷ record { name = codes "user>>>u2>>>traffic>>>uplink"; value = 9 }
    ∷ []

abbrev user_query : Text → Bool → Result (List Stat)
user_query pattern reset = ok user_stats

get_users_stats-reported_example :
    Ascending (get_users_stats (some user_query) true)
    × All (λ x. has_traffic x.1 ≡ true) (get_users_stats (some user_query) true)
    × (side uplink (find_tag_stats (get_users_stats (some user_query) true) (codes "u1")).1 % 2 ^ 64
        ≡ reported (λ raw. text_eq (user_id raw) (codes "u1")) uplink (codes "user>>>") user_stats
          % 2 ^ 64)
unfolding parse_stat parse_prefixed parse_remainder named_direction direction_of cut_last last_here
    strip_prefix text_eq is_empty user_id parse_user_inbound parse_parts parse_tag cut cut_here
    decode_base64
get_users_stats-reported_example =
    get_users_stats-reported user_query true (codes "u1") uplink user_stats refl
      ((refl, (refl, tt)), ((refl, (refl, tt)), ((refl, (refl, tt)), tt)))

-- A store that is active, and a core with a user's traffic after a restart.
abbrev store : Store memory
store = record {
  db = record { meta = (codes "active", codes "1") ∷ []; baseline = []; snapshots = [] };
  max_bytes = 1048576;
}

abbrev around : Around
around = record { running = sing_box; client = some user_query; forwarding = none; now = 5 }

abbrev usage : Usage memory
usage = record { snapshots = some store; restarted = true }

capture_usage_snapshot_keeps_restart_example :
    ((capture_usage_snapshot sample around none usage).0.restarted ≡ true)
    ⊎ Consumed sample around none usage (capture_usage_snapshot sample around none usage).0
unfolding everything
capture_usage_snapshot_keeps_restart_example =
    capture_usage_snapshot_keeps_restart sample around none usage refl refl

-- The commit fails.
capture_usage_snapshot_fails_example :
    (capture_usage_snapshot sample around (some (message "disk full")) usage).0 ≡ usage
unfolding everything
capture_usage_snapshot_fails_example =
    capture_usage_snapshot_fails sample around (some (message "disk full")) usage refl

-- The process starts, and its statistics answer at the third poll.
abbrev poll_at : ℕ → Poll
poll_at zero = record { info = ok 10; stats = none }
poll_at (suc zero) = record { info = ok 20; stats = some (message "refused") }
poll_at (suc (suc k)) = record { info = ok 20; stats = none }

abbrev health : Health
health = record {
  client = true;
  polls = poll_at;
  expired = λ k. leb 4 k;
  timeout = 4;
  interval = 1;
}

health-Timely : Timely health
unfolding or_default
health-Timely k h = ground (arith, h)

wait_for_sing_box_healthy-Ended_example :
    (n : ℕ) × (r : Option Error) × (wait_for_sing_box_healthy health ≡ some r) × Ended health n r
wait_for_sing_box_healthy-Ended_example = wait_for_sing_box_healthy-Ended health health-Timely

third_poll : wait_for_sing_box_healthy health ≡ some none
unfolding wait_for_sing_box_healthy wait_loop verdict info_verdict stats_verdict or_default
third_poll = refl

abbrev done_write : WriteCalls
done_write = record {
  make_directory = none;
  candidate = record { create = none; chmod = none; write_data = none; sync = none; close = none };
  change_mode = none;
  rename = none;
  sync_directory = none;
}

abbrev done_restore : RestoreCalls
done_restore = record { writing = done_write; remove = none; sync_directory = none }

abbrev settings : Settings
settings = record {
  sing_box_api_port = 0;
  sing_box_v2ray_api_port = 0;
  sing_box_audit_api_port = 0;
  internal_rest_token = [];
  secret_key = [];
  sing_box_config_path = codes "c";
  sing_box_last_good_path = codes "g";
  disable_hash_check = false;
}

-- Every call succeeds but the start.
abbrev start_fails : Outside
start_fails = record {
  settings = settings;
  sha256 = λ t. t;
  canonical = λ t. none;
  encode = λ fs. ok (as_string (field_of fs (codes "log")));
  decode = λ fs t. ok (field (codes "log") (string t) no_fields);
  make_directory = none;
  candidate = record { create = none; chmod = none; write_data = none; sync = none; close = none };
  read_current = none;
  check = none;
  save_last_good = done_write;
  change_mode = none;
  rename = none;
  sync_directory = none;
  restore = done_restore;
  stop = none;
  start = some (message "spawn error");
  health = health;
  persist = done_write;
  stop_again = none;
  restore_again = done_restore;
  read_last_good = none;
  write_last_good = done_write;
  save_again = done_write;
  start_again = none;
  process_state = ok 20;
  attempted_at = 1;
  finished_at = 2;
}

abbrev log_config : String → Fields
log_config t = field (codes "log") (string (codes t)) no_fields

abbrev core : Core
core = record {
  runtime = record (new_runtime (codes "1")) {
    running = sing_box;
    sing_box_config = log_config "old";
  };
  files = λ p. if text_eq p (codes "c") then some (codes "old") else none;
  process = some (codes "old");
  result = none;
}

core-IsServed : IsServed start_fails core
unfolding text_eq is_empty new_runtime
core-IsServed = inr (codes "old", refl, refl)

restart_sing_box-Replaces_example :
    Replaces start_fails
      (start_fails.encode (prepared_config start_fails (log_config "new")))
      core
      (restart_sing_box start_fails (log_config "new") core).0
      (restart_sing_box start_fails (log_config "new") core).1
    × (IsServed start_fails (restart_sing_box start_fails (log_config "new") core).0
        ⊎ SaysRollbackFailed (restart_sing_box start_fails (log_config "new") core).0)
unfolding text_eq is_empty
restart_sing_box-Replaces_example =
    restart_sing_box-Replaces start_fails refl (log_config "new") core core-IsServed

abbrev user : Text → Fields
user name = field (codes "name") (string name) no_fields

abbrev inbound : Fields
inbound = field (codes "tag") (string (codes "in")) (
    field (codes "type") (string (codes "vless")) (
      field (codes "users")
        (array (item (object (user (codes "u1"))) (item (object (user (codes "u2"))) no_items)))
        no_fields))

abbrev runtime : Runtime
runtime = record (new_runtime (codes "1")) {
  running = sing_box;
  sing_box_config = field (codes "inbounds") (array (item (object inbound) no_items)) no_fields;
}

remove_user_everywhere-count_example :
    count_user
      (codes "u2")
      (inbound_users_of (codes "in") (remove_user_everywhere (codes "u1") runtime).0)
    ≡ (if text_eq (codes "u1") (codes "u2")
        then 0
        else count_user
            (codes "u2")
            (inbound_users_of (codes "in") (reindex runtime.sing_box_config runtime)))
unfolding new_runtime text_eq
remove_user_everywhere-count_example =
    remove_user_everywhere-count (codes "u1") runtime (codes "u2") (codes "in") refl
