-- ===== src/AccessAudit/CountTests.antt =====
-- The audit's calls on a file in memory.
use remnawave_node_go.Base.{
  ℕ, ◌+◌, ◌≡◌, refl, false, none, some, [], ◌∷◌, List, codes, text_eq, is_empty, ok,
}
use remnawave_node_go.Bolt.{insert, lookup, erase, update, nil}
use remnawave_node_go.Bolt.Memory.{memory, refuses}
use remnawave_node_go.AccessAudit.Policy.{Target, Config, minute}
use remnawave_node_go.AccessAudit.Store.{Formats, Store}
use remnawave_node_go.AccessAudit.Records.{
  Addressing, Connection, Event, DiskRecord, unix_epoch, new_record,
}
use remnawave_node_go.AccessAudit.Applying.{DiskFormats, number_at}
use remnawave_node_go.AccessAudit.Counted.{IsCounted}
use remnawave_node_go.AccessAudit.History.{
  AuditCall, configures, applies, acks, prunes, run_audit, run_audit-IsCounted,
}
use remnawave_node_go.Base.BigEndian.{read_uint64, big_endian, of_big_endian}
use remnawave_node_go.UsageSnapshot.Capture.{get_text, put_checked}
use remnawave_node_go.AccessAudit.History.{call_audit}
use remnawave_node_go.AccessAudit.Applying.{
  apply_audit, apply_connection, apply_events, apply_new, apply_selected, is_full, put_number,
  selected, store_record, store_traffic, write_record,
}
use remnawave_node_go.AccessAudit.Store.{
  configure, after_validate, accept, configure_tx, configured, conflicting, less_int64,
}
use remnawave_node_go.AccessAudit.Policy.{
  validate, bad_lease, bad_targets, bad_target, is_user_id, is_uuid, seen,
}
use remnawave_node_go.AccessAudit.Records.{
  clipped, closing, completed, destination, observed, plain_domain, shown, skips, unix_milli,
  with_closing, with_traffic,
}
use remnawave_node_go.Statname.{
  cut, cut_here, parse_parts, parse_tag, parse_user_inbound, strip_prefix, user_id,
}
use remnawave_node_go.Base.{text_lt}
use remnawave_node_go.AccessAudit.Sized.{value_bytes}

abbrev clock : ℕ
clock = unix_epoch + 1700000000000000000

abbrev audited : Target
audited = record {
  user_id = codes "42";
  window_id = codes "0a1b2c3d-0000-4000-8000-0123456789ab";
  enabled_at = clock;
  retention_days = 7;
}

abbrev audit_lease : Config
audit_lease = record { revision = 3; expires_at = clock + minute; targets = audited ∷ [] }

abbrev policy_formats : Formats
policy_formats = record { config_text = λ c. codes "policy"; targets_text = λ ts. codes "targets" }

abbrev plain : Addressing
plain = record {
  split_host_port = λ t. none;
  is_ip = λ t. false;
  without_controls = λ t. t;
  has_control_or_space = λ t. false;
}

abbrev connection : Connection
connection = record {
  user = codes "42";
  domain = codes "Example.org.";
  destination_address = codes "example.org";
  inbound = codes "in";
  network = codes "tcp";
  protocol = codes "tls";
  outbound_type = codes "direct";
  created_at = 1700000000000;
  closed_at = 0;
  upload = 10;
  download = 20;
}

abbrev opening : Event
opening = record {
  type = 0;
  id = codes "0a1b2c3d-0000-4000-8000-0123456789ff";
  connection = some connection;
  upload_delta = 0;
  download_delta = 0;
  closed_at = 0;
}

abbrev stored_record : DiskRecord
stored_record = new_record plain opening.id audited connection

abbrev disk : DiskFormats
disk = record {
  disk_text = λ d. ok (codes "record");
  read_disk = λ t. ok stored_record;
  read_config = λ t. ok audit_lease;
}

abbrev blank : Store memory
blank = record {
  db = record { meta = []; records = []; pending = []; index = [] };
  max_bytes = 33554432;
  config = record { revision = 0; expires_at = 0; targets = [] };
  failed = false;
  capturing = false;
}

abbrev audit_calls : List AuditCall
audit_calls = configures none audit_lease clock ∷ applies none (opening ∷ []) clock ∷ []

audited_counts :
    (number_at memory
        (codes "recordCount")
        (run_audit memory policy_formats disk plain audit_calls blank).db
      ≡ 1)
    × (number_at memory
          (codes "bytes")
          (run_audit memory policy_formats disk plain audit_calls blank).db
        ≡ 6)
unfolding number_at read_uint64 get_text run_audit call_audit apply_audit configure after_validate
    validate bad_lease bad_targets bad_target is_user_id is_uuid seen accept apply_connection
    apply_events apply_new apply_selected is_full put_number selected store_record store_traffic
    write_record clipped closing completed destination new_record observed plain_domain shown skips
    unix_milli with_closing with_traffic configure_tx configured conflicting less_int64 big_endian
    of_big_endian cut cut_here parse_parts parse_tag parse_user_inbound strip_prefix user_id
    put_checked insert lookup erase update refuses text_eq text_lt is_empty value_bytes
audited_counts = (refl, refl)

run_audit-IsCounted_example :
    IsCounted memory
      (run_audit memory policy_formats disk plain
        (configures none audit_lease clock
          ∷ applies none (opening ∷ []) clock
          ∷ acks none (codes "id") 1
          ∷ prunes none (clock + 172800000000000)
          ∷ [])
        blank).db
unfolding number_at read_uint64 get_text lookup value_bytes
run_audit-IsCounted_example =
    run_audit-IsCounted memory policy_formats disk plain
      (configures none audit_lease clock
        ∷ applies none (opening ∷ []) clock
        ∷ acks none (codes "id") 1
        ∷ prunes none (clock + 172800000000000)
        ∷ [])
      blank (record { ordered = nil; counted = refl; sized = refl })
