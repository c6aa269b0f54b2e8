-- ===== src/AccessAudit/Records.antt =====
-- The records of the audit (store.go: Record, diskRecord, destination, and what Apply makes of one
-- event), and the events (native.go). Times are as in Policy.
use remnawave_node_go.Base.{
  ℕ, ◌+◌, ◌-◌, ◌*◌, ◌/◌, ◌^◌, Bool, true, false, not, ◌&&◌, ◌||◌, Option, none, some, [], ◌∷◌, Text,
  codes, text_eq, is_empty, length, take, ltb, ◌==◌, if◌then◌else◌, is_negative, is_positive,
  add_word, sub_word,
}
use remnawave_node_go.Base.Strings.{trim_dot, trim_space, to_lower}
use remnawave_node_go.Forwarding.Listeners.{atoi}
use remnawave_node_go.AccessAudit.Policy.{Target, minute, is_uuid}
use remnawave_node_go.AccessAudit.Store.{less_int64}
use remnawave_node_go.Node.ApiConfig.{digits}

-- net and unicode: the host and port of an address, whether a text is an IP address, a text less its
-- control characters, and whether it has a control or space character.
pub record Addressing : Type 0 where
  pub split_host_port : Text → Option (Text × Text)
  pub is_ip : Text → Bool
  pub without_controls : Text → Text
  pub has_control_or_space : Text → Bool

-- Connection; the numbers are int64.
pub record Connection : Type 0 where
  pub user : Text
  pub domain : Text
  pub destination_address : Text
  pub inbound : Text
  pub network : Text
  pub protocol : Text
  pub outbound_type : Text
  pub created_at : ℕ
  pub closed_at : ℕ
  pub upload : ℕ
  pub download : ℕ

pub record Event : Type 0 where
  pub type : ℕ
  pub id : Text
  pub connection : Option Connection
  pub upload_delta : ℕ
  pub download_delta : ℕ
  pub closed_at : ℕ

pub record Record : Type 0 where
  pub connection_id : Text
  pub user_id : Text
  pub window_id : Text
  pub domain : Text
  pub destination_ip : Text
  pub destination_port : ℕ
  pub inbound : Text
  pub network : Text
  pub protocol : Text
  pub started_at : ℕ
  pub observed_at : ℕ
  pub closed_at : Option ℕ
  pub upload : Text
  pub download : Text
  pub partial : Bool
  pub sequence : ℕ

-- diskRecord
pub record DiskRecord : Type 0 where
  pub details : Record
  pub last_upload : ℕ
  pub last_download : ℕ
  pub baseline_upload : ℕ
  pub baseline_download : ℕ
  pub retention_days : ℕ

abbrev pub max_int64 : ℕ → ℕ → ℕ
max_int64 a b = if less_int64 a b then b else a

-- 1970 as a time.
abbrev pub unix_epoch : ℕ
unix_epoch = 62135596800000000000

-- Time.UnixMilli, downwards.
unfoldable pub unix_milli : ℕ → ℕ
unix_milli t =
    if ltb t unix_epoch
    then sub_word 0 ((unix_epoch - t + 999999) / 1000000)
    else (t - unix_epoch) / 1000000

-- time.UnixMilli of a positive number.
abbrev pub from_unix_milli : ℕ → ℕ
from_unix_milli ms = unix_epoch + ms * 1000000

-- strings.ContainsAny(t, "/:@?#")
abbrev pub has_url_sign : Text → Bool
has_url_sign [] = false
has_url_sign (c ∷ t) =
    c == b'/' || c == b':' || c == b'@' || c == b'?' || c == b'#' || has_url_sign t

abbrev pub host_of : Text → Option (Text × Text) → Text
host_of address none = address
host_of address (some (host, port)) = host

abbrev pub audit_port : Option (Text × Text) → ℕ
audit_port none = 0
audit_port (some (host, port)) = atoi port

module _ (a : Addressing) where
  -- clipped
  unfoldable pub clipped : Text → ℕ → Text
  clipped v n = take n (a.without_controls v)

  unfoldable pub plain_domain : Text → Text
  plain_domain domain =
      if has_url_sign domain || a.has_control_or_space domain || ltb 253 (length domain)
      then []
      else domain

  -- destination: the domain, the address and the port.
  unfoldable pub destination : Connection → Text × (Text × ℕ)
  destination c =
      let parts = a.split_host_port c.destination_address in
      let host = host_of c.destination_address parts in
      let domain = to_lower (trim_dot (trim_space c.domain)) in
      if a.is_ip host
      then (plain_domain domain, (host, audit_port parts))
      else (plain_domain (if is_empty domain then host else domain), ([], audit_port parts))

  -- The record of a connection that has none yet; of what went on before the user's audit began it
  -- keeps the traffic as the baseline.
  unfoldable pub new_record : Text → Target → Connection → DiskRecord
  new_record id t c =
      let started = from_unix_milli c.created_at in
      let partial = ltb started t.enabled_at in
      let (domain, (ip, port)) = destination c in
      record {
        details = record {
          connection_id = id;
          user_id = t.user_id;
          window_id = t.window_id;
          domain = domain;
          destination_ip = ip;
          destination_port = port;
          inbound = clipped c.inbound 128;
          network = clipped c.network 16;
          protocol = clipped c.protocol 32;
          started_at = if partial then t.enabled_at else started;
          observed_at = 0;
          closed_at = none;
          upload = [];
          download = [];
          partial = partial;
          sequence = 0;
        };
        last_upload = 0;
        last_download = 0;
        baseline_upload = if partial then max_int64 0 c.upload else 0;
        baseline_download = if partial then max_int64 0 c.download else 0;
        retention_days = 0;
      }

-- The tests of a connection's event, given the user's target.
unfoldable pub skips : ℕ → Target → Text → Connection → Bool
skips now t id c =
    is_empty t.user_id
    || text_eq c.outbound_type (codes "dns")
    || not (is_uuid id)
    || not (is_positive c.created_at)
    || less_int64 (unix_milli (now + minute)) c.created_at
    || is_positive c.closed_at && less_int64 c.closed_at (unix_milli t.enabled_at)

-- The test of an update's deltas: they are not negative and the sums fit.
unfoldable pub bad_deltas : Event → DiskRecord → Bool
bad_deltas e d =
    is_negative e.upload_delta
    || is_negative e.download_delta
    || less_int64 (sub_word (2 ^ 63 - 1) d.last_upload) e.upload_delta
    || less_int64 (sub_word (2 ^ 63 - 1) d.last_download) e.download_delta

-- The traffic after the event; `none` where the event is passed over.
unfoldable pub with_traffic : Event → Option Connection → DiskRecord → Option DiskRecord
with_traffic e (some c) d = some (record d {
  last_upload = max_int64 d.last_upload c.upload;
  last_download = max_int64 d.last_download c.download;
})
with_traffic e none d =
    if not (e.type == 1)
    then some d
    else if bad_deltas e d
    then none
    else some (record d {
      last_upload = add_word d.last_upload e.upload_delta;
      last_download = add_word d.last_download e.download_delta;
    })

-- When the connection was closed, 0 or less for open.
unfoldable pub closing : Event → Option Connection → ℕ
closing e none = e.closed_at
closing e (some c) = if less_int64 e.closed_at c.closed_at then c.closed_at else e.closed_at

abbrev pub is_update : Option Connection → Bool
is_update none = true
is_update (some c) = false

unfoldable pub with_closing : Event → Record → Record
with_closing e r =
    let closed = closing e e.connection in
    if is_positive closed
    then record r {
      partial = is_update e.connection || r.partial;
      closed_at = some (from_unix_milli closed);
    }
    else r

-- ObservedAt: now, or the closing where that was before.
unfoldable pub observed : ℕ → Option ℕ → ℕ
observed now none = now
observed now (some closed) = if ltb closed now then closed else now

-- FormatInt of max(0, last - baseline).
unfoldable pub shown : ℕ → ℕ → Text
shown last baseline = digits (max_int64 0 (sub_word last baseline))

-- What is stored: the shown traffic, the times, one day of retention and the new number.
unfoldable pub completed : ℕ → ℕ → Event → DiskRecord → DiskRecord
completed now sequence e d =
    let r = with_closing e d.details in
    record d {
      details = record r {
        upload = shown d.last_upload d.baseline_upload;
        download = shown d.last_download d.baseline_download;
        observed_at = observed now r.closed_at;
        sequence = sequence;
      };
      retention_days = 1;
    }
