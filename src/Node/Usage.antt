-- ===== src/Node/Usage.antt =====
-- How manager.go captures usage: the sample of all counters, the marker of a core's restart, and the
-- captures that seal the traffic of a ruleset before it is replaced.
use remnawave_node_go.Base.{
  ℕ, Bool, true, false, not, ◌&&◌, ◌||◌, Option, none, some, List, [], ◌∷◌, ◌++◌, Text, codes,
  text_eq, is_empty, Error, message, wrapped, external, Result, ok, err, ◌>>=◌, ltb, if◌then◌else◌,
}
use remnawave_node_go.Bolt.{Bolt}
use remnawave_node_go.UsageSnapshot.Types.{
  Counter, Formats, Store, Status, PullRequest, PullResponse, AckRequest,
}
use remnawave_node_go.UsageSnapshot.Store.{capture}
use remnawave_node_go.UsageSnapshot.Queue.{active, activate, ack, pull, status}
use remnawave_node_go.Forwarding.Types.{Failure, Outcome, done, fail}
use remnawave_node_go.Forwarding.Usage.{UsageCounter, transport_name}
use remnawave_node_go.Forwarding.Service.{State, applied}
use remnawave_node_go.Runtime.Core.{sing_box}
use remnawave_node_go.Node.Stats.{
  StatsClient, TagItems, UserItems, fetch_grouped_stats, fetch_user_inbound_stats,
}

abbrev pub plain_counter : Text → Text → Text → Text → ℕ → Counter
plain_counter kind name inbound direction v = record {
  kind = kind;
  name = name;
  inbound = inbound;
  protocol = [];
  scope = [];
  direction = direction;
  value = v;
}

-- Both directions of each item.
unfoldable pub user_counters : UserItems → List Counter
user_counters [] = []
user_counters (((u, i), t) ∷ items) =
    plain_counter (codes "user") u i (codes "uplink") t.up
    ∷ plain_counter (codes "user") u i (codes "downlink") t.down
    ∷ user_counters items

unfoldable pub tag_counters : Text → TagItems → List Counter
tag_counters kind [] = []
tag_counters kind ((tag, t) ∷ items) =
    plain_counter kind tag [] (codes "uplink") t.up
    ∷ plain_counter kind tag [] (codes "downlink") t.down
    ∷ tag_counters kind items

-- currentCoreUsageCounters
unfoldable pub current_core_usage_counters : StatsClient → Result (List Counter)
current_core_usage_counters c = do
  users ← fetch_user_inbound_stats c false
  inbounds ← fetch_grouped_stats c (codes "inbound") (codes "inbound>>>") false
  outbounds ← fetch_grouped_stats c (codes "outbound") (codes "outbound>>>") false
  ok (
      user_counters users
      ++ (tag_counters (codes "inbound") inbounds ++ tag_counters (codes "outbound") outbounds))

unfoldable pub forwarding_counters : List UsageCounter → List Counter
forwarding_counters [] = []
forwarding_counters (u ∷ us) =
    record {
      kind = codes "forwarding";
      name = u.rule_id;
      inbound = [];
      protocol = transport_name u.protocol;
      scope = u.scope;
      direction = u.direction;
      value = u.bytes;
    }
    ∷ forwarding_counters us

-- What `currentUsageCounters` returns beside an error.
pub record Sample : Type 0 where
  pub counters : List Counter
  pub capturing : Bool
  pub core_complete : Bool

-- The errors of these operations: no storage, no statistics of the core, the forwarding's error, and
-- the store's.
pub data UsageError : Type 0 where
  unavailable : UsageError
  core_unavailable : UsageError
  reading : Failure → UsageError
  storing : Error → UsageError

pub data Sampled : Type 0 where
  failed : UsageError → Sampled
  sampled : Sample → Sampled

-- statsClient, given the client of the manager.
unfoldable pub stats_client : Text → StatsClient → StatsClient
stats_client running c = if text_eq running sing_box then c else none

unfoldable pub with_core_counters : List Counter → Result (List Counter) → Sample
with_core_counters counters (err e) = record {
  counters = counters;
  capturing = true;
  core_complete = false;
}
with_core_counters counters (ok core) = record {
  counters = counters ++ core;
  capturing = true;
  core_complete = true;
}

-- The sample once the forwarding counters are known.
unfoldable pub sample_core : Text → StatsClient → List Counter → Bool → Sample
sample_core running none counters forwarding_active = record {
  counters = counters;
  capturing = forwarding_active;
  core_complete = true;
}
sample_core running (some query) counters forwarding_active =
    if is_empty running
    then record { counters = counters; capturing = forwarding_active; core_complete = true }
    else with_core_counters counters (current_core_usage_counters (some query))

-- What an operation meets outside: the core that runs, its client, what UsageCounters of the
-- forwarding returns, none where there is no forwarding, and the time.
pub record Around : Type 0 where
  pub running : Text
  pub client : StatsClient
  pub forwarding : Option (Outcome (List UsageCounter × Bool))
  pub now : ℕ

-- currentUsageCounters
unfoldable pub sample_forwarding : Around → Option (Outcome (List UsageCounter × Bool)) → Sampled
sample_forwarding a none =
    sampled (sample_core a.running (stats_client a.running a.client) [] false)
sample_forwarding a (some (fail e)) = failed (reading e)
sample_forwarding a (some (done (us, forwarding_active))) = sampled (
    sample_core a.running (stats_client a.running a.client) (forwarding_counters us)
      forwarding_active)

unfoldable pub current_usage_counters : Around → Sampled
current_usage_counters a = sample_forwarding a a.forwarding

-- errors.Is(err, ErrNotActive)
unfoldable pub is_not_active : Error → Bool
is_not_active (message t) = text_eq (codes t) (codes "usage snapshot mode is not active")
is_not_active (wrapped t e) = is_not_active e
is_not_active (external n) = false

-- The store, none where it could not be opened, and the marker of a restart of the core.
pub record Usage (B : Bolt) : Type 0 where
  pub snapshots : Option (Store B)
  pub restarted : Bool

abbrev pub core_name : Text → Text
core_name running = if is_empty running then codes "FORWARDING_ONLY" else running

-- The forwarding's state and its number of enabled rules, none where there is no forwarding.
abbrev pub forwards : Option (State × ℕ) → Bool
forwards none = false
forwards (some (applied, enabled)) = ltb 0 enabled
forwards (some (s, enabled)) = false

-- withUsageSnapshotRuntime
unfoldable pub with_usage_snapshot_runtime : Text → Bool → Option (State × ℕ) → Status → Status
with_usage_snapshot_runtime running online forwarding s =
    if not s.active
    then s
    else record s { capturing = text_eq running sing_box && online || forwards forwarding }

pub data Answered (A : Type 0) : Type 0 where
  refused : UsageError → Answered A
  answered : A → Answered A

unfoldable pub answer_with : {A C : Type 0} → (A → C) → Result A → Answered C
answer_with f (err e) = refused (storing e)
answer_with f (ok v) = answered (f v)

module _ {B : Bolt} where
  -- UsageSnapshotActive
  unfoldable pub store_active : Option (Store B) → Bool
  store_active none = false
  store_active (some s) = active B s

  -- A core that was restarted while usage is captured (Start).
  unfoldable pub mark_restarted : Usage B → Usage B
  mark_restarted u = if store_active u.snapshots then record u { restarted = true } else u

module _ {B : Bolt} (F : Formats) where
  -- What Capture returned, given the marker that it was called with: an error puts it back.
  unfoldable pub after_capture :
      Bool → Bool → Store B × Result (Unit {0}) → Usage B × Option UsageError
  after_capture marker kept (s, ok _) = (record { snapshots = some s; restarted = kept }, none)
  after_capture marker kept (s, err e) =
      if is_not_active e
      then (record { snapshots = some s; restarted = kept }, none)
      else (record { snapshots = some s; restarted = marker || kept }, some (storing e))

  -- The marker is taken where the core's counters are complete.
  unfoldable pub capture_sample :
      Around → Option Error → Store B → Bool → Sampled → Usage B × Option UsageError
  capture_sample a commit s restarted (failed e) =
      (record { snapshots = some s; restarted = restarted }, some e)
  capture_sample a commit s restarted (sampled m) =
      let marker = m.core_complete && restarted in
      let kept = not m.core_complete && restarted in
      if not m.capturing
      then (record { snapshots = some s; restarted = restarted }, none)
      else after_capture marker kept
          (capture B F commit (core_name a.running) m.counters a.now marker s)

  unfoldable pub capture_active :
      Around → Option Error → Usage B → Option (Store B) → Usage B × Option UsageError
  capture_active a commit u none = (u, none)
  capture_active a commit u (some s) =
      if not (active B s)
      then (u, none)
      else capture_sample a commit s u.restarted (current_usage_counters a)

  -- captureUsageSnapshot
  unfoldable pub capture_usage_snapshot :
      Around → Option Error → Usage B → Usage B × Option UsageError
  capture_usage_snapshot a commit u = capture_active a commit u u.snapshots

  unfoldable pub activate_sample :
      (Status → Status)
      → Option Error
      → Result Text
      → Usage B
      → Store B
      → Sampled
      → Usage B × Answered Status
  activate_sample f commit random u s (failed e) = (u, refused e)
  activate_sample f commit random u s (sampled m) =
      let (s', r) = activate B commit random m.counters s in
      if not m.core_complete
      then (u, refused core_unavailable)
      else (record u { snapshots = some s' }, answer_with f r)

  unfoldable pub activate_at :
      (Status → Status)
      → Around
      → Option Error
      → Result Text
      → Usage B
      → Option (Store B)
      → Usage B × Answered Status
  activate_at f a commit random u none = (u, refused unavailable)
  activate_at f a commit random u (some s) =
      activate_sample f commit random u s (current_usage_counters a)

  -- ActivateUsageSnapshots; `f` is withUsageSnapshotRuntime.
  unfoldable pub activate_usage_snapshots :
      (Status → Status) → Around → Option Error → Result Text → Usage B → Usage B × Answered Status
  activate_usage_snapshots f a commit random u = activate_at f a commit random u u.snapshots

  -- PullUsageSnapshots
  unfoldable pub pull_usage_snapshots : PullRequest → Usage B → Answered PullResponse
  pull_usage_snapshots request u = elim u.snapshots [
    | none ↦ refused unavailable
    | some s ↦ answer_with (λ r. r) (pull B F request s)
  ]

  unfoldable pub ack_at :
      (Status → Status)
      → Option Error
      → AckRequest
      → Usage B
      → Option (Store B)
      → Usage B × Answered Status
  ack_at f commit request u none = (u, refused unavailable)
  ack_at f commit request u (some s) =
      let (s', r) = ack B commit request s in (record u { snapshots = some s' }, answer_with f r)

  -- AckUsageSnapshots
  unfoldable pub ack_usage_snapshots :
      (Status → Status) → Option Error → AckRequest → Usage B → Usage B × Answered Status
  ack_usage_snapshots f commit request u = ack_at f commit request u u.snapshots

  -- UsageSnapshotStatus
  unfoldable pub usage_snapshot_status : (Status → Status) → Usage B → Answered Status
  usage_snapshot_status f u = elim u.snapshots [
    | none ↦ refused unavailable
    | some s ↦ answered (f (status B s))
  ]
