-- ===== src/UsageSnapshot/Tests.antt =====
-- Runs of the snapshot store over an in-memory bucket, and the theorems at such runs.
use remnawave_node_go.Base.{
  ℕ, zero, suc, ap, length, ◌+◌, ◌≤◌, ◌≡◌, refl, ◌++◌, ◌⊎◌, true, false, none, List, [], ◌∷◌, arith,
  Text, codes, text_eq, Result, ok, err, text_lt, map, is_empty, ◌==◌, if◌then◌else◌,
}
use remnawave_node_go.Base.BigEndian.{big_endian, of_big_endian, read_uint64, put_uint64}
use remnawave_node_go.Base.Hex.{hex}
use remnawave_node_go.Bolt.{lookup, insert, erase, update}
use remnawave_node_go.Bolt.Memory.{memory, refuses}
use remnawave_node_go.UsageSnapshot.Types.{
  Counter, Snapshot, Db, Store, PullRequest, PullResponse, AckRequest, counter_key,
}
use remnawave_node_go.UsageSnapshot.Capture.{
  counter_delta, add_delta, put_checked, get_text, store_baseline, capture_counters,
}
use remnawave_node_go.UsageSnapshot.Store.{
  random_id, delete_all, clear_bucket, activate_tx, append_snapshot, record_deltas, capture_tx,
  capture, total_bytes, is_active, generation,
}
use remnawave_node_go.UsageSnapshot.Queue.{
  seek, pull_bound, pull_loop, delete_through, ack_tx, oldest, status, answer, ack, activate, pull,
}
use remnawave_node_go.UsageSnapshot.Sample.{
  sample, snapshot_text, read_snapshot, write_counters, write_counter, read_counters, read_counter,
  read_text, read_number,
}
use remnawave_node_go.UsageSnapshot.History.{
  Call, activates, captures, acks, step, run, run-IsConsistent,
}
use remnawave_node_go.UsageSnapshot.Invariant.{IsConsistent, IsQueue}
use remnawave_node_go.UsageSnapshot.Pulling.{AllValid}
use remnawave_node_go.UsageSnapshot.Acknowledging.{Accepted}
use remnawave_node_go.UsageSnapshot.Answers.{Acked, ack_tx-Acked, status_lem}
use remnawave_node_go.UsageSnapshot.Failures.{pull_stuck}
use remnawave_node_go.UsageSnapshot.Deltas.{reported, value_at, counter_delta_lem, is_forwarding}
use remnawave_node_go.UsageSnapshot.Traffic.{
  Traffic, start, captured, queued_traffic, Traffic-conserved,
}
use remnawave_node_go.UsageSnapshot.Keys.{IsNamed, counter_key-injective}

abbrev counter : ℕ → Counter
counter v = record {
  kind = codes "outbound";
  name = codes "direct";
  inbound = [];
  protocol = [];
  scope = [];
  direction = codes "uplink";
  value = v;
}

abbrev blank : Store memory
blank = record { db = record { meta = []; baseline = []; snapshots = [] }; max_bytes = 1048576 }

abbrev random : Result Text
random = ok (7 ∷ 255 ∷ [])

abbrev calls : List Call
calls =
    activates none random (counter 100 ∷ [])
    ∷ captures none (codes "SING_BOX") (counter 125 ∷ []) 5 false
    ∷ []

-- Names all that a run computes with, for the `unfolding` lines below.
everything : Unit {0}
unfolding run step activate answer activate_tx random_id hex put_checked refuses insert lookup erase
    text_eq text_lt big_endian store_baseline counter_key clear_bucket delete_all update capture
    capture_tx capture_counters get_text counter_delta add_delta record_deltas append_snapshot
    snapshot_text write_counters write_counter total_bytes status oldest read_uint64 of_big_endian
    ack ack_tx delete_through pull pull_loop pull_bound seek read_snapshot read_counters
    read_counter read_text read_number is_empty reported
everything = tt

abbrev after : List Call → Store memory
after cs = run memory sample cs blank

values : List Snapshot → List ℕ
values [] = []
values (s ∷ ss) = map (λ (c : Counter). c.value) s.counters

pulled_values : Result PullResponse → List ℕ
pulled_values (ok r) = values r.snapshots
pulled_values (err e) = []

abbrev from_start : PullRequest
from_start = record { after_sequence = 0; limit = 0; max_bytes = 0 }

-- TestDurableDeltaPullAckAndRestart: the pull hands out the growth of 25.
pull_growth : pulled_values (pull memory sample from_start (after calls)) ≡ 25 ∷ []
unfolding everything pulled_values values
pull_growth = refl

-- TestCounterResetStartsFromNewCumulativeValue
reset_growth :
    pulled_values (
      pull memory sample from_start (
        after (
          activates none random (counter 500 ∷ [])
          ∷ captures none (codes "SING_BOX") (counter 20 ∷ []) 5 false
          ∷ [])))
    ≡ 20 ∷ []
unfolding everything pulled_values values
reset_growth = refl

-- An empty file.
blank-IsConsistent : IsConsistent memory sample blank.db
unfolding everything
blank-IsConsistent = record { live = λ h. cc; idle = λ h. refl }

run-IsConsistent_example : IsConsistent memory sample (after calls).db
unfolding everything
run-IsConsistent_example =
    run-IsConsistent memory sample calls blank blank-IsConsistent (omega arith)

after_active : is_active memory (after calls).db ≡ true
unfolding everything
after_active = refl

queue : IsQueue memory sample (after calls).db
queue =
    (run-IsConsistent memory sample calls blank blank-IsConsistent
        (unfold everything in omega arith)).live
      after_active

after_valid : AllValid sample (memory.entries (after calls).db.snapshots)
unfolding everything
after_valid = (λ s e. tt, tt)

abbrev first_ack : AckRequest
first_ack = record { generation = codes "07ff"; through_sequence = 1 }

first_ack-Accepted : Accepted memory first_ack (after calls).db
unfolding everything
first_ack-Accepted = record { named = refl; current = refl; reached = omega arith }

ack_tx-Acked_example :
    (new : Db memory) × (ack_tx memory first_ack (after calls).db ≡ ok (tt, new))
    × Acked memory sample 1 (after calls).db new
ack_tx-Acked_example =
    ack_tx-Acked memory sample first_ack (after calls).db queue first_ack-Accepted

abbrev acked : Db memory
acked = (after (calls ++ acks none first_ack ∷ [])).db

status_lem_example :
    let t = status memory (after calls) in
    (t.acked_through + t.pending ≡ t.latest_sequence)
    × (t.oldest_sequence ≡ (if t.pending == 0 then 0 else t.acked_through + 1))
status_lem_example = status_lem memory sample (after calls) queue

counter_delta_lem_example :
    (counter_delta false (counter 125) 100 ≡ 25) × (counter_delta false (counter 125) 100 ≤ 125)
counter_delta_lem_example = counter_delta_lem false (counter 125) 100 (omega arith) (omega arith)

named : (v : ℕ) → IsNamed (counter v)
named v = omega arith

counter_key-injective_example :
    let c = counter 1 in
    let d = counter 2 in
    (c.kind ≡ d.kind)
    × (c.name ≡ d.name)
    × (c.direction ≡ d.direction)
    × ((is_forwarding c ≡ true) × (c.protocol ≡ d.protocol) × (c.scope ≡ d.scope)
        ⊎ (is_forwarding c ≡ false) × (c.inbound ≡ d.inbound))
counter_key-injective_example =
    counter_key-injective (counter 1) (counter 2) (named 1) (named 2) (unfold counter_key in refl)

abbrev activated : Db memory
activated = (after (activates none random (counter 100 ∷ []) ∷ [])).db

abbrev grown : Db memory
grown = (after calls).db

activated-IsConsistent : IsConsistent memory sample activated
activated-IsConsistent =
    run-IsConsistent memory sample (activates none random (counter 100 ∷ []) ∷ []) blank
      blank-IsConsistent (unfold everything in omega arith)

first_traffic : Traffic memory sample (counter_key (counter 0)) activated grown 0
unfolding everything
first_traffic =
    captured {mid = activated} 1048576 (codes "SING_BOX") (counter 125 ∷ []) 5 start
      (omega arith, omega arith, tt) (omega arith) refl after_valid

Traffic-conserved_example :
    0
      + queued_traffic sample (counter_key (counter 0)) (memory.entries grown.snapshots)
      + value_at memory activated.baseline (counter_key (counter 0))
    ≡ queued_traffic sample (counter_key (counter 0)) (memory.entries activated.snapshots)
      + value_at memory grown.baseline (counter_key (counter 0))
Traffic-conserved_example =
    Traffic-conserved memory sample (counter_key (counter 0)) {old = activated} {new = grown}
      activated-IsConsistent first_traffic

-- The snapshot reports the 25.
queued_25 : queued_traffic sample (counter_key (counter 0)) (memory.entries grown.snapshots) ≡ 25
unfolding everything queued_traffic
queued_25 = refl

-- A snapshot of more than 4 MiB.
replicate : ℕ → Text
replicate zero = []
replicate (suc n) = 0 ∷ replicate n

length-replicate : (n : ℕ) → length (replicate n) ≡ n
unfolding replicate
length-replicate zero = refl
length-replicate (suc n) = ap suc (length-replicate n)

abbrev large : Store memory
large = record {
  db = record (after calls).db { snapshots = (put_uint64 1, replicate 4194305) ∷ [] };
  max_bytes = 268435456;
}

pull_stuck_example :
    pull memory sample from_start large
    ≡ ok (record { generation = generation memory large.db; snapshots = []; has_more = true })
pull_stuck_example =
    pull_stuck memory sample from_start large (put_uint64 1) (replicate 4194305) []
      (unfold everything in refl) (unfold everything in refl)
      (rw (length-replicate 4194305) (omega arith))
