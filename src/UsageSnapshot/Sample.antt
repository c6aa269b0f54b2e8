-- ===== src/UsageSnapshot/Sample.antt =====
-- Concrete formats in which the hypotheses on encoding/json hold, for the examples: texts with their
-- lengths in front, numbers as they are.
use remnawave_node_go.Base.{
  ℕ, zero, suc, ◌≤◌, ◌≡◌, refl, List, [], ◌∷◌, ◌++◌, arith, Text, length, take, drop, message,
  Result, ok, err, ◌>>=◌, ap, subst,
}
use remnawave_node_go.UsageSnapshot.Types.{Counter, Snapshot, Formats}

take-append : (t r : Text) → take (length t) (t ++ r) ≡ t
take-append [] r = refl
take-append (x ∷ t) r = ap (λ (u : Text). x ∷ u) (take-append t r)

drop-append : (t r : Text) → drop (length t) (t ++ r) ≡ r
drop-append [] r = refl
drop-append (x ∷ t) r = drop-append t r

abbrev pub write_text : Text → Text → Text
write_text t r = length t ∷ t ++ r

unfoldable pub read_text : Text → Result (Text × Text)
read_text [] = err (message "unexpected end")
read_text (n ∷ r) = ok (take n r, drop n r)

read_text-write_text : (t r : Text) → read_text (write_text t r) ≡ ok (t, r)
unfolding read_text
read_text-write_text t r = rw (take-append t r, drop-append t r)

unfoldable pub read_number : Text → Result (ℕ × Text)
read_number [] = err (message "unexpected end")
read_number (n ∷ r) = ok (n, r)

read_number-cons : (n : ℕ) (r : Text) → read_number (n ∷ r) ≡ ok (n, r)
unfolding read_number
read_number-cons n r = refl

ruleset readers = (read_text-write_text, read_number-cons)

unfoldable pub write_counter : Counter → Text → Text
write_counter c r = write_text c.kind (
    write_text c.name (
      write_text c.inbound
        (write_text c.protocol (write_text c.scope (write_text c.direction (c.value ∷ r))))))

unfoldable pub read_counter : Text → Result (Counter × Text)
read_counter t = do
  (kind, t) ← read_text t
  (name, t) ← read_text t
  (inbound, t) ← read_text t
  (protocol, t) ← read_text t
  (scope, t) ← read_text t
  (direction, t) ← read_text t
  (value, t) ← read_number t
  ok (
    record {
      kind = kind;
      name = name;
      inbound = inbound;
      protocol = protocol;
      scope = scope;
      direction = direction;
      value = value;
    },
    t,
  )

read_counter-write_counter : (c : Counter) (r : Text) → read_counter (write_counter c r) ≡ ok (c, r)
unfolding read_counter write_counter
read_counter-write_counter c r = simp readers

unfoldable pub write_counters : List Counter → Text
write_counters [] = []
write_counters (c ∷ cs) = write_counter c (write_counters cs)

unfoldable pub read_counters : ℕ → Text → Result (List Counter)
read_counters zero t = ok []
read_counters (suc n) t = do (c, t) ← read_counter t; cs ← read_counters n t; ok (c ∷ cs)

read_counters-write_counters :
    (cs : List Counter) → read_counters (length cs) (write_counters cs) ≡ ok cs
unfolding read_counters write_counters
read_counters-write_counters [] = refl
read_counters-write_counters (c ∷ cs) =
    simp (read_counter-write_counter, read_counters-write_counters cs)

unfoldable pub snapshot_text : Snapshot → Text
snapshot_text s =
    write_text s.generation (
      s.sequence
      ∷ s.captured_at
      ∷ write_text s.core (length s.counters ∷ write_counters s.counters))

unfoldable pub read_snapshot : Text → Result Snapshot
read_snapshot t = do
  (generation, t) ← read_text t
  (sequence, t) ← read_number t
  (captured_at, t) ← read_number t
  (core, t) ← read_text t
  (n, t) ← read_number t
  counters ← read_counters n t
  ok (record {
    generation = generation;
    sequence = sequence;
    captured_at = captured_at;
    core = core;
    counters = counters;
  })

read_snapshot-snapshot_text : (s : Snapshot) → read_snapshot (snapshot_text s) ≡ ok s
unfolding read_snapshot snapshot_text
read_snapshot-snapshot_text s = simp (readers, read_counters-write_counters)

pub round_trip :
    (s : Snapshot) (b : Text) → Unit {0} → ok (snapshot_text s) ≡ ok b → read_snapshot b ≡ ok s
round_trip s b u h =
    let same : snapshot_text s ≡ b = ground arith in
    subst (λ t. read_snapshot t ≡ ok s) same (read_snapshot-snapshot_text s)

pub short : (t : ℕ) → length {A = ℕ} [] ≤ 64
short t = omega arith

abbrev pub sample : Formats
sample = record {
  marshal = λ s. ok (snapshot_text s);
  unmarshal = read_snapshot;
  Valid = λ s. Unit {0};
  round_trip = round_trip;
  rfc3339 = λ t. [];
  length-rfc3339 = short;
}
