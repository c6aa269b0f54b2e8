-- ===== src/UsageSnapshot/Types.antt =====
-- The data of internal/usagesnapshot/store.go. Signed integers are 64-bit patterns, times are
-- nanoseconds since the zero time.
use remnawave_node_go.Base.{
  ℕ, ◌≤◌, ◌≡◌, Bool, List, ◌∷◌, ◌++◌, Text, codes, text_eq, length, Result, ok, if◌then◌else◌,
}
use remnawave_node_go.Bolt.{Bolt}

pub record Counter : Type 0 where
  pub kind : Text
  pub name : Text
  pub inbound : Text
  pub protocol : Text
  pub scope : Text
  pub direction : Text
  pub value : ℕ  -- int64

pub record Snapshot : Type 0 where
  pub generation : Text
  pub sequence : ℕ  -- uint64
  pub captured_at : ℕ
  pub core : Text
  pub counters : List Counter

pub record PullRequest : Type 0 where
  pub after_sequence : ℕ  -- uint64
  pub limit : ℕ  -- int
  pub max_bytes : ℕ  -- int

pub record PullResponse : Type 0 where
  pub generation : Text
  pub snapshots : List Snapshot
  pub has_more : Bool

pub record AckRequest : Type 0 where
  pub generation : Text
  pub through_sequence : ℕ  -- uint64

pub record Status : Type 0 where
  pub active : Bool
  pub capturing : Bool
  pub generation : Text
  pub oldest_sequence : ℕ
  pub latest_sequence : ℕ
  pub acked_through : ℕ
  pub pending : ℕ
  pub bytes : ℕ
  pub last_captured_at : Text

-- encoding/json on snapshots, and `Format(time.RFC3339Nano)` of a UTC time. Encoding and decoding
-- give a snapshot back where its texts are valid UTF-8, which `Valid` stands for.
pub record Formats : Type 1 where
  pub marshal : Snapshot → Result Text
  pub unmarshal : Text → Result Snapshot
  pub Valid : Snapshot → Type 0
  pub round_trip : (s : Snapshot) (b : Text) → Valid s → marshal s ≡ ok b → unmarshal b ≡ ok s
  pub rfc3339 : ℕ → Text
  pub length-rfc3339 : (t : ℕ) → length (rfc3339 t) ≤ 64

-- The three buckets of the file.
pub record Db (B : Bolt) : Type 0 where
  pub meta : B.Bucket
  pub baseline : B.Bucket
  pub snapshots : B.Bucket

pub record Store (B : Bolt) : Type 0 where
  pub db : Db B
  pub max_bytes : ℕ  -- int64, positive

-- Core counters keep the key that they have always had; forwarding counters carry their scope.
unfoldable pub counter_key : Counter → Text
counter_key c =
    if text_eq c.kind (codes "forwarding")
    then c.kind ++ (0 ∷ c.name ++ (0 ∷ c.protocol ++ (0 ∷ c.scope ++ (0 ∷ c.direction))))
    else c.kind ++ (0 ∷ c.name ++ (0 ∷ c.inbound ++ (0 ∷ c.direction)))
