-- ===== src/AccessAudit/Counted.antt =====
-- The counts that the file of the audit keeps of its records.
use remnawave_node_go.Base.{
  ℕ, ◌%◌, ◌^◌, ◌<◌, ◌≡◌, ap, ◌∙◌, false, arith, Text, codes, text_eq, length, ok, >>=-eq-ok,
  add_word, Bool-cases, inl, inr, if◌then◌else◌,
}
use remnawave_node_go.Base.BigEndian.{put_uint64, read_uint64, read_uint64-put_uint64}
use remnawave_node_go.Bolt.{Bolt, Ascending}
use remnawave_node_go.UsageSnapshot.Capture.{put_checked}
use remnawave_node_go.UsageSnapshot.Buckets.{get_text-put, put_checked-eq-ok}
use remnawave_node_go.AccessAudit.Store.{Db}
use remnawave_node_go.AccessAudit.Applying.{number_at, put_number}
use remnawave_node_go.AccessAudit.Sized.{value_bytes}

-- The records' keys ascend, and the file says how many there are and how many bytes they take.
pub record IsCounted (B : Bolt) (db : Db B) : Type 0 where
  pub ordered : Ascending (B.entries db.records)
  pub counted : number_at B (codes "recordCount") db ≡ length (B.entries db.records) % 2 ^ 64
  pub sized : number_at B (codes "bytes") db ≡ value_bytes (B.entries db.records) % 2 ^ 64

module _ (B : Bolt) where
  abbrev pub with_number : Text → ℕ → Db B → Db B
  with_number name n db = record db { meta = B.put db.meta name (put_uint64 n) }

  pub put_number-eq-ok :
      (name : Text) (n : ℕ) (db : Db B) {after : Db B}
      → put_number B name n db ≡ ok after
      → after ≡ with_number name n db
  unfolding put_number
  put_number-eq-ok name n db h =
      let (meta, put, made) = >>=-eq-ok (put_checked B db.meta name (put_uint64 n)) _ h in
      let written = put_checked-eq-ok B db.meta name (put_uint64 n) put in
      let same : record db { meta = meta } ≡ with_number name n db =
        ap (λ m. record db { meta = m }) written in
      cc

  -- A number that is written is read again, and the others are as before.
  pub number_at-with_number :
      (name other : Text) (n : ℕ) (db : Db B)
      → n < 2 ^ 64
      → number_at B other (with_number name n db)
        ≡ (if text_eq name other then n else number_at B other db)
  unfolding number_at
  number_at-with_number name other n db lt =
      let e = get_text-put B db.meta name (put_uint64 n) other in
      elim (Bool-cases (text_eq name other)) [
        | inl same ↦ simp same (ap read_uint64 (simp same at e) ∙ read_uint64-put_uint64 n lt)
        | inr apart ↦ simp apart (ap read_uint64 (simp apart at e))
      ]

  pub add_word-lt : (a b : ℕ) → add_word a b < 2 ^ 64
  add_word-lt a b = omega arith

  -- A number of another name leaves the counts.
  pub other_number-IsCounted :
      (name : Text) (n : ℕ) (db : Db B)
      → n < 2 ^ 64
      → text_eq name (codes "recordCount") ≡ false
      → text_eq name (codes "bytes") ≡ false
      → IsCounted B db
      → IsCounted B (with_number name n db)
  other_number-IsCounted name n db lt not_count not_bytes v = record {
    ordered = v.ordered;
    counted = number_at-with_number name (codes "recordCount") n db lt ∙ simp not_count v.counted;
    sized = number_at-with_number name (codes "bytes") n db lt ∙ simp not_bytes v.sized;
  }
