-- ===== src/AccessAudit/Written.antt =====
-- What Apply's writes of a record leave of the counts.
use remnawave_node_go.Base.{
  ℕ, ◌+◌, ◌%◌, ◌^◌, ◌<◌, ◌≡◌, refl, sym, ap, ◌∙◌, subst, Bool, true, false, Option, none, some,
  arith, Text, codes, text_eq, length, ok, >>=-eq-ok, add_word, sub_word, Bool-cases, inl, inr,
  if◌then◌else◌,
}
use remnawave_node_go.Base.BigEndian.{put_uint64, read_uint64}
use remnawave_node_go.Bolt.{Bolt, Ascending, lookup, insert}
use remnawave_node_go.UsageSnapshot.Capture.{get_text, put_checked}
use remnawave_node_go.UsageSnapshot.Buckets.{put_checked-eq-ok}
use remnawave_node_go.AccessAudit.Store.{Db}
use remnawave_node_go.AccessAudit.Records.{Event, DiskRecord, completed}
use remnawave_node_go.AccessAudit.Applying.{
  DiskFormats, number_at, put_number, write_record, is_full, is_new, length_before, store_record,
}
use remnawave_node_go.AccessAudit.Sized.{
  value_bytes, count_before, Ascending-insert, length-insert, value_bytes-insert,
}
use remnawave_node_go.AccessAudit.Counted.{
  IsCounted, put_number-eq-ok, number_at-with_number, add_word-lt, other_number-IsCounted,
}

new_count :
    (previous : Option Text) (n before after : ℕ)
    → n ≡ before % 2 ^ 64
    → after + count_before previous ≡ before + 1
    → (if is_new previous then add_word n 1 else n) ≡ after % 2 ^ 64
new_count none n before after h k = rw h (omega arith)
new_count (some t) n before after h k = rw h (omega arith)

module _ (B : Bolt) where
  -- What the writes of a record leave.
  pub record Written (k text : Text) (size : ℕ) (fresh : Bool) (db after : Db B) : Type 0 where
    pub stored : B.entries after.records ≡ insert k text (B.entries db.records)
    pub counts : number_at B (codes "recordCount") after ≡ (
        if fresh
        then add_word (number_at B (codes "recordCount") db) 1
        else number_at B (codes "recordCount") db)
    pub sizes : number_at B (codes "bytes") after ≡ size

  counted-lem :
      (fresh : Bool) (db : Db B) {after : Db B}
      → (if fresh
          then put_number B
              (codes "recordCount")
              (add_word (number_at B (codes "recordCount") db) 1)
              db
          else ok db)
        ≡ ok after
      → number_at B (codes "recordCount") after ≡ (
          if fresh
          then add_word (number_at B (codes "recordCount") db) 1
          else number_at B (codes "recordCount") db)
  unfolding text_eq number_at
  counted-lem true db {after} h =
      let n = add_word (number_at B (codes "recordCount") db) 1 in
      let made = put_number-eq-ok B (codes "recordCount") n db h in
      ap (number_at B (codes "recordCount")) made
      ∙ number_at-with_number B (codes "recordCount") (codes "recordCount") n db
          (add_word-lt B (number_at B (codes "recordCount") db) 1)
  counted-lem false db {after} h =
      let same : db ≡ after = cc in ap (number_at B (codes "recordCount")) (sym same)

  -- The last two writes leave the number of records, and put the bytes.
  last_numbers :
      (sequence size : ℕ) (counted numbered mid after : Db B)
      → sequence < 2 ^ 64
      → size < 2 ^ 64
      → put_number B (codes "sequence") sequence counted ≡ ok numbered
      → mid.meta ≡ numbered.meta
      → put_number B (codes "bytes") size mid ≡ ok after
      → (number_at B (codes "recordCount") after ≡ number_at B (codes "recordCount") counted)
        × ((number_at B (codes "bytes") after ≡ size) × (after.records ≡ mid.records))
  unfolding number_at read_uint64 text_eq get_text
  last_numbers sequence size counted numbered mid after sl bl h m k =
      let first = put_number-eq-ok B (codes "sequence") sequence counted h in
      let last = put_number-eq-ok B (codes "bytes") size mid k in
      let at_last = number_at-with_number B (codes "bytes") (codes "recordCount") size mid bl in
      let at_first =
        number_at-with_number B (codes "sequence") (codes "recordCount") sequence counted sl in
      (
        ap (number_at B (codes "recordCount")) last
            ∙ at_last
            ∙ ap (λ t. read_uint64 (get_text B t (codes "recordCount"))) m
            ∙ ap (number_at B (codes "recordCount")) first
            ∙ at_first,
        (
          ap (number_at B (codes "bytes")) last
              ∙ number_at-with_number B (codes "bytes") (codes "bytes") size mid bl,
          ap (λ d. d.records) last,
        ),
      )

  pub write_record-Written :
      (e : Event) (k text : Text) (old sequence size : ℕ) (fresh : Bool) (db : Db B) {after : Db B}
      → sequence < 2 ^ 64
      → size < 2 ^ 64
      → write_record B e k text old sequence size fresh db ≡ ok after
      → Written k text size fresh db after
  unfolding write_record
  write_record-Written e k text old sequence size fresh db {after} sl bl h =
      let (records, put, h1) = >>=-eq-ok (put_checked B db.records k text) _ h in
      let (counted, count, h2) =
        >>=-eq-ok
          (if fresh
            then put_number B (codes "recordCount")
                (add_word (number_at B (codes "recordCount") db) 1) db
            else ok db)
          _ h1 in
      let (index, put_index, h3) = >>=-eq-ok (put_checked B db.index e.id k) _ h2 in
      let (pending, put_pending, h4) =
        >>=-eq-ok (put_checked B (B.delete db.pending (put_uint64 old)) (put_uint64 sequence) k) _
          h3 in
      let (numbered, number, h5) =
        >>=-eq-ok (put_number B (codes "sequence") sequence counted) _ h4 in
      let mid : Db B = record numbered { records = records; index = index; pending = pending } in
      let facts = last_numbers sequence size counted numbered mid after sl bl number refl h5 in
      record {
        stored =
            ap B.entries facts.1.1
            ∙ ap B.entries (put_checked-eq-ok B db.records k text put)
            ∙ B.entries-put db.records k text;
        counts = facts.0 ∙ counted-lem fresh db count;
        sizes = facts.1.0;
      }

  Written-IsCounted :
      (k text : Text) (previous : Option Text) (db after : Db B)
      → B.get db.records k ≡ previous
      → IsCounted B db
      → Written k text
          (add_word
            (number_at B (codes "bytes") db)
            (sub_word (length text) (length_before previous % 2 ^ 64)))
          (is_new previous)
          db
          after
      → IsCounted B after
  Written-IsCounted k text previous db after found v w =
      let c = B.entries db.records in
      let at : lookup k c ≡ previous = sym (B.get_lem db.records k) ∙ found in
      let more : length (insert k text c) + count_before previous ≡ length c + 1 =
        subst (λ o. length (insert k text c) + count_before o ≡ length c + 1) at
          (length-insert k text c v.ordered) in
      let bytes : value_bytes (insert k text c) + length_before previous
          ≡ value_bytes c + length text =
        subst (λ o. value_bytes (insert k text c) + length_before o ≡ value_bytes c + length text)
          at (value_bytes-insert k text c v.ordered) in
      record {
        ordered = subst Ascending (sym w.stored) (Ascending-insert k text c v.ordered);
        counted =
            w.counts
            ∙ new_count previous (number_at B (codes "recordCount") db) (length c)
                (length (insert k text c)) v.counted more
            ∙ sym (ap (λ x. length x % 2 ^ 64) w.stored);
        sized =
            w.sizes ∙ (rw v.sized (omega arith)) ∙ sym (ap (λ x. value_bytes x % 2 ^ 64) w.stored);
      }

  -- A record that is stored, or dropped, is counted.
  pub store_record-IsCounted :
      (J : DiskFormats) (max_bytes now : ℕ) (e : Event) (k : Text) (previous : Option Text)
      (d : DiskRecord) (db : Db B) {after : Db B}
      → B.get db.records k ≡ previous
      → IsCounted B db
      → store_record B J max_bytes now e k previous d db ≡ ok after
      → IsCounted B after
  unfolding store_record text_eq
  store_record-IsCounted J max_bytes now e k previous d db {after} found v h =
      let sequence = add_word (number_at B (codes "sequence") db) 1 in
      let (text, encoded, h1) = >>=-eq-ok (J.disk_text (completed now sequence e d)) _ h in
      let size =
        add_word (number_at B (codes "bytes") db)
          (sub_word (length text) (length_before previous % 2 ^ 64)) in
      elim (Bool-cases (is_full B max_bytes size (is_new previous) db)) [
        | inl full ↦
            let more = add_word (number_at B (codes "dropped") db) 1 in
            let made = put_number-eq-ok B (codes "dropped") more db (simp full at h1) in
            subst (IsCounted B) (sym made) (
              other_number-IsCounted B (codes "dropped") more db
                (add_word-lt B (number_at B (codes "dropped") db) 1) refl refl v)
        | inr room ↦
            let w =
              write_record-Written e k text d.details.sequence sequence size (is_new previous) db
                (add_word-lt B (number_at B (codes "sequence") db) 1)
                (add_word-lt B (number_at B (codes "bytes") db)
                  (sub_word (length text) (length_before previous % 2 ^ 64)))
                (simp room at h1) in
            Written-IsCounted k text previous db after found v w
      ]
