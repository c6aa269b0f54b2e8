-- ===== src/AccessAudit/Pruned.antt =====
-- The counts of the audit's records after Prune.
use remnawave_node_go.Base.{
  ℕ, ◌+◌, ◌%◌, ◌^◌, ◌<◌, ◌≡◌, refl, sym, ap, ◌∙◌, subst, Option, some, arith, Text, codes, text_eq,
  text_eq_refl, length, Error, ok, >>=-eq-ok, sub_word, Bool-cases, inl, inr, [], ◌∷◌, All,
}
use remnawave_node_go.Bolt.{
  Bolt, Contents, lookup, erase, lookup-erase, update_keeps, Ascending, cons, Above,
}
use remnawave_node_go.AccessAudit.Store.{Db, Store}
use remnawave_node_go.AccessAudit.Records.{DiskRecord}
use remnawave_node_go.AccessAudit.Applying.{DiskFormats, number_at, put_number, length_before}
use remnawave_node_go.AccessAudit.Reading.{
  is_over, without_record, remove_record, prune_records, prune_tx, prune,
}
use remnawave_node_go.AccessAudit.Sized.{
  value_bytes, count_before, lt_apart, eq_apart, Ascending-erase, length-erase, value_bytes-erase,
}
use remnawave_node_go.AccessAudit.Counted.{IsCounted, put_number-eq-ok, number_at-with_number}

-- The pairs are found in the contents.
abbrev Found : Contents → Contents → Type 0
Found c d = All (λ (e : Text × Text). lookup e.0 c ≡ some e.1) d

Found-cons : (k v : Text) (c d : Contents) → Above k d → Found c d → Found ((k, v) ∷ c) d
unfolding lookup
Found-cons k v c [] above f = tt
Found-cons k v c ((j, w) ∷ d) above f =
    (simp (eq_apart j k (lt_apart k j above.0)) f.0, Found-cons k v c d above.1 f.1)

Found-self : (c : Contents) → Ascending c → Found c c
unfolding lookup
Found-self [] o = tt
Found-self ((k, v) ∷ c) (cons above o) =
    (simp (text_eq_refl k) refl, Found-cons k v c c above (Found-self c o))

Found-erase : (k : Text) (c d : Contents) → Above k d → Found c d → Found (erase k c) d
Found-erase k c [] above f = tt
Found-erase k c ((j, w) ∷ d) above f = (
  lookup-erase k j c ∙ simp (eq_apart j k (lt_apart k j above.0)) f.0,
  Found-erase k c d above.1 f.1,
)

first_key_lowest : {k v : Text} {c : Contents} → Ascending ((k, v) ∷ c) → Above k c
first_key_lowest (cons above o) = above

later_keys : {k v : Text} {c : Contents} → Ascending ((k, v) ∷ c) → Ascending c
later_keys (cons above o) = o

module _ (B : Bolt) (J : DiskFormats) where
  -- The loop of Prune at the pairs that are left to visit, with the bytes that are left.
  record IsPruning (c : Contents) (size : ℕ) (db : Db B) : Type 0 where
    pub ordered : Ascending (B.entries db.records)
    pub counted : number_at B (codes "recordCount") db ≡ length (B.entries db.records) % 2 ^ 64
    pub left : size ≡ value_bytes (B.entries db.records) % 2 ^ 64
    pub found : Found (B.entries db.records) c
    pub rest : Ascending c

  remove_record-IsPruning :
      (k v : Text) (c : Contents) (size : ℕ) (d : DiskRecord) (db : Db B) {after : Db B}
      → IsPruning ((k, v) ∷ c) size db
      → remove_record B k d db ≡ ok after
      → IsPruning c (sub_word size (length v % 2 ^ 64)) after
  unfolding remove_record number_at text_eq
  remove_record-IsPruning k v c size d db {after} p h =
      let before = B.entries db.records in
      let n = sub_word (number_at B (codes "recordCount") db) 1 in
      let mid = without_record B k d db in
      let made = put_number-eq-ok B (codes "recordCount") n mid h in
      let erased : B.entries after.records ≡ erase k before =
        ap (λ x. B.entries x.records) made ∙ B.entries-delete db.records k in
      let fewer : length (erase k before) + 1 ≡ length before =
        subst (λ o. length (erase k before) + count_before o ≡ length before) p.found.0
          (length-erase k before p.ordered) in
      let bytes : value_bytes (erase k before) + length v ≡ value_bytes before =
        subst (λ o. value_bytes (erase k before) + length_before o ≡ value_bytes before) p.found.0
          (value_bytes-erase k before p.ordered) in
      let was = p.counted in
      record {
        ordered = subst Ascending (sym erased) (Ascending-erase k before p.ordered);
        counted =
            ap (number_at B (codes "recordCount")) made
            ∙ number_at-with_number B (codes "recordCount") (codes "recordCount") n mid
                (omega arith)
            ∙ (rw was (omega arith))
            ∙ sym (ap (λ x. length x % 2 ^ 64) erased);
        left = (rw p.left (omega arith)) ∙ sym (ap (λ x. value_bytes x % 2 ^ 64) erased);
        found =
            subst (λ x. Found x c) (sym erased)
              (Found-erase k before c (first_key_lowest p.rest) p.found.1);
        rest = later_keys p.rest;
      }

  prune_records-IsPruning :
      (now : ℕ) (c : Contents) (size : ℕ) (db : Db B) {left : ℕ} {after : Db B}
      → IsPruning c size db
      → prune_records B J now c size db ≡ ok (left, after)
      → IsPruning [] left after
  unfolding prune_records
  prune_records-IsPruning now [] size db {left} {after} p h =
      let same : db ≡ after = cc in
      let bytes : size ≡ left = cc in
      subst (IsPruning [] left) same (subst (λ n. IsPruning [] n db) bytes p)
  prune_records-IsPruning now ((k, v) ∷ c) size db p h =
      let (d, read, h1) = >>=-eq-ok (J.read_disk v) _ h in
      elim (Bool-cases (is_over now d)) [
        | inl over ↦
            let h2 = simp over at h1 in
            let (removed, done, h3) =
              >>=-eq-ok (remove_record B k d db)
                (λ removed. prune_records B J now c (sub_word size (length v % 2 ^ 64)) removed)
                h2 in
            prune_records-IsPruning now c (sub_word size (length v % 2 ^ 64)) removed
              (remove_record-IsPruning k v c size d db p done) h3
        | inr kept ↦
            prune_records-IsPruning now c size db
              (record {
                ordered = p.ordered;
                counted = p.counted;
                left = p.left;
                found = p.found.1;
                rest = later_keys p.rest;
              })
              (simp kept at h1)
      ]

  pruned-IsCounted :
      (size : ℕ) (db : Db B) {after : Db B}
      → IsPruning [] size db
      → put_number B (codes "bytes") size db ≡ ok after
      → IsCounted B after
  unfolding text_eq number_at
  pruned-IsCounted size db p h =
      let lt : size < 2 ^ 64 = let was = p.left in omega arith in
      subst (IsCounted B) (sym (put_number-eq-ok B (codes "bytes") size db h)) (record {
        ordered = p.ordered;
        counted =
            number_at-with_number B (codes "bytes") (codes "recordCount") size db lt ∙ p.counted;
        sized = number_at-with_number B (codes "bytes") (codes "bytes") size db lt ∙ p.left;
      })

  prune_tx-IsCounted :
      (now : ℕ) (db : Db B) (u : Unit {0}) (after : Db B)
      → IsCounted B db
      → prune_tx B J now db ≡ ok (u, after)
      → IsCounted B after
  unfolding prune_tx
  prune_tx-IsCounted now db u after v h =
      let c = B.entries db.records in
      let size = number_at B (codes "bytes") db in
      let (left, loop, h1) = >>=-eq-ok (prune_records B J now c size db) _ h in
      let (sized, put, h2) = >>=-eq-ok (put_number B (codes "bytes") left.0 left.1) _ h1 in
      let start : IsPruning c size db = record {
        ordered = v.ordered;
        counted = v.counted;
        left = v.sized;
        found = Found-self c v.ordered;
        rest = v.ordered;
      } in
      let same : sized ≡ after = cc in
      subst (IsCounted B) same
        (pruned-IsCounted left.0 left.1 (prune_records-IsPruning now c size db start loop) put)

  pub prune-IsCounted :
      (commit : Option Error) (now : ℕ) (s : Store B)
      → IsCounted B s.db
      → IsCounted B (prune B J commit now s).0.db
  unfolding prune
  prune-IsCounted commit now s v =
      update_keeps (IsCounted B) commit (prune_tx B J now) s.db v
        (λ u after h. prune_tx-IsCounted now s.db u after v h)
