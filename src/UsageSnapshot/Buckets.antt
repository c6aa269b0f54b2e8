-- ===== src/UsageSnapshot/Buckets.antt =====
-- What the operations on one bucket of the snapshot file do to its pairs.
use remnawave_node_go.Base.{
  ◌≤◌, ◌≡◌, refl, ap, ◌∙◌, ◌⊎◌, inl, inr, true, [], ◌∷◌, arith, Text, text_eq, text_eq_iff, text_lt,
  text_lt_irrefl, text_lt_trans, ◌++◌, length, All, ok, if◌then◌else◌,
}
use remnawave_node_go.Bolt.{Bolt, Contents, insert, erase, lookup-insert, lookup-erase}
use remnawave_node_go.UsageSnapshot.Capture.{put_checked, get_text}
use remnawave_node_go.UsageSnapshot.Store.{delete_all, clear_bucket}

-- A key above all others goes to the end.
pub insert-last :
    (k v : Text) (c : Contents)
    → All (λ (e : Text × Text). text_lt e.0 k ≡ true) c
    → insert k v c ≡ c ++ (k, v) ∷ []
unfolding insert
insert-last k v [] h = refl
insert-last k v ((j, w) ∷ c) h = ground (
  arith,
  h.0,
  text_eq_iff j k,
  text_lt_irrefl k,
  text_lt_irrefl j,
  text_lt_trans j k j,
  insert-last k v c h.1,
)

HasKey : Text → Contents → Type 0
HasKey k [] = ⊥
HasKey k ((j, w) ∷ c) = (j ≡ k) ⊎ HasKey k c

erase_all : Contents → Contents → Contents
erase_all [] d = d
erase_all ((k, v) ∷ c) d = erase_all c (erase k d)

erase-HasKey :
    (k v : Text) (c d : Contents)
    → All (λ (e : Text × Text). HasKey e.0 ((k, v) ∷ c)) d
    → All (λ (e : Text × Text). HasKey e.0 c) (erase k d)
unfolding HasKey erase
erase-HasKey k v c [] h = tt
erase-HasKey k v c ((j, w) ∷ d) h = ground (arith, text_eq_iff j k, erase-HasKey k v c d h.1)

erase_all-nil : (c d : Contents) → All (λ (e : Text × Text). HasKey e.0 c) d → erase_all c d ≡ []
unfolding erase_all HasKey
erase_all-nil [] [] h = refl
erase_all-nil [] (e ∷ d) h = absurd h.0
erase_all-nil ((k, v) ∷ c) d h = erase_all-nil c (erase k d) (erase-HasKey k v c d h)

All-HasKey-cons :
    (k v : Text) (c d : Contents)
    → All (λ (e : Text × Text). HasKey e.0 c) d
    → All (λ (e : Text × Text). HasKey e.0 ((k, v) ∷ c)) d
unfolding HasKey
All-HasKey-cons k v c [] h = tt
All-HasKey-cons k v c (e ∷ d) h = (inr h.0, All-HasKey-cons k v c d h.1)

All-HasKey-self : (c : Contents) → All (λ (e : Text × Text). HasKey e.0 c) c
unfolding HasKey
All-HasKey-self [] = tt
All-HasKey-self ((k, v) ∷ c) = (inl refl, All-HasKey-cons k v c c (All-HasKey-self c))

module _ (B : Bolt) where
  pub get_text-put :
      (b : B.Bucket) (k v j : Text)
      → get_text B (B.put b k v) j ≡ (if text_eq k j then v else get_text B b j)
  unfolding get_text
  get_text-put b k v j =
      rw
        (
          B.get_lem (B.put b k v) j,
          B.entries-put b k v,
          lookup-insert k j v (B.entries b),
          B.get_lem b j,
        )
        (ground arith)

  pub get_text-delete :
      (b : B.Bucket) (k j : Text)
      → get_text B (B.delete b k) j ≡ (if text_eq k j then [] else get_text B b j)
  unfolding get_text
  get_text-delete b k j =
      rw
        (
          B.get_lem (B.delete b k) j,
          B.entries-delete b k,
          lookup-erase k j (B.entries b),
          B.get_lem b j,
        )
        (ground arith)

  -- A `Put` that reports no error has written.
  pub put_checked-eq-ok :
      (b : B.Bucket) (k v : Text) {b' : B.Bucket} → put_checked B b k v ≡ ok b' → b' ≡ B.put b k v
  unfolding put_checked
  put_checked-eq-ok b k v h = ground arith

  -- A `Put` of a short key and a short value is never refused.
  pub put_checked_lem :
      (b : B.Bucket) (k v : Text)
      → 1 ≤ length k
      → length k ≤ 32768
      → length v ≤ 2147483646
      → put_checked B b k v ≡ ok (B.put b k v)
  unfolding put_checked
  put_checked_lem b k v p q r = rw (B.refuses_lem k v p q r)

  entries-delete_all :
      (c : Contents) (b : B.Bucket) → B.entries (delete_all B c b) ≡ erase_all c (B.entries b)
  unfolding delete_all erase_all
  entries-delete_all [] b = refl
  entries-delete_all ((k, v) ∷ c) b =
      entries-delete_all c (B.delete b k) ∙ ap (erase_all c) (B.entries-delete b k)

  -- Clearing a bucket leaves no pair.
  pub entries-clear_bucket : (b : B.Bucket) → B.entries (clear_bucket B b) ≡ []
  unfolding clear_bucket
  entries-clear_bucket b =
      entries-delete_all (B.entries b) b
      ∙ erase_all-nil (B.entries b) (B.entries b) (All-HasKey-self (B.entries b))
