-- ===== src/UsageSnapshot/Sequence.antt =====
-- The queue as a run of consecutive sequence numbers, and how `Put`, the acknowledging walk and
-- `Seek` move along it.
use remnawave_node_go.Base.{
  ℕ, suc, zero, ◌+◌, ◌-◌, ◌^◌, ◌≤◌, ◌<◌, ◌≡◌, refl, sym, ap, subst, ◌∙◌, true, false, [], ◌∷◌,
  arith, Text, text_eq, text_lt, ◌++◌, length, All, ok, text_eq_refl, leb, lt→ltb, ge→ltb, drop,
  le→leb,
}
use remnawave_node_go.Base.BigEndian.{
  read_uint64, read_uint64-put_uint64, text_eq-put_uint64, text_lt-put_uint64,
}
use native.Mathlib.Decide.{dec_lt}
use remnawave_node_go.Bolt.{Bolt, Contents, erase}
use remnawave_node_go.UsageSnapshot.Types.{Snapshot, Formats}
use remnawave_node_go.UsageSnapshot.Store.{sequence_key}
use remnawave_node_go.UsageSnapshot.Queue.{seek, delete_through}

-- The payload encodes the snapshot of this generation and number.
pub record IsPayload (F : Formats) (g : Text) (n : ℕ) (v : Text) : Type 0 where
  pub snapshot : Snapshot
  pub encoded : F.marshal snapshot ≡ ok v
  pub numbered : snapshot.sequence ≡ n
  pub generated : snapshot.generation ≡ g

-- The keys are those of n, n + 1, …, each with a payload of its number.
abbrev pub Numbered : Formats → Text → ℕ → Contents → Type 0
Numbered F g n [] = Unit
Numbered F g n ((k, v) ∷ c) = (k ≡ sequence_key n) × IsPayload F g n v × Numbered F g (suc n) c

IsPayload-at :
    {F : Formats} {g : Text} {n m : ℕ} {v : Text} → n ≡ m → IsPayload F g n v → IsPayload F g m v
IsPayload-at {F} {g} {v = v} e p = subst (λ i. IsPayload F g i v) e p

drop-nil : (m : ℕ) → drop {A = Text × Text} m [] ≡ []
drop-nil zero = refl
drop-nil (suc m) = refl

-- One step of a walk that drops up to `m` from `n`.
drop_one :
    (n m : ℕ) (e : Text × Text) (c : Contents) → n < m → drop (m - suc n) c ≡ drop (m - n) (e ∷ c)
drop_one n m e c p = let q : m - n ≡ suc (m - suc n) = omega arith in rw q

module _ (F : Formats) (g : Text) where
  pub Numbered-append :
      (n : ℕ) (c : Contents) (k v : Text)
      → Numbered F g n c
      → k ≡ sequence_key (n + length c)
      → IsPayload F g (n + length c) v
      → Numbered F g n (c ++ (k, v) ∷ [])
  Numbered-append n [] k v h e p =
      (e ∙ ap sequence_key (omega arith), IsPayload-at (omega arith) p, tt)
  Numbered-append n ((j, w) ∷ c) k v h e p = (
    h.0,
    h.1,
    Numbered-append (suc n) c k v h.2 (e ∙ ap sequence_key (omega arith))
        (IsPayload-at (omega arith) p),
  )

  -- The numbers of a queue lie below the one after it.
  pub Numbered-below :
      (n m : ℕ) (c : Contents)
      → Numbered F g n c
      → n + length c ≤ m
      → m < 2 ^ 64
      → All (λ (e : Text × Text). text_lt e.0 (sequence_key m) ≡ true) c
  Numbered-below n m [] h le lt = tt
  Numbered-below n m ((j, w) ∷ c) h le lt = (
    rw (h.0, text_lt-put_uint64 n m (omega arith) lt) (lt→ltb n m (omega arith)),
    Numbered-below (suc n) m c h.2 (omega arith) lt,
  )

  -- No number of the queue is one before it.
  erase-before :
      (n m : ℕ) (c : Contents)
      → Numbered F g n c
      → m < n
      → n + length c ≤ 2 ^ 64
      → erase (sequence_key m) c ≡ c
  unfolding erase
  erase-before n m [] h lt le = refl
  erase-before n m ((j, w) ∷ c) h lt le =
      let differ : text_eq j (sequence_key m) ≡ false =
        rw (h.0, text_eq-put_uint64 n m (omega arith) (omega arith)) (ground arith) in
      rw (differ, erase-before (suc n) m c h.2 (omega arith) (omega arith))

  -- Erasing the first number leaves the others.
  erase-first :
      (n : ℕ) (v : Text) (c : Contents)
      → Numbered F g (suc n) c
      → suc n + length c ≤ 2 ^ 64
      → erase (sequence_key n) ((sequence_key n, v) ∷ c) ≡ c
  unfolding erase
  erase-first n v c h le =
      rw (text_eq_refl (sequence_key n)) (erase-before (suc n) n c h (omega arith) le)

  pub Numbered-drop : (n m : ℕ) (c : Contents) → Numbered F g n c → Numbered F g (n + m) (drop m c)
  Numbered-drop n zero c h = subst (λ i. Numbered F g i c) (omega arith) h
  Numbered-drop n (suc m) [] h = tt
  Numbered-drop n (suc m) (e ∷ c) h =
      subst (λ i. Numbered F g i (drop m c)) (omega arith) (Numbered-drop (suc n) m c h.2)

  -- `Seek` drops the numbers before the one that it looks for.
  pub seek-Numbered :
      (n m : ℕ) (c : Contents)
      → Numbered F g n c
      → m < 2 ^ 64
      → n + length c ≤ 2 ^ 64
      → seek (sequence_key m) c ≡ drop (m - n) c
  unfolding seek
  seek-Numbered n m [] h lt le = sym (drop-nil (m - n))
  seek-Numbered n m ((j, w) ∷ c) h lt le = elim (dec_lt n m) [
    | yes p ↦
        let before : text_lt j (sequence_key m) ≡ true =
          rw (h.0, text_lt-put_uint64 n m (omega arith) lt) (lt→ltb n m p) in
        rw (before, seek-Numbered (suc n) m c h.2 lt (omega arith)) (drop_one n m (j, w) c p)
    | no p ↦
        let there : text_lt j (sequence_key m) ≡ false =
          rw (h.0, text_lt-put_uint64 n m (omega arith) lt) (ge→ltb n m (omega arith)) in
        let q : m - n ≡ 0 = omega arith in rw (there, q)
  ]

  module _ (B : Bolt) where
    deleted :
        (n : ℕ) (j w : Text) (c : Contents) (b : B.Bucket)
        → B.entries b ≡ (j, w) ∷ c
        → Numbered F g n ((j, w) ∷ c)
        → suc n + length c ≤ 2 ^ 64
        → B.entries (B.delete b j) ≡ c
    deleted n j w c b e h le = rw (B.entries-delete b j, e, h.0) (erase-first n w c h.2 le)

    -- The walk of `Ack` removes the numbers up to `through` and no other.
    pub entries-delete_through :
        (n through : ℕ) (c : Contents) (b : B.Bucket)
        → B.entries b ≡ c
        → Numbered F g n c
        → n + length c ≤ 2 ^ 64
        → B.entries (delete_through B through c b) ≡ drop (suc through - n) c
    unfolding delete_through
    entries-delete_through n through [] b e h le = e ∙ sym (drop-nil (suc through - n))
    entries-delete_through n through ((j, w) ∷ c) b e h le = elim (dec_lt through n) [
      | yes p ↦
          let stop : leb (read_uint64 j) through ≡ false =
            rw (h.0, read_uint64-put_uint64 n (omega arith)) (ground arith) in
          let q : suc through - n ≡ 0 = omega arith in rw (stop, q) e
      | no p ↦
          let go : leb (read_uint64 j) through ≡ true =
            rw (h.0, read_uint64-put_uint64 n (omega arith)) (le→leb n through (omega arith)) in
          rw go (
            entries-delete_through (suc n) through c (B.delete b j)
              (deleted n j w c b e h (omega arith)) h.2 (omega arith)
            ∙ drop_one n (suc through) (j, w) c (omega arith))
    ]
