-- ===== src/UsageSnapshot/Deltas.antt =====
-- The traffic that captures report: what one counter contributes, and that no byte is lost or
-- reported twice between the baseline and the snapshots.
use remnawave_node_go.Base.{
  ℕ, ◌+◌, ◌-◌, ◌^◌, ◌≤◌, ◌<◌, ◌≡◌, refl, sym, ap, subst, ◌∙◌, Bool, false, not, ◌&&◌, ◌||◌, List,
  [], ◌∷◌, ◌++◌, arith, Text, codes, text_eq, text_eq_iff, ok, >>=-eq-ok, if◌then◌else◌, Bool-cases,
  ltb, inl, inr,
}
use remnawave_node_go.Base.BigEndian.{read_uint64-put_uint64}
use remnawave_node_go.Bolt.{Bolt}
use remnawave_node_go.UsageSnapshot.Types.{Counter, counter_key}
use remnawave_node_go.UsageSnapshot.Capture.{
  decode_int64, encode_int64, counter_delta, add_delta, put_checked, get_text, capture_counters,
}
use remnawave_node_go.UsageSnapshot.Buckets.{get_text-put, put_checked-eq-ok}

abbrev pub is_forwarding : Counter → Bool
is_forwarding c = text_eq c.kind (codes "forwarding")

-- For a counter and a baseline that are not negative: a counter that has not gone back reports its
-- growth, unless the core was reset and the counter is the core's; any other counter reports its
-- whole value. So no more is reported than the counter has counted.
pub counter_delta_lem :
    (reset : Bool) (c : Counter) (previous : ℕ)
    → c.value < 2 ^ 63
    → previous < 2 ^ 63
    → (counter_delta reset c previous ≡ (
        if reset && not (is_forwarding c) || ltb c.value previous
        then c.value
        else c.value - previous))
      × (counter_delta reset c previous ≤ c.value)
unfolding counter_delta
counter_delta_lem reset c previous hv hp = ground arith

-- What the deltas report for the counter of key `k`.
unfoldable pub reported : Text → List Counter → ℕ
reported k [] = 0
reported k (d ∷ ds) = (if text_eq (counter_key d) k then d.value else 0) + reported k ds

pub reported-nil : (k : Text) → reported k [] ≡ 0
unfolding reported
reported-nil k = refl

reported-append :
    (k : Text) (ds es : List Counter) → reported k (ds ++ es) ≡ reported k ds + reported k es
unfolding reported
reported-append k [] es = omega arith
reported-append k (d ∷ ds) es = omega (arith, reported-append k ds es)

counter_key-delta : (c : Counter) (v : ℕ) → counter_key (record c { value = v }) ≡ counter_key c
unfolding counter_key
counter_key-delta c v = refl

reported-add_delta :
    (k : Text) (c : Counter) (delta : ℕ) (ds : List Counter)
    → delta < 2 ^ 63
    → reported k (add_delta c delta ds)
      ≡ reported k ds + (if text_eq (counter_key c) k then delta else 0)
unfolding add_delta reported
reported-add_delta k c delta ds h =
    ground
      (arith, reported-append k ds (record c { value = delta } ∷ []), counter_key-delta c delta)

module _ (B : Bolt) where
  -- The baseline's value of a counter.
  abbrev pub value_at : B.Bucket → Text → ℕ
  value_at b k = decode_int64 (get_text B b k)

  -- Each counter, when the loop comes to it, is at or above its baseline.
  abbrev pub Grow : List Counter → B.Bucket → Type 0
  Grow [] b = Unit
  Grow (c ∷ cs) b =
      (value_at b (counter_key c) ≤ c.value)
      × (c.value < 2 ^ 63)
      × Grow cs (B.put b (counter_key c) (encode_int64 c.value))

  value_at-put :
      (b : B.Bucket) (k j : Text) (v : ℕ)
      → v < 2 ^ 63
      → value_at (B.put b k (encode_int64 v)) j ≡ (if text_eq k j then v else value_at b j)
  value_at-put b k j v h =
      rw (get_text-put B b k (encode_int64 v) j)
        (ground (arith, read_uint64-put_uint64 v (omega arith)))

  -- One step of the loop: what is added to the deltas is what the baseline moves by.
  one_counter :
      (c : Counter) (previous after : ℕ) (ds : List Counter) (b : B.Bucket) (k : Text) (final : ℕ)
      → previous ≤ c.value
      → c.value < 2 ^ 63
      → value_at b (counter_key c) ≡ previous
      → after + value_at (B.put b (counter_key c) (encode_int64 c.value)) k
        ≡ reported k (add_delta c (counter_delta false c previous) ds) + final
      → after + value_at b k ≡ reported k ds + final
  one_counter c previous after ds b k final le lt p rest =
      let delta : counter_delta false c previous ≡ c.value - previous =
        ground (arith, counter_delta_lem false c previous lt (omega arith)) in
      let rest' =
        rw
          (
            delta,
            value_at-put b (counter_key c) k c.value lt,
            reported-add_delta k c (c.value - previous) ds (omega arith),
          )
          at rest in
      elim (Bool-cases (text_eq (counter_key c) k)) [
        | inl same ↦
            let at_k : value_at b k ≡ previous =
              ap (value_at b) (sym ((text_eq_iff (counter_key c) k).0 same)) ∙ p in
            let rest'' = rw same at rest' in omega (arith, at_k, rest'')
        | inr other ↦ let rest'' = rw other at rest' in omega (arith, rest'')
      ]

  pub capture_counters-conserves :
      (cs ds ds' : List Counter) (b b' : B.Bucket) (k : Text)
      → Grow cs b
      → capture_counters B false cs ds b ≡ ok (ds', b')
      → reported k ds' + value_at b k ≡ reported k ds + value_at b' k
  unfolding capture_counters
  capture_counters-conserves [] ds ds' b b' k g h =
      let same : (ds ≡ ds') × (b ≡ b') = ground arith in rw (same.0, same.1)
  capture_counters-conserves (c ∷ cs) ds ds' b b' k g h =
      let key = counter_key c in
      let previous = value_at b key in
      let delta = counter_delta false c previous in
      let (b1, e, h1) =
        >>=-eq-ok (put_checked B b key (encode_int64 c.value))
          (λ b1. capture_counters B false cs (add_delta c delta ds) b1) h in
      let h2 =
        subst (λ x. capture_counters B false cs (add_delta c delta ds) x ≡ ok (ds', b'))
          (put_checked-eq-ok B b key (encode_int64 c.value) e) h1 in
      one_counter c previous (reported k ds') ds b k (value_at b' k) g.0 g.1 refl (
        capture_counters-conserves cs (add_delta c delta ds) ds'
          (B.put b key (encode_int64 c.value)) b' k g.2 h2)
