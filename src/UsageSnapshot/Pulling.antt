-- ===== src/UsageSnapshot/Pulling.antt =====
-- What `Pull` hands out of a consistent file.
use Prim.Native.Nat.{max}
use mathlib.Core.Bool.{false≢true}
use mathlib.Core.List.{append-nil, append_assoc}
use remnawave_node_go.Base.{
  ℕ, suc, All, ◌+◌, ◌-◌, ◌≤◌, ◌<◌, ◌≡◌, refl, sym, ◌∙◌, Bool, true, false, ◌||◌, List, [], ◌∷◌,
  ◌++◌, arith, Text, ok, if◌then◌else◌, Bool-cases, leb, ltb, inl, inr, length, length-append,
}
use remnawave_node_go.Bolt.{Bolt, Contents}
use remnawave_node_go.UsageSnapshot.Types.{Snapshot, Db, Store, Formats, PullResponse}
use remnawave_node_go.UsageSnapshot.Store.{next_sequence, acked_through, generation}
use remnawave_node_go.UsageSnapshot.Queue.{pull_loop}
use remnawave_node_go.UsageSnapshot.Sequence.{Numbered}

-- `shots` are the snapshots numbered from `n`, of generation `g`.
abbrev pub Run : Text → ℕ → List Snapshot → Type 0
Run g n [] = Unit
Run g n (s ∷ shots) = (s.sequence ≡ n) × (s.generation ≡ g) × Run g (suc n) shots

-- What the loop of `Pull` makes of a queue that starts at `n`: the first snapshots, and whether any
-- is left.
pub record Pulled (g : Text) (n limit : ℕ) (c : Contents) (taken shots : List Snapshot)
    (more : Bool) : Type 0 where
  pub fresh : List Snapshot
  pub appended : shots ≡ taken ++ fresh
  pub in_order : Run g n fresh
  pub within : length fresh ≤ length c
  pub limited : length taken ≤ limit → length shots ≤ limit
  pub all : more ≡ false → length fresh ≡ length c
  pub rest : more ≡ true → length fresh < length c

-- The snapshots whose texts the payloads are have valid texts.
abbrev pub AllValid : (F : Formats) → Contents → Type 0
AllValid F c = All (λ (e : Text × Text). (s : Snapshot) → F.marshal s ≡ ok e.1 → F.Valid s) c

module _ (F : Formats) (g : Text) where
  -- The loop's result on one payload more.
  pull_loop-cons :
      (limit max_bytes : ℕ) (k v : Text) (c : Contents) (taken : List Snapshot) (used : ℕ)
      (s : Snapshot)
      → F.unmarshal v ≡ ok s
      → pull_loop F limit max_bytes ((k, v) ∷ c) taken used ≡ (
          if leb limit (length taken) || ltb max_bytes (used + length v)
          then ok (taken, true)
          else pull_loop F limit max_bytes c (taken ++ s ∷ []) (used + length v))
  unfolding pull_loop
  pull_loop-cons limit max_bytes k v c taken used s e = rw e

  Pulled-cons :
      (n limit : ℕ) (k v : Text) (c : Contents) (taken shots : List Snapshot) (more : Bool)
      (s : Snapshot)
      → s.sequence ≡ n
      → s.generation ≡ g
      → length taken < limit
      → Pulled g (suc n) limit c (taken ++ s ∷ []) shots more
      → Pulled g n limit ((k, v) ∷ c) taken shots more
  Pulled-cons n limit k v c taken shots more s e e' lt p = record {
    fresh = s ∷ p.fresh;
    appended = p.appended ∙ append_assoc taken (s ∷ []) p.fresh;
    in_order = (e, e', p.in_order);
    within = omega (arith, p.within);
    limited = λ le. p.limited (omega (arith, length-append taken (s ∷ [])));
    all = λ m. omega (arith, p.all m);
    rest = λ m. omega (arith, p.rest m);
  }

  -- On a queue the loop always returns: each payload decodes.
  pub pull_loop-Pulled :
      (limit max_bytes n : ℕ) (c : Contents) (taken : List Snapshot) (used : ℕ)
      → Numbered F g n c
      → AllValid F c
      → (shots : List Snapshot) × (more : Bool) × (pull_loop F limit max_bytes c taken used
          ≡ ok (shots, more))
        × Pulled g n limit c taken shots more
  pull_loop-Pulled limit max_bytes n [] taken used q valid = (
    taken,
    false,
    unfold pull_loop in refl,
    record {
      fresh = [];
      appended = sym (append-nil taken);
      in_order = tt;
      within = omega arith;
      limited = λ le. le;
      all = λ m. refl;
      rest = λ m. absurd (false≢true m);
    },
  )
  pull_loop-Pulled limit max_bytes n ((k, v) ∷ c) taken used q valid =
      let p = q.1 in
      let decoded = F.round_trip p.snapshot v (valid.0 p.snapshot p.encoded) p.encoded in
      elim (Bool-cases (leb limit (length taken) || ltb max_bytes (used + length v))) [
        | inl full ↦ (
          taken,
          true,
          rw (pull_loop-cons limit max_bytes k v c taken used p.snapshot decoded, full),
          record {
            fresh = [];
            appended = sym (append-nil taken);
            in_order = tt;
            within = omega arith;
            limited = λ le. le;
            all = λ m. absurd (false≢true (sym m));
            rest = λ m. omega arith;
          },
        )
        | inr room ↦
            let (shots, more, e, r) =
              pull_loop-Pulled limit max_bytes (suc n) c (taken ++ p.snapshot ∷ [])
                (used + length v) q.2 valid.1 in
            (
              shots,
              more,
              rw (pull_loop-cons limit max_bytes k v c taken used p.snapshot decoded, room) e,
              Pulled-cons n limit k v c taken shots more p.snapshot p.numbered p.generated
                  (ground arith) r,
            )
      ]

-- A pull's answer to a file whose queue is `db`, for the snapshots after `after`.
pub record Delivered (B : Bolt) (db : Db B) (after : ℕ) (r : PullResponse) : Type 0 where
  pub generated : r.generation ≡ generation B db
  -- the first number that is both unacknowledged and after `after`
  pub in_order : Run (generation B db) (suc (max (acked_through B db) after)) r.snapshots
  pub few : length r.snapshots ≤ 500
  -- there are more exactly where these are not all that are pending after that
  pub within : length r.snapshots ≤ next_sequence B db - suc (max (acked_through B db) after)
  pub complete :
      r.has_more
      ≡ ltb (length r.snapshots) (next_sequence B db - suc (max (acked_through B db) after))
