-- ===== src/UsageSnapshot/Acknowledging.antt =====
-- What `Ack` does to the queue, on every branch.
use remnawave_node_go.Base.{
  ℕ, suc, ◌+◌, ◌-◌, ◌^◌, ◌≤◌, ◌<◌, ◌≡◌, refl, sym, ap, subst, ◌∙◌, ◌⊎◌, inl, inr, false, [], arith,
  text_eq, text_eq_iff, ok, Bool-cases, drop, length-drop, leb, is_empty,
}
use remnawave_node_go.Base.BigEndian.{put_uint64, read_uint64-put_uint64}
use remnawave_node_go.Bolt.{Bolt}
use remnawave_node_go.UsageSnapshot.Types.{Db, Formats, AckRequest}
use remnawave_node_go.UsageSnapshot.Capture.{put_checked}
use remnawave_node_go.UsageSnapshot.Store.{
  acked_key, is_active, next_sequence, acked_through, generation,
}
use remnawave_node_go.UsageSnapshot.Queue.{ack_tx, latest_of, delete_through}
use remnawave_node_go.UsageSnapshot.Buckets.{get_text-put}
use remnawave_node_go.UsageSnapshot.Sequence.{Numbered-drop, entries-delete_through}
use remnawave_node_go.UsageSnapshot.Invariant.{IsQueue, IsConsistent}

-- What an accepted acknowledgement has checked.
pub record Accepted (B : Bolt) (request : AckRequest) (old : Db B) : Type 0 where
  pub named : is_empty request.generation ≡ false
  pub current : request.generation ≡ generation B old
  pub reached : request.through_sequence ≤ latest_of (next_sequence B old)

-- What it has written, if it is ahead of the last one.
pub record Advanced (B : Bolt) (through : ℕ) (old new : Db B) : Type 0 where
  pub ahead : acked_through B old < through
  pub meta : new.meta ≡ B.put old.meta acked_key (put_uint64 through)
  pub baseline : new.baseline ≡ old.baseline
  pub snapshots : new.snapshots ≡ delete_through B through (B.entries old.snapshots) old.snapshots

module _ (B : Bolt) where
  pub ack_tx-eq-ok :
      (request : AckRequest) (old new : Db B)
      → ack_tx B request old ≡ ok (tt, new)
      → Accepted B request old
        × ((request.through_sequence ≤ acked_through B old) × (new ≡ old)
            ⊎ Advanced B request.through_sequence old new)
  unfolding ack_tx put_checked
  ack_tx-eq-ok request old new h = (
    ground (arith, text_eq_iff request.generation (generation B old)),
    elim (Bool-cases (leb request.through_sequence (acked_through B old))) [
      | inl seen ↦ inl (ground arith, ground arith)
      | inr ahead ↦ inr (ground arith)
    ],
  )

  -- No acknowledgement touches the baseline.
  pub ack_tx-baseline :
      (request : AckRequest) (old new : Db B)
      → ack_tx B request old ≡ ok (tt, new)
      → new.baseline ≡ old.baseline
  ack_tx-baseline request old new h = elim (ack_tx-eq-ok request old new h).1 [
    | inl (_, same) ↦ ap (λ (d : Db B). d.baseline) same
    | inr v ↦ v.baseline
  ]

  pub Advanced-acked :
      (through : ℕ) (old new : Db B)
      → through < 2 ^ 64
      → Advanced B through old new
      → acked_through B new ≡ through
  unfolding text_eq
  Advanced-acked through old new lt v =
      rw v.meta (simp get_text-put (read_uint64-put_uint64 through lt))

  pub Advanced-others :
      (through : ℕ) (old new : Db B)
      → Advanced B through old new
      → (is_active B new ≡ is_active B old)
        × (generation B new ≡ generation B old)
        × (next_sequence B new ≡ next_sequence B old)
  unfolding text_eq
  Advanced-others through old new v =
      (rw v.meta (simp get_text-put), rw v.meta (simp get_text-put), rw v.meta (simp get_text-put))

  delete_through-nil :
      (through : ℕ) (b : B.Bucket)
      → B.entries b ≡ []
      → B.entries (delete_through B through (B.entries b) b) ≡ []
  unfolding delete_through
  delete_through-nil through b e = rw e e

  module _ (F : Formats) where
    -- The queue without its first `through - acked` snapshots.
    pub Advanced-entries :
        (through : ℕ) (old new : Db B)
        → IsQueue B F old
        → Advanced B through old new
        → B.entries new.snapshots ≡ drop (through - acked_through B old) (B.entries old.snapshots)
    Advanced-entries through old new q v =
        let shift : suc through - suc (acked_through B old) ≡ through - acked_through B old =
          omega arith in
        rw (v.snapshots, ← shift)
          (entries-delete_through F (generation B old) B (suc (acked_through B old)) through
            (B.entries old.snapshots) old.snapshots refl q.numbered
            (omega (arith, q.counted, q.bounded)))

    Advanced-IsQueue :
        (through : ℕ) (old new : Db B)
        → IsQueue B F old
        → through ≤ latest_of (next_sequence B old)
        → Advanced B through old new
        → IsQueue B F new
    Advanced-IsQueue through old new q reached v =
        let (_, g, n) = Advanced-others through old new v in
        let top : through < next_sequence B old = ground (arith, q.counted) in
        let a = Advanced-acked through old new (omega (arith, q.bounded)) v in
        let s = Advanced-entries through old new q v in
        let moved =
          Numbered-drop F (generation B old) (suc (acked_through B old))
            (through - acked_through B old) (B.entries old.snapshots) q.numbered in
        let start : suc (acked_through B old) + (through - acked_through B old) ≡ suc through =
          omega (arith, v.ahead) in
        record {
          numbered = rw (s, g, a) (rw start at moved);
          counted =
              rw (s, a, n, length-drop (through - acked_through B old) (B.entries old.snapshots))
                (omega (arith, q.counted, v.ahead));
          bounded = rw n q.bounded;
        }

    -- `Ack` keeps the file consistent.
    pub ack_tx-IsConsistent :
        (request : AckRequest) (old new : Db B)
        → IsConsistent B F old
        → ack_tx B request old ≡ ok (tt, new)
        → IsConsistent B F new
    ack_tx-IsConsistent request old new c h =
        let (checked, outcome) = ack_tx-eq-ok request old new h in
        elim outcome [
          | inl (_, same) ↦ subst (IsConsistent B F) (sym same) c
          | inr v ↦ record {
            live = λ a.
                Advanced-IsQueue request.through_sequence old new
                  (c.live (sym (Advanced-others request.through_sequence old new v).0 ∙ a))
                  checked.reached v;
            idle = λ i. rw v.snapshots (
                delete_through-nil request.through_sequence old.snapshots
                  (c.idle (sym (Advanced-others request.through_sequence old new v).0 ∙ i)));
          }
        ]
