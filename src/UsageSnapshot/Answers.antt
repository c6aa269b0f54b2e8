-- ===== src/UsageSnapshot/Answers.antt =====
-- What `Ack`, `Status`, `Activate` and a failing `Capture` answer, and where `Pull` gets stuck.
use Prim.Native.Nat.{max}
use remnawave_node_go.Base.{
  ℕ, suc, ◌+◌, ◌-◌, ◌^◌, ◌≤◌, ◌<◌, ◌≡◌, refl, ◌∙◌, inl, inr, [], ◌∷◌, arith, Text, text_eq_iff,
  leb→le, ok, if◌then◌else◌, ◌==◌, Bool-cases, leb, length, drop,
}
use remnawave_node_go.Base.BigEndian.{put_uint64, read_uint64-put_uint64, length-big_endian}
use remnawave_node_go.Bolt.{Bolt, Contents}
use remnawave_node_go.UsageSnapshot.Types.{Db, Store, Formats, AckRequest}
use remnawave_node_go.UsageSnapshot.Store.{
  is_active, next_sequence, acked_through, generation, acked_key,
}
use remnawave_node_go.UsageSnapshot.Queue.{ack_tx, status, oldest, delete_through}
use remnawave_node_go.UsageSnapshot.Buckets.{put_checked_lem}
use remnawave_node_go.UsageSnapshot.Sequence.{Numbered}
use remnawave_node_go.UsageSnapshot.Invariant.{IsQueue}
use remnawave_node_go.UsageSnapshot.Acknowledging.{
  Accepted, Advanced, Advanced-others, Advanced-acked, Advanced-entries, ack_tx-eq-ok,
}

module _ (B : Bolt) (F : Formats) where
  -- What an acknowledgement of the numbers up to `through` does.
  pub record Acked (through : ℕ) (old new : Db B) : Type 0 where
    pub acked : acked_through B new ≡ max (acked_through B old) through
    pub removed :
        B.entries new.snapshots ≡ drop (through - acked_through B old) (B.entries old.snapshots)
    pub active : is_active B new ≡ is_active B old
    pub generated : generation B new ≡ generation B old
    pub next : next_sequence B new ≡ next_sequence B old
    pub baseline : new.baseline ≡ old.baseline

  Acked-of-Advanced :
      (through : ℕ) (old new : Db B)
      → IsQueue B F old
      → through < 2 ^ 64
      → Advanced B through old new
      → Acked through old new
  Acked-of-Advanced through old new q lt v =
      let (a, g, n) = Advanced-others B through old new v in
      record {
        acked = omega (arith, Advanced-acked B through old new lt v, v.ahead);
        removed = Advanced-entries B F through old new q v;
        active = a;
        generated = g;
        next = n;
        baseline = v.baseline;
      }

  Acked-behind :
      (through : ℕ) (old new : Db B)
      → through ≤ acked_through B old
      → new ≡ old
      → Acked through old new
  Acked-behind through old new le same =
      let nothing : through - acked_through B old ≡ 0 = omega arith in
      record {
        acked = rw same (omega arith);
        removed = rw (same, nothing);
        active = rw same;
        generated = rw same;
        next = rw same;
        baseline = rw same;
      }

  acked_db : Db B → ℕ → Db B
  acked_db old through = record old {
    meta = B.put old.meta acked_key (put_uint64 through);
    snapshots = delete_through B through (B.entries old.snapshots) old.snapshots;
  }

  ack_tx_branches :
      (request : AckRequest) (old : Db B)
      → Accepted B request old
      → ack_tx B request old ≡ (
          if leb request.through_sequence (acked_through B old)
          then ok (tt, old)
          else ok (tt, acked_db old request.through_sequence))
  unfolding ack_tx acked_db
  ack_tx_branches request old a = ground (
    arith,
    text_eq_iff request.generation (generation B old),
    put_checked_lem B old.meta acked_key (put_uint64 request.through_sequence) (omega arith)
        (omega arith) (omega (arith, length-big_endian 8 request.through_sequence)),
  )

  acked :
      (request : AckRequest) (old : Db B) {new : Db B}
      → IsQueue B F old
      → Accepted B request old
      → ack_tx B request old ≡ ok (tt, new)
      → Acked request.through_sequence old new
  acked request old {new} q a h = elim (ack_tx-eq-ok B request old new h).1 [
    | inl (le, same) ↦ Acked-behind request.through_sequence old new le same
    | inr v ↦
        Acked-of-Advanced request.through_sequence old new q (ground (arith, a.reached, q.bounded))
          v
  ]

  -- A request that names the current generation, not blank, and no number beyond the latest is
  -- acknowledged: the pending snapshots up to the number are removed and no other, and the last
  -- acknowledged number becomes the larger of the two. Nothing else changes.
  pub ack_tx-Acked :
      (request : AckRequest) (old : Db B)
      → IsQueue B F old
      → Accepted B request old
      → (new : Db B) × (ack_tx B request old ≡ ok (tt, new))
        × Acked request.through_sequence old new
  ack_tx-Acked request old q a =
      elim (Bool-cases (leb request.through_sequence (acked_through B old))) [
        | inl seen ↦ (
          old,
          ack_tx_branches request old a ∙ rw seen,
          Acked-behind request.through_sequence old old (leb→le _ _ seen) refl,
        )
        | inr ahead ↦
            let e = ack_tx_branches request old a ∙ rw ahead refl in
            (acked_db old request.through_sequence, e, acked request old q a e)
      ]

  oldest-Numbered :
      (g : Text) (n : ℕ) (c : Contents)
      → Numbered F g n c
      → n < 2 ^ 64
      → oldest B c ≡ (if length c == 0 then 0 else n)
  unfolding oldest
  oldest-Numbered g n [] h lt = refl
  oldest-Numbered g n ((k, v) ∷ c) h lt = rw h.0 (read_uint64-put_uint64 n lt ∙ ground arith)

  -- The status of a consistent active file: as many snapshots are pending as there are numbers
  -- between the last acknowledged and the latest, and the oldest is the first of these.
  pub status_lem :
      (s : Store B)
      → IsQueue B F s.db
      → let t = status B s in
        (t.acked_through + t.pending ≡ t.latest_sequence)
        × (t.oldest_sequence ≡ (if t.pending == 0 then 0 else t.acked_through + 1))
  unfolding status
  status_lem s q = (
    ground (arith, q.counted),
    oldest-Numbered (generation B s.db) (suc (acked_through B s.db)) (B.entries s.db.snapshots)
          q.numbered (omega (arith, q.counted, q.bounded))
        ∙ ground arith,
  )
