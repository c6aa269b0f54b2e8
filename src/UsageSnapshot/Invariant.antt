-- ===== src/UsageSnapshot/Invariant.antt =====
-- The queue's invariant: in an active file the pending snapshots are those numbered from the one
-- after the last acknowledged to the one before the next, in order, each encoding its own number and
-- the current generation; an inactive file has none.
use mathlib.Core.Bool.{false≢true}
use remnawave_node_go.Base.{
  ℕ, suc, ◌+◌, ◌^◌, ◌<◌, ◌≡◌, refl, sym, ap, subst, ◌∙◌, Bool, true, false, List, [], ◌∷◌, ◌++◌,
  arith, Text, text_eq, Result, ok, Bool-cases, length, length-append, inl, inr, add_word,
}
use remnawave_node_go.Base.BigEndian.{put_uint64, read_uint64, read_uint64-put_uint64}
use remnawave_node_go.Bolt.{Bolt}
use remnawave_node_go.UsageSnapshot.Types.{Counter, Db, Formats}
use remnawave_node_go.UsageSnapshot.Capture.{get_text}
use remnawave_node_go.UsageSnapshot.Store.{
  generation_key, next_sequence_key, acked_key, last_captured_key, sequence_key, is_active,
  next_sequence, acked_through, generation, activate_tx, capture_tx,
}
use remnawave_node_go.UsageSnapshot.Buckets.{get_text-put, insert-last}
use remnawave_node_go.UsageSnapshot.Sequence.{Numbered, Numbered-append, Numbered-below}
use remnawave_node_go.UsageSnapshot.Activation.{Activated, activate_tx-eq-ok}
use remnawave_node_go.UsageSnapshot.Capturing.{
  Captured, quiet, queued, snapshot_of, capture_tx-eq-ok,
}

pub record IsQueue (B : Bolt) (F : Formats) (db : Db B) : Type 0 where
  pub numbered : Numbered F (generation B db) (suc (acked_through B db)) (B.entries db.snapshots)
  pub counted : suc (acked_through B db) + length (B.entries db.snapshots) ≡ next_sequence B db
  pub bounded : next_sequence B db < 2 ^ 64

pub record IsConsistent (B : Bolt) (F : Formats) (db : Db B) : Type 0 where
  pub live : is_active B db ≡ true → IsQueue B F db
  pub idle : is_active B db ≡ false → B.entries db.snapshots ≡ []

module _ (B : Bolt) (F : Formats) where
  -- A queue is moved along equations of what it is made of.
  IsQueue-at :
      {old new : Db B}
      → generation B old ≡ generation B new
      → acked_through B old ≡ acked_through B new
      → next_sequence B old ≡ next_sequence B new
      → B.entries old.snapshots ≡ B.entries new.snapshots
      → IsQueue B F old
      → IsQueue B F new
  IsQueue-at {old} {new} g a n s q = record {
    numbered = rw (← g, ← a, ← s) q.numbered;
    counted = rw (← a, ← n, ← s) q.counted;
    bounded = rw (← n) q.bounded;
  }

  Activated-IsQueue :
      {counters : List Counter} {old new : Db B} {bytes : Text}
      → Activated B counters old new bytes
      → IsQueue B F new
  Activated-IsQueue v = record {
    numbered = rw v.drained tt;
    counted = rw (v.drained, v.acked, v.next);
    bounded = rw v.next (omega arith);
  }

  queued-IsQueue :
      (core payload : Text) (deltas : List Counter) (now : ℕ) (old new : Db B)
      → IsQueue B F old
      → next_sequence B old + 1 < 2 ^ 64
      → F.marshal (snapshot_of B F core deltas now old) ≡ ok payload
      → new.snapshots ≡ B.put old.snapshots (sequence_key (next_sequence B old)) payload
      → new.meta
        ≡ B.put
            (B.put old.meta next_sequence_key (put_uint64 (add_word (next_sequence B old) 1)))
            last_captured_key
            (F.rfc3339 now)
      → IsQueue B F new
  unfolding text_eq
  queued-IsQueue core payload deltas now old new q room m s e = record {
    numbered =
        rw (entries, g, a)
          (Numbered-append F (generation B old) (suc (acked_through B old))
            (B.entries old.snapshots) (sequence_key (next_sequence B old)) payload q.numbered
            (ap sequence_key (sym q.counted))
            (record {
              snapshot = snapshot_of B F core deltas now old;
              encoded = m;
              numbered = sym q.counted;
              generated = refl;
            }));
    counted =
        rw
          (
            entries,
            a,
            n,
            length-append (B.entries old.snapshots)
                ((sequence_key (next_sequence B old), payload) ∷ []),
          )
          (omega (arith, q.counted));
    bounded = rw n room;
  }
    where
      entries :
          B.entries new.snapshots
          ≡ B.entries old.snapshots ++ (sequence_key (next_sequence B old), payload) ∷ []
      entries =
          rw (s, B.entries-put old.snapshots (sequence_key (next_sequence B old)) payload)
            (insert-last (sequence_key (next_sequence B old)) payload (B.entries old.snapshots) (
              Numbered-below F (generation B old) (suc (acked_through B old)) (next_sequence B old)
                (B.entries old.snapshots) q.numbered (omega (arith, q.counted)) q.bounded))

      g : generation B new ≡ generation B old
      g = rw e (simp get_text-put)

      a : acked_through B new ≡ acked_through B old
      a = rw e (simp get_text-put)

      n : next_sequence B new ≡ next_sequence B old + 1
      n = rw e (
          simp get_text-put
            (read_uint64-put_uint64 (add_word (next_sequence B old) 1) (omega arith) ∙ omega arith))

  -- The activity flag is the same where the other keys alone were written.
  queued-is_active :
      (old new : Db B) (next stamp : Text)
      → new.meta ≡ B.put (B.put old.meta next_sequence_key next) last_captured_key stamp
      → is_active B new ≡ is_active B old
  unfolding text_eq
  queued-is_active old new next stamp e = rw e (simp get_text-put)

  pub IsConsistent-of-live :
      (db : Db B) → is_active B db ≡ true → IsQueue B F db → IsConsistent B F db
  IsConsistent-of-live db a q = record {
    live = λ _. q;
    idle = λ i. absurd (false≢true (sym i ∙ a));
  }

  -- `Activate` leaves a consistent file, whatever the file held if it was not active.
  pub activate_tx-IsConsistent :
      (random : Result Text) (counters : List Counter) (old new : Db B)
      → IsConsistent B F old
      → activate_tx B random counters old ≡ ok (tt, new)
      → IsConsistent B F new
  activate_tx-IsConsistent random counters old new c h = elim (Bool-cases (is_active B old)) [
    | inl a ↦
        let same : old ≡ new = unfold activate_tx in ground arith in subst (IsConsistent B F) same c
    | inr i ↦
        let (bytes, e, v) = activate_tx-eq-ok B random counters old new i h in
        IsConsistent-of-live new v.active (Activated-IsQueue v)
  ]

  Captured-IsConsistent :
      (max_bytes : ℕ) (core : Text) (deltas : List Counter) (now : ℕ) (old new : Db B)
      → is_active B old ≡ true
      → IsQueue B F old
      → next_sequence B old + 1 < 2 ^ 64
      → Captured B F max_bytes core now deltas old new
      → IsConsistent B F new
  Captured-IsConsistent max_bytes core deltas now old new a q room (quiet d m s) =
      let same = λ (k : Text). ap (λ (x : B.Bucket). get_text B x k) (sym m) in
      IsConsistent-of-live new (rw m a) (
        IsQueue-at (same generation_key) (ap read_uint64 (same acked_key))
          (ap read_uint64 (same next_sequence_key)) (ap B.entries (sym s)) q)
  Captured-IsConsistent max_bytes core deltas now old new a q room (queued payload d m fits s e) =
      IsConsistent-of-live new (queued-is_active old new _ _ e ∙ a)
        (queued-IsQueue core payload deltas now old new q room m s e)

  -- `Capture` keeps the file consistent while there are sequence numbers left.
  pub capture_tx-IsConsistent :
      (max_bytes : ℕ) (core : Text) (counters : List Counter) (now : ℕ) (reset : Bool)
      (old new : Db B)
      → IsConsistent B F old
      → next_sequence B old + 1 < 2 ^ 64
      → capture_tx B F max_bytes core counters now reset old ≡ ok (tt, new)
      → IsConsistent B F new
  capture_tx-IsConsistent max_bytes core counters now reset old new c room h =
      let (deltas, a, e, k) = capture_tx-eq-ok B F max_bytes core counters now reset old new h in
      Captured-IsConsistent max_bytes core deltas now old new a (c.live a) room k
