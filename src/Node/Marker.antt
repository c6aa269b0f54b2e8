-- ===== src/Node/Marker.antt =====
-- The marker of a core's restart: no capture loses it.
use remnawave_node_go.Base.{
  ◌≡◌, ◌⊎◌, inl, inr, refl, sym, ap, ◌∙◌, subst, Bool, true, false, not, ◌&&◌, ◌||◌, Option, none,
  some, Error, Result, ok, err, Bool-cases,
}
use remnawave_node_go.Bolt.{Bolt}
use remnawave_node_go.UsageSnapshot.Types.{Formats, Store}
use remnawave_node_go.UsageSnapshot.Store.{capture}
use remnawave_node_go.UsageSnapshot.Queue.{active}
use remnawave_node_go.UsageSnapshot.Failures.{capture_fails}
use remnawave_node_go.Node.Usage.{
  Sample, Sampled, failed, sampled, UsageError, Around, Usage, core_name, is_not_active,
  after_capture, capture_sample, capture_active, capture_usage_snapshot, current_usage_counters,
}
use remnawave_node_go.Node.Complete.{AllRead, sample_read}

unfoldable pub answers_not_active : Result (Unit {0}) → Bool
answers_not_active (err e) = is_not_active e
answers_not_active (ok _) = false

and_true : (b : Bool) → (b && true) ≡ true → b ≡ true
and_true true h = refl
and_true false h = h

both : (b r : Bool) → (b && r || not b && r) ≡ r
both true true = refl
both true false = refl
both false r = refl

module _ {B : Bolt} (F : Formats) where
  -- All the counters were read, and one capture of them that was told of the restart succeeded.
  pub record Consumed (a : Around) (commit : Option Error) (old new : Usage B) : Type 0 where
    pub store : Store B
    pub had : old.snapshots ≡ some store
    pub sample : Sample
    pub taken : current_usage_counters a ≡ sampled sample
    pub complete : AllRead a sample.counters
    pub stored_well :
        (capture B F commit (core_name a.running) sample.counters a.now true store).1 ≡ ok tt
    pub stored :
        new.snapshots
        ≡ some (capture B F commit (core_name a.running) sample.counters a.now true store).0

  unfoldable pub disowned_sample : Around → Option Error → Store B → Bool → Sampled → Bool
  disowned_sample a commit s restarted (failed e) = false
  disowned_sample a commit s restarted (sampled m) =
      answers_not_active
        (capture B F commit (core_name a.running) m.counters a.now (m.core_complete && restarted)
          s).1

  -- The store, although it is active, answers that it is not to a capture that is told of a restart
  -- where the sample is complete.
  unfoldable pub disowned_at : Around → Option Error → Option (Store B) → Bool
  disowned_at a commit none = false
  disowned_at a commit (some s) = disowned_sample a commit s true (current_usage_counters a)

  after_capture_fails :
      (marker kept : Bool) (x : Store B × Result (Unit {0})) (s : Store B) {e : UsageError}
      → ((f : Error) → x.1 ≡ err f → x.0 ≡ s)
      → (after_capture F marker kept x).1 ≡ some e
      → (after_capture F marker kept x).0
        ≡ record { snapshots = some s; restarted = marker || kept }
  unfolding after_capture
  after_capture_fails marker kept (t, ok _) s same h = cc
  after_capture_fails marker kept (t, err f) s same h = elim (Bool-cases (is_not_active f)) [
    | inl idle ↦ let h' = simp idle at h in cc
    | inr busy ↦ simp busy (
        ap (λ (y : Store B). record { snapshots = some y; restarted = marker || kept })
          (same f refl))
  ]

  capture_sample_fails :
      (a : Around) (commit : Option Error) (s : Store B) (r : Bool) (m : Sampled) {e : UsageError}
      → (capture_sample F a commit s r m).1 ≡ some e
      → (capture_sample F a commit s r m).0 ≡ record { snapshots = some s; restarted = r }
  unfolding capture_sample
  capture_sample_fails a commit s r (failed f) h = refl
  capture_sample_fails a commit s r (sampled m) h = elim (Bool-cases m.capturing) [
    | inl on ↦ simp on (
        after_capture_fails (m.core_complete && r) (not m.core_complete && r) _ s
          (λ f g.
            capture_fails B F commit (core_name a.running) m.counters a.now (m.core_complete && r) s
              g)
          (simp on at h)
        ∙ ap (λ (b : Bool). record { snapshots = some s; restarted = b }) (both m.core_complete r))
    | inr off ↦ simp off refl
  ]

  capture_active_fails :
      (a : Around) (commit : Option Error) (u : Usage B) (o : Option (Store B)) {e : UsageError}
      → u.snapshots ≡ o
      → (capture_active F a commit u o).1 ≡ some e
      → (capture_active F a commit u o).0 ≡ u
  unfolding capture_active
  capture_active_fails a commit u none k h = refl
  capture_active_fails a commit u (some s) k h = elim (Bool-cases (active B s)) [
    | inl on ↦ simp on (
        capture_sample_fails a commit s u.restarted (current_usage_counters a) (simp on at h)
        ∙ ap (λ (o : Option (Store B)). record { snapshots = o; restarted = u.restarted }) (sym k))
    | inr off ↦ simp off refl
  ]

  -- A capture that returns an error leaves the store and the marker of a restart as they were.
  pub capture_usage_snapshot_fails :
      (a : Around) (commit : Option Error) (u : Usage B) {e : UsageError}
      → (capture_usage_snapshot F a commit u).1 ≡ some e
      → (capture_usage_snapshot F a commit u).0 ≡ u
  unfolding capture_usage_snapshot
  capture_usage_snapshot_fails a commit u h = capture_active_fails a commit u u.snapshots refl h

  after_capture_keeps :
      (marker kept : Bool) (x : Store B × Result (Unit {0}))
      → (marker || kept) ≡ true
      → answers_not_active x.1 ≡ false
      → ((after_capture F marker kept x).0.restarted ≡ true)
        ⊎ ((marker ≡ true)
            × (x.1 ≡ ok tt)
            × ((after_capture F marker kept x).0.snapshots ≡ some x.0))
  unfolding after_capture answers_not_active
  after_capture_keeps true kept (s, ok _) h k = inr (refl, refl, refl)
  after_capture_keeps false kept (s, ok _) h k = inl h
  after_capture_keeps marker kept (s, err e) h k = inl (simp k h)

  capture_active_keeps :
      (a : Around) (commit : Option Error) (u : Usage B) (s : Store B) (m : Sampled)
      → u.snapshots ≡ some s
      → current_usage_counters a ≡ m
      → disowned_sample a commit s true m ≡ false
      → ((capture_sample F a commit s true m).0.restarted ≡ true)
        ⊎ Consumed a commit u (capture_sample F a commit s true m).0
  unfolding capture_sample disowned_sample
  capture_active_keeps a commit u s (failed e) k t d = inl refl
  capture_active_keeps a commit u s (sampled m) k t d = elim (Bool-cases m.capturing) [
    | inl on ↦
        let sealed : Bool → Store B × Result (Unit {0}) =
          λ b. capture B F commit (core_name a.running) m.counters a.now b s in
        elim (after_capture_keeps (m.core_complete && true) (not m.core_complete && true)
          (sealed (m.core_complete && true)) (both m.core_complete true) d) [
            | inl kept ↦ simp on (inl kept)
            | inr told ↦ simp on (
                inr (record {
                  store = s;
                  had = k;
                  sample = m;
                  taken = t;
                  complete =
                      sample_read a a.forwarding m refl (unfold current_usage_counters in t)
                        (and_true m.core_complete told.0);
                  stored_well = subst (λ (b : Bool). (sealed b).1 ≡ ok tt) told.0 told.1;
                  stored = told.2 ∙ ap (λ (b : Bool). some (sealed b).0) told.0;
                }))
          ]
    | inr off ↦ simp off (inl refl)
  ]

  usage_keeps :
      (a : Around) (commit : Option Error) (u : Usage B) (o : Option (Store B))
      → u.restarted ≡ true
      → u.snapshots ≡ o
      → disowned_at a commit o ≡ false
      → ((capture_active F a commit u o).0.restarted ≡ true)
        ⊎ Consumed a commit u (capture_active F a commit u o).0
  unfolding capture_active disowned_at
  usage_keeps a commit u none r k d = inl r
  usage_keeps a commit u (some s) r k d = elim (Bool-cases (active B s)) [
    | inl on ↦ simp (on, r) (capture_active_keeps a commit u s (current_usage_counters a) k refl d)
    | inr off ↦ simp off (inl r)
  ]

  -- A marked restart of the core stays marked until a capture that was told of it has succeeded on
  -- all the counters there are to read: a failed read of the forwarding's or of the core's counters
  -- and a failed capture leave the marker. Where sing-box does not run, or no client asks it, the
  -- forwarding's counters are all of them, and the capture takes the marker without any of the core's.
  -- The store must not answer that it is not active although it is.
  pub capture_usage_snapshot_keeps_restart :
      (a : Around) (commit : Option Error) (u : Usage B)
      → u.restarted ≡ true
      → disowned_at a commit u.snapshots ≡ false
      → ((capture_usage_snapshot F a commit u).0.restarted ≡ true)
        ⊎ Consumed a commit u (capture_usage_snapshot F a commit u).0
  unfolding capture_usage_snapshot
  capture_usage_snapshot_keeps_restart a commit u r d = usage_keeps a commit u u.snapshots r refl d
