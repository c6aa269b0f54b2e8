-- ===== src/Node/Complete.antt =====
-- When the sample of manager.go's currentUsageCounters has all the counters there are to read.
use remnawave_node_go.Base.{
  ◌≡◌, ◌⊎◌, inl, inr, refl, ap, ◌∙◌, subst, Bool, true, false, Option, none, some, List, [], ◌++◌,
  ◌>>=◌, Text, codes, text_eq, text_eq_iff, is_empty, Result, ok, err, Bool-cases,
}
use remnawave_node_go.UsageSnapshot.Types.{Counter}
use remnawave_node_go.Forwarding.Types.{Outcome, done, fail}
use remnawave_node_go.Forwarding.Usage.{UsageCounter}
use remnawave_node_go.Runtime.Core.{sing_box}
use remnawave_node_go.Node.Stats.{
  Stat, StatsClient, TagItems, UserItems, fetch_grouped_stats, fetch_user_inbound_stats,
}
use remnawave_node_go.Node.Usage.{
  user_counters, tag_counters, forwarding_counters, current_core_usage_counters, stats_client,
  with_core_counters, sample_core, sample_forwarding, Sample, sampled, Around,
}

-- The counters that the forwarding answered with, none where there is no forwarding.
pub data ForwardingRead (a : Around) : List Counter → Type 0 where
  no_forwarding : a.forwarding ≡ none → ForwardingRead a []
  forwarding_read :
      (us : List UsageCounter) (forwarding_active : Bool)
      → a.forwarding ≡ some (done (us, forwarding_active))
      → ForwardingRead a (forwarding_counters us)

-- The counters are all there are to read: after the forwarding's, both directions of every user of an
-- inbound, of every inbound and of every outbound that the core's statistics answered with; no more
-- than the forwarding's where sing-box does not run or no client asks it.
pub data AllRead (a : Around) : List Counter → Type 0 where
  with_core :
      (before : List Counter) (q : Text → Bool → Result (List Stat)) (users : UserItems)
      (inbounds outbounds : TagItems)
      → ForwardingRead a before
      → text_eq a.running sing_box ≡ true
      → a.client ≡ some q
      → fetch_user_inbound_stats (some q) false ≡ ok users
      → fetch_grouped_stats (some q) (codes "inbound") (codes "inbound>>>") false ≡ ok inbounds
      → fetch_grouped_stats (some q) (codes "outbound") (codes "outbound>>>") false ≡ ok outbounds
      → AllRead a (
          before
          ++ (user_counters users
              ++ (tag_counters (codes "inbound") inbounds
                  ++ tag_counters (codes "outbound") outbounds)))
  without_core :
      (counters : List Counter)
      → ForwardingRead a counters
      → (text_eq a.running sing_box ≡ false) ⊎ (a.client ≡ none)
      → AllRead a counters

module _ (a : Around) (before : List Counter) (read : ForwardingRead a before) where
  three_read :
      (q : Text → Bool → Result (List Stat)) (ru : Result UserItems) (ri ro : Result TagItems)
      (core : List Counter)
      → text_eq a.running sing_box ≡ true
      → a.client ≡ some q
      → fetch_user_inbound_stats (some q) false ≡ ru
      → fetch_grouped_stats (some q) (codes "inbound") (codes "inbound>>>") false ≡ ri
      → fetch_grouped_stats (some q) (codes "outbound") (codes "outbound>>>") false ≡ ro
      → (ru >>= (λ users. ri >>= (λ inbounds. ro >>= (λ outbounds. ok (
          user_counters users
          ++ (tag_counters (codes "inbound") inbounds
              ++ tag_counters (codes "outbound") outbounds))))))
        ≡ ok core
      → AllRead a (before ++ core)
  three_read q (err e) ri ro core on client hu hi ho h = cc
  three_read q (ok users) (err e) ro core on client hu hi ho h = cc
  three_read q (ok users) (ok inbounds) (err e) core on client hu hi ho h = cc
  three_read q (ok users) (ok inbounds) (ok outbounds) core on client hu hi ho h =
      subst (λ (c : List Counter). AllRead a (before ++ c)) (cc)
        (with_core before q users inbounds outbounds read on client hu hi ho)

  core_read :
      (q : Text → Bool → Result (List Stat)) (r : Result (List Counter))
      → text_eq a.running sing_box ≡ true
      → a.client ≡ some q
      → current_core_usage_counters (some q) ≡ r
      → (with_core_counters before r).core_complete ≡ true
      → AllRead a (with_core_counters before r).counters
  unfolding with_core_counters current_core_usage_counters
  core_read q (err e) on client h full = cc
  core_read q (ok core) on client h full = three_read q _ _ _ core on client refl refl refl h

  client_read :
      (forwarding_active : Bool) (client : StatsClient)
      → stats_client a.running a.client ≡ client
      → (sample_core a.running client before forwarding_active).core_complete ≡ true
      → AllRead a (sample_core a.running client before forwarding_active).counters
  unfolding sample_core stats_client is_empty
  client_read forwarding_active none h full = without_core before read (go h)
    where
      go :
          stats_client a.running a.client ≡ none
          → (text_eq a.running sing_box ≡ false) ⊎ (a.client ≡ none)
      go k = elim (Bool-cases (text_eq a.running sing_box)) [
        | inl on ↦ inr (simp on at k)
        | inr off ↦ inl off
      ]
  client_read forwarding_active (some q) h full = elim (Bool-cases (text_eq a.running sing_box)) [
    | inl on ↦
        let asked : a.client ≡ some q = simp on at h in
        let named : is_empty a.running ≡ false =
          ap (λ (t : Text). is_empty t) ((text_eq_iff a.running sing_box).0 on) in
        simp named (core_read q _ on asked refl (simp named at full))
    | inr off ↦ let bad : none ≡ some q = simp off at h in cc
  ]

sampled_read :
    (a : Around) (before : List Counter) (forwarding_active : Bool) (m : Sample)
    → ForwardingRead a before
    → sampled (sample_core a.running (stats_client a.running a.client) before forwarding_active)
      ≡ sampled m
    → m.core_complete ≡ true
    → AllRead a m.counters
sampled_read a before forwarding_active m read e full =
    let same : sample_core a.running (stats_client a.running a.client) before forwarding_active
        ≡ m =
      cc in
    subst (λ (x : Sample). AllRead a x.counters) same
      (client_read a before read forwarding_active _ refl
        (ap (λ (x : Sample). x.core_complete) same ∙ full))

pub sample_read :
    (a : Around) (f : Option (Outcome (List UsageCounter × Bool))) (m : Sample)
    → a.forwarding ≡ f
    → sample_forwarding a f ≡ sampled m
    → m.core_complete ≡ true
    → AllRead a m.counters
unfolding sample_forwarding
sample_read a none m h e full = sampled_read a [] false m (no_forwarding h) e full
sample_read a (some (fail d)) m h e full = cc
sample_read a (some (done (us, forwarding_active))) m h e full =
    sampled_read a (forwarding_counters us) forwarding_active m
      (forwarding_read us forwarding_active h) e full
