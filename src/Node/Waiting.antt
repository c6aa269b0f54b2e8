-- ===== src/Node/Waiting.antt =====
-- The wait for sing-box ends, and how.
use remnawave_node_go.Base.{
  ok, err, Result, message, ap, ◌∙◌, ◌==◌, ◌||◌, subst, ltb, ltb→lt, ℕ, zero, suc, ◌+◌, ◌*◌, ◌≤◌,
  ◌<◌, ◌≡◌, refl, Bool, true, false, Option, none, some, arith, Error, Bool-cases, inl, inr, ◌⊎◌,
}
use remnawave_node_go.Node.Health.{
  Health, Verdict, healthy, ended, waiting, verdict, stats_verdict, info_verdict, state_running,
  state_fatal, state_exited, state_stopped, or_default, timeout_of, interval_of, unconfirmed,
  wait_loop, wait_for_sing_box_healthy,
}

-- A poll begins an interval after the one before, so that the time is up by when the intervals
-- between the polls make the timeout.
abbrev pub Timely : Health → Type 0
Timely h = (k : ℕ) → timeout_of h ≤ k * interval_of h → h.expired k ≡ true

-- There is a client, the process is RUNNING (20), and its statistics answer.
pub record IsUp (h : Health) (k : ℕ) : Type 0 where
  pub has_client : h.client ≡ true
  pub runs : (h.polls k).info ≡ ok 20
  pub answers : (h.polls k).stats ≡ none

-- The process is STOPPED (0), EXITED (100) or FATAL (200).
pub record IsDown (h : Health) (k : ℕ) : Type 0 where
  pub state : ℕ
  pub reported : (h.polls k).info ≡ ok state
  pub over : (state ≡ 0) ⊎ ((state ≡ 100) ⊎ (state ≡ 200))

-- At the poll `j` the process was neither up nor down, and there was time.
pub record IsPassed (h : Health) (j : ℕ) : Type 0 where
  pub not_up : IsUp h j → ⊥
  pub not_down : IsDown h j → ⊥
  pub in_time : h.expired j ≡ false

abbrev pub WaitedUntil : Health → ℕ → Type 0
WaitedUntil h k = (j : ℕ) → j < k → IsPassed h j

-- The wait ends at the poll `k`, without an error exactly where the process is up there.
pub record Ended (h : Health) (k : ℕ) (r : Option Error) : Type 0 where
  pub waited : WaitedUntil h k
  pub within : k ≤ timeout_of h
  pub stopped : (IsUp h k ⊎ IsDown h k) ⊎ (h.expired k ≡ true)
  pub answered : (r ≡ none) ⊎ ((e : Error) × (r ≡ some e))
  pub confirmed : r ≡ none → IsUp h k
  pub refused : IsUp h k → r ≡ none

interval-positive : (v default : ℕ) → 1 ≤ default → 1 ≤ or_default v default
unfolding or_default
interval-positive v default h = ground arith

le-times : (n i : ℕ) → 1 ≤ i → n ≤ n * i
le-times zero i h = omega arith
le-times (suc n) i h = omega (arith, le-times n i h)

expired-at_timeout : (h : Health) → Timely h → h.expired (timeout_of h) ≡ true
expired-at_timeout h timely =
    timely (timeout_of h) (
      le-times (timeout_of h) (interval_of h)
        (interval-positive h.interval 250000000 (omega arith)))

stats_verdict-healthy :
    (client : Bool) (stats : Option Error)
    → stats_verdict client stats ≡ healthy
    → (client ≡ true) × (stats ≡ none)
unfolding stats_verdict
stats_verdict-healthy false stats h = cc
stats_verdict-healthy true none h = (refl, refl)
stats_verdict-healthy true (some e) h = cc

stats_verdict-ended :
    (client : Bool) (stats : Option Error) (d : Error) → stats_verdict client stats ≡ ended d → ⊥
unfolding stats_verdict
stats_verdict-ended false stats d h = cc
stats_verdict-ended true none d h = cc
stats_verdict-ended true (some e) d h = cc

info_verdict-healthy :
    (client : Bool) (info : Result ℕ) (stats : Option Error)
    → info_verdict client info stats ≡ healthy
    → (client ≡ true) × ((info ≡ ok 20) × (stats ≡ none))
unfolding info_verdict
info_verdict-healthy client (err e) stats h = cc
info_verdict-healthy client (ok s) stats h = elim (Bool-cases (s == state_running)) [
  | inl up ↦
      let is_20 : s ≡ 20 = ground arith in
      let (c, a) = stats_verdict-healthy client stats (simp up at h) in
      (c, (ap (λ x. ok x) is_20, a))
  | inr off ↦ elim (Bool-cases (s == state_fatal || s == state_exited || s == state_stopped)) [
    | inl over ↦
        let bad : ended (message "supervisord reports the state of sing-box") ≡ healthy =
          simp (off, over) at h in
        cc
    | inr unsure ↦
        let bad : waiting (message "supervisord reports the state of sing-box") ≡ healthy =
          simp (off, unsure) at h in
        cc
  ]
]

info_verdict-ended :
    (client : Bool) (info : Result ℕ) (stats : Option Error) (d : Error)
    → info_verdict client info stats ≡ ended d
    → (s : ℕ) × (info ≡ ok s) × ((s ≡ 0) ⊎ ((s ≡ 100) ⊎ (s ≡ 200)))
unfolding info_verdict
info_verdict-ended client (err e) stats d h = cc
info_verdict-ended client (ok s) stats d h = elim (Bool-cases (s == state_running)) [
  | inl up ↦ elim (stats_verdict-ended client stats d (simp up at h)) [ ]
  | inr off ↦ elim (Bool-cases (s == state_fatal || s == state_exited || s == state_stopped)) [
    | inl over ↦ (s, refl, ground (arith, over))
    | inr unsure ↦
        let bad : waiting (message "supervisord reports the state of sing-box") ≡ ended d =
          simp (off, unsure) at h in
        cc
  ]
]

verdict-healthy : (h : Health) (k : ℕ) → verdict h k ≡ healthy → IsUp h k
unfolding verdict
verdict-healthy h k e =
    let u = info_verdict-healthy h.client (h.polls k).info (h.polls k).stats e in
    record { has_client = u.0; runs = u.1.0; answers = u.1.1 }

verdict-ended : (h : Health) (k : ℕ) (d : Error) → verdict h k ≡ ended d → IsDown h k
unfolding verdict
verdict-ended h k d e =
    let u = info_verdict-ended h.client (h.polls k).info (h.polls k).stats d e in
    record { state = u.0; reported = u.1; over = u.2 }

IsUp-verdict : (h : Health) (k : ℕ) → IsUp h k → verdict h k ≡ healthy
unfolding verdict info_verdict stats_verdict
IsUp-verdict h k u = rw (u.has_client, u.runs, u.answers) refl

ended_state :
    (client : Bool) (s : ℕ) (stats : Option Error)
    → (s ≡ 0) ⊎ ((s ≡ 100) ⊎ (s ≡ 200))
    → (d : Error) × (info_verdict client (ok s) stats ≡ ended d)
unfolding info_verdict
ended_state client s stats (inl e) =
    (message "supervisord reports the state of sing-box", rw e refl)
ended_state client s stats (inr (inl e)) =
    (message "supervisord reports the state of sing-box", rw e refl)
ended_state client s stats (inr (inr e)) =
    (message "supervisord reports the state of sing-box", rw e refl)

IsDown-verdict : (h : Health) (k : ℕ) → IsDown h k → (d : Error) × (verdict h k ≡ ended d)
unfolding verdict
IsDown-verdict h k w =
    let (d, e) = ended_state h.client w.state (h.polls k).stats w.over in
    (d, ap (λ x. info_verdict h.client x (h.polls k).stats) w.reported ∙ e)

-- A poll at which the loop waits and has time.
IsPassed-waiting :
    (h : Health) (k : ℕ) (d : Error) → verdict h k ≡ waiting d → h.expired k ≡ false → IsPassed h k
IsPassed-waiting h k d w x = record {
  not_up = λ u. let up = IsUp-verdict h k u in cc;
  not_down = λ v. let down = (IsDown-verdict h k v).1 in cc;
  in_time = x;
}

WaitedUntil-suc : (h : Health) (k : ℕ) → WaitedUntil h k → IsPassed h k → WaitedUntil h (suc k)
WaitedUntil-suc h k before here j lt = elim (Bool-cases (ltb j k)) [
  | inl earlier ↦ before j (ltb→lt j k earlier)
  | inr last ↦ let same : k ≡ j = ground arith in subst (IsPassed h) same here
]

nothing : (n k : ℕ) → k ≤ n → suc n ≤ 0 + k → ⊥
nothing n k h l = omega (arith, h, l)

no_less : (j : ℕ) → j < 0 → ⊥
no_less j h = omega (arith, h)

Within : (h : Health) → Timely h → (k : ℕ) → WaitedUntil h k → k ≤ timeout_of h
Within h timely k before = elim (Bool-cases (ltb (timeout_of h) k)) [
  | inl beyond ↦
      let in_time = (before (timeout_of h) (ltb→lt (timeout_of h) k beyond)).in_time in
      let up = expired-at_timeout h timely in cc
  | inr within ↦ ground arith
]

module _ (h : Health) (timely : Timely h) where
  -- The end with an error at a poll that was waited for, where the process is not up.
  Ended-failed :
      (k : ℕ) (e : Error)
      → WaitedUntil h k
      → (IsUp h k → ⊥)
      → (IsDown h k ⊎ (h.expired k ≡ true))
      → Ended h k (some e)
  Ended-failed k e before not_up stop = record {
    waited = before;
    within = Within h timely k before;
    stopped = elim stop [ inl down ↦ inl (inr down) | inr up ↦ inr up ];
    answered = inr (e, refl);
    confirmed = λ p. cc;
    refused = λ u. elim (not_up u) [ ];
  }

  wait_loop-Ended :
      (fuel k : ℕ)
      → WaitedUntil h k
      → suc (timeout_of h) ≤ fuel + k
      → (n : ℕ) × (r : Option Error) × (wait_loop h fuel k ≡ some r) × Ended h n r
  unfolding wait_loop
  wait_loop-Ended zero k before enough =
      let beyond = Within h timely k before in elim (nothing (timeout_of h) k beyond enough) [ ]
  wait_loop-Ended (suc fuel) k before enough =
      go (verdict h k) (h.expired k)
        (λ before'. wait_loop-Ended fuel (suc k) before' (omega (arith, enough))) refl refl
    where
      go :
          (v : Verdict) (x : Bool)
          → (WaitedUntil h (suc k)
              → (n : ℕ) × (r : Option Error) × (wait_loop h fuel (suc k) ≡ some r) × Ended h n r)
          → verdict h k ≡ v
          → h.expired k ≡ x
          → (n : ℕ) × (r : Option Error) × (wait_loop h (suc fuel) k ≡ some r) × Ended h n r
      go healthy x rest e f =
          let up = verdict-healthy h k e in
          (
            k,
            none,
            rw (e, wait_loop) refl,
            record {
              waited = before;
              within = Within h timely k before;
              stopped = inl (inl up);
              answered = inl refl;
              confirmed = λ _. up;
              refused = λ _. refl;
            },
          )
      go (ended d) x rest e f = (
        k,
        some (unconfirmed d),
        rw (e, wait_loop) refl,
        Ended-failed k (unconfirmed d) before (λ u. let up = IsUp-verdict h k u in cc)
            (inl (verdict-ended h k d e)),
      )
      go (waiting d) true rest e f = (
        k,
        some (unconfirmed d),
        rw (e, f, wait_loop) refl,
        Ended-failed k (unconfirmed d) before (λ u. let up = IsUp-verdict h k u in cc) (inr f),
      )
      go (waiting d) false rest e f =
          let (n, r, runs, at) = rest (WaitedUntil-suc h k before (IsPassed-waiting h k d e f)) in
          (n, r, rw (e, f, wait_loop) runs, at)

  -- The wait for sing-box always ends: where a poll begins an interval after the one before, it returns
  -- at the first poll at which there is a client, supervisord reports RUNNING and the statistics answer,
  -- or supervisord reports STOPPED, EXITED or FATAL, or the time is up, without an error exactly in the
  -- first case. It takes no more polls than the timeout has nanoseconds and one.
  pub wait_for_sing_box_healthy-Ended :
      (n : ℕ) × (r : Option Error) × (wait_for_sing_box_healthy h ≡ some r) × Ended h n r
  unfolding wait_for_sing_box_healthy
  wait_for_sing_box_healthy-Ended =
      wait_loop-Ended (suc (timeout_of h)) 0 (λ j lt. elim (no_less j lt) [ ]) (omega arith)
