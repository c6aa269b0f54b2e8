-- ===== src/Node/Health.antt =====
-- waitForSingBoxHealthy of manager.go: the loop that asks supervisord and the statistics of sing-box
-- until they answer, or the process has ended, or the time is up.
use remnawave_node_go.Base.{
  ℕ, zero, suc, Bool, true, false, ◌||◌, Option, none, some, Error, message, wrapped, Result, ok,
  err, ◌==◌, is_negative, if◌then◌else◌,
}

abbrev pub state_stopped : ℕ
state_stopped = 0

abbrev pub state_running : ℕ
state_running = 20

abbrev pub state_exited : ℕ
state_exited = 100

abbrev pub state_fatal : ℕ
state_fatal = 200

-- What a poll meets: the state of the process that supervisord reports, and the answer of System.
pub record Poll : Type 0 where
  pub info : Result ℕ
  pub stats : Option Error

-- What the loop meets: whether there is a client of the statistics, the polls by their number,
-- whether the time was up when a poll's wait began, and the two times of the manager, 64-bit patterns.
pub record Health : Type 0 where
  pub client : Bool
  pub polls : ℕ → Poll
  pub expired : ℕ → Bool
  pub timeout : ℕ
  pub interval : ℕ

pub data Verdict : Type 0 where
  healthy : Verdict
  ended : Error → Verdict
  waiting : Error → Verdict

unfoldable pub stats_verdict : Bool → Option Error → Verdict
stats_verdict false stats =
    waiting (message "sing-box internal statistics API client is unavailable")
stats_verdict true none = healthy
stats_verdict true (some e) = waiting (wrapped "sing-box internal statistics API is unavailable" e)

unfoldable pub info_verdict : Bool → Result ℕ → Option Error → Verdict
info_verdict client (err e) stats = waiting (wrapped "query supervisord" e)
info_verdict client (ok state) stats =
    if state == state_running
    then stats_verdict client stats
    else if state == state_fatal || state == state_exited || state == state_stopped
    then ended (message "supervisord reports the state of sing-box")
    else waiting (message "supervisord reports the state of sing-box")

-- The body of the loop at the poll `k`.
unfoldable pub verdict : Health → ℕ → Verdict
verdict h k = info_verdict h.client (h.polls k).info (h.polls k).stats

-- `if timeout <= 0`, and the default.
unfoldable pub or_default : ℕ → ℕ → ℕ
or_default v default = if v == 0 || is_negative v then default else v

abbrev pub timeout_of : Health → ℕ
timeout_of h = or_default h.timeout 10000000000

abbrev pub interval_of : Health → ℕ
interval_of h = or_default h.interval 250000000

abbrev pub unconfirmed : Error → Error
unconfirmed = wrapped "sing-box failed health confirmation"

-- The loop from the poll `k` on; `none` where the fuel runs out, and else the error, nil where the
-- process is healthy.
unfoldable pub wait_loop : Health → ℕ → ℕ → Option (Option Error)
wait_loop h zero k = none
wait_loop h (suc fuel) k = elim (verdict h k) [
  | healthy ↦ some none
  | ended e ↦ some (some (unconfirmed e))
  | waiting e ↦ elim (h.expired k) [
    | true ↦ some (some (unconfirmed e))
    | false ↦ wait_loop h fuel (suc k)
  ]
]

-- waitForSingBoxHealthy
unfoldable pub wait_for_sing_box_healthy : Health → Option (Option Error)
wait_for_sing_box_healthy h = wait_loop h (suc (timeout_of h)) 0
