-- ===== src/Runtime/History.antt =====
-- Any calls of the runtime's mutators: the index of the inbounds follows the configuration.
use remnawave_node_go.Base.{
  ℕ, ◌≡◌, refl, ◌∙◌, Bool, Option, List, [], ◌∷◌, Text, text_eq, if◌then◌else◌, Bool-cases, inl,
  inr,
}
use remnawave_node_go.Base.Json.{Fields}
use remnawave_node_go.Runtime.Types.{StartHashes, Runtime}
use remnawave_node_go.Runtime.Inbounds.{Users, extract_sing_box_inbounds, reindex}
use remnawave_node_go.Runtime.Addresses.{record_user_ip, set_blocked_ip, delete_blocked_ip}
use remnawave_node_go.Runtime.Core.{
  sing_box, new_runtime, set_sing_box_config, set_running_core, set_core_version, set_online_status,
  set_last_hashes, mark_hashes_dirty, reset,
}

-- A call that may change the runtime.
pub data Call : Type 0 where
  sets_sing_box_config : Fields → Call
  sets_running_core : Text → Call
  sets_core_version : Option Text → Call
  sets_online_status : Bool → Call
  sets_last_hashes : StartHashes → Call
  marks_hashes_dirty resets : Call
  records_user_ip : Text → Text → ℕ → Call
  sets_blocked_ip : Text → ℕ → Call
  deletes_blocked_ip : Text → Call

unfoldable pub step : Call → Runtime → Runtime
step (sets_sing_box_config config) r = set_sing_box_config config r
step (sets_running_core core) r = set_running_core core r
step (sets_core_version v) r = set_core_version v r
step (sets_online_status b) r = set_online_status b r
step (sets_last_hashes h) r = set_last_hashes h r
step marks_hashes_dirty r = mark_hashes_dirty r
step resets r = reset r
step (records_user_ip user ip at) r = record_user_ip user ip at r
step (sets_blocked_ip ip until) r = set_blocked_ip ip until r
step (deletes_blocked_ip ip) r = delete_blocked_ip ip r

unfoldable pub run : List Call → Runtime → Runtime
run [] r = r
run (c ∷ cs) r = run cs (step c r)

-- The index that belongs to a core and a configuration.
abbrev pub index_for : Text → Fields → Users × List (Text × Text)
index_for core config =
    if text_eq core sing_box then extract_sing_box_inbounds config [] [] else ([], [])

abbrev pub IsIndexed : Runtime → Type 0
IsIndexed r = (r.inbound_users, r.inbound_kinds) ≡ index_for r.running r.sing_box_config

step-IsIndexed : (c : Call) (r : Runtime) → IsIndexed r → IsIndexed (step c r)
unfolding step reindex set_sing_box_config set_running_core set_core_version set_online_status
    set_last_hashes mark_hashes_dirty reset record_user_ip set_blocked_ip delete_blocked_ip
step-IsIndexed (sets_sing_box_config config) r k = elim (Bool-cases (text_eq r.running sing_box)) [
  | inl on ↦ simp on refl
  | inr off ↦ simp off (k ∙ simp off refl)
]
step-IsIndexed (sets_running_core core) r k = elim (Bool-cases (text_eq core sing_box)) [
  | inl on ↦ simp on refl
  | inr off ↦ simp off refl
]
step-IsIndexed (sets_core_version v) r k = k
step-IsIndexed (sets_online_status b) r k = k
step-IsIndexed (sets_last_hashes h) r k = k
step-IsIndexed marks_hashes_dirty r k = k
step-IsIndexed resets r k = unfold text_eq in refl
step-IsIndexed (records_user_ip user ip at) r k = k
step-IsIndexed (sets_blocked_ip ip until) r k = k
step-IsIndexed (deletes_blocked_ip ip) r k = k

run-keeps : (cs : List Call) (r : Runtime) → IsIndexed r → IsIndexed (run cs r)
unfolding run
run-keeps [] r k = k
run-keeps (c ∷ cs) r k = run-keeps cs (step c r) (step-IsIndexed c r k)

-- After any calls on a new runtime, while sing-box is the running core the index of users and protocols
-- is that of the current sing-box configuration, whichever was set first, and otherwise it is blank.
pub run-IsIndexed :
    (version : Text) (cs : List Call)
    → let r = run cs (new_runtime version) in
      (r.inbound_users, r.inbound_kinds) ≡ (
        if text_eq r.running sing_box
        then extract_sing_box_inbounds r.sing_box_config [] []
        else ([], []))
run-IsIndexed version cs = run-keeps cs (new_runtime version) (unfold new_runtime text_eq in refl)
