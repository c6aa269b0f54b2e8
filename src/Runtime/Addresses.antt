-- ===== src/Runtime/Addresses.antt =====
-- The addresses that users were seen at, and the blocked ones (state.go: RecordUserIP and the
-- accessors). sort.Slice leaves the order of equal times open; here it is that of insertion.
use remnawave_node_go.Base.{ℕ, List, [], ◌∷◌, ◌++◌, Text, text_eq, ltb, if◌then◌else◌}
use remnawave_node_go.Runtime.Types.{SeenIp, Runtime, value_at, set, remove}

-- The loop that leaves out the address.
unfoldable pub without_ip : Text → List SeenIp → List SeenIp
without_ip ip [] = []
without_ip ip (s ∷ ss) = let rest = without_ip ip ss in if text_eq s.ip ip then rest else s ∷ rest

-- sort.Slice by the latest time first.
unfoldable pub insert_seen : SeenIp → List SeenIp → List SeenIp
insert_seen s [] = s ∷ []
insert_seen s (t ∷ ts) = if ltb s.last_seen t.last_seen then t ∷ insert_seen s ts else s ∷ t ∷ ts

unfoldable pub sort_seen : List SeenIp → List SeenIp
sort_seen [] = []
sort_seen (s ∷ ss) = insert_seen s (sort_seen ss)

unfoldable pub seen_again : Text → ℕ → List SeenIp → List SeenIp
seen_again ip at list = sort_seen (without_ip ip list ++ record { ip = ip; last_seen = at } ∷ [])

-- RecordUserIP
unfoldable pub record_user_ip : Text → Text → ℕ → Runtime → Runtime
record_user_ip user ip at r = record r {
  user_ips = set r.user_ips user (seen_again ip at (value_at [] r.user_ips user));
}

-- UserIPs
unfoldable pub user_ips_of : Text → Runtime → List SeenIp
user_ips_of user r = value_at [] r.user_ips user

-- SetBlockedIP, DeleteBlockedIP
unfoldable pub set_blocked_ip : Text → ℕ → Runtime → Runtime
set_blocked_ip ip until r = record r { blocked_ips = set r.blocked_ips ip until }

unfoldable pub delete_blocked_ip : Text → Runtime → Runtime
delete_blocked_ip ip r = record r { blocked_ips = remove r.blocked_ips ip }
