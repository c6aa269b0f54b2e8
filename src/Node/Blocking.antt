-- ===== src/Node/Blocking.antt =====
-- The requests that block and unblock addresses for a time (manager.go), less the connections that
-- they drop. A time is a number, 0 the zero time; a timeout is a 64-bit pattern.
use remnawave_node_go.Base.{
  ℕ, ◌+◌, ◌*◌, true, false, Option, none, some, List, [], ◌∷◌, ◌++◌, Text, codes, Error, message,
  is_positive, if◌then◌else◌,
}
use remnawave_node_go.Runtime.Types.{Runtime}
use remnawave_node_go.Runtime.Addresses.{set_blocked_ip, delete_blocked_ip}
use remnawave_node_go.Node.ApiConfig.{digits}
use remnawave_node_go.Node.Nft.{Command, Log, Firewall, table}

pub record Blocked : Type 0 where
  pub runtime : Runtime
  pub log : Log

pub record BlockedItem : Type 0 where
  pub ip : Text
  pub timeout : ℕ  -- int

abbrev pub element : Text → Text → Text → List Text → Command
element verb name value rest =
    verb ∷ codes "element" ∷ codes "inet" ∷ table ∷ name ∷ codes "{" ∷ value ∷ rest

abbrev pub invalid_ip : Error
invalid_ip = message "invalid IP address"

module _ (f : Firewall) where
  -- nftSetFamily
  unfoldable pub nft_set_family : Text → Option Text
  nft_set_family ip = elim (f.parse_ip ip) [
    | none ↦ none
    | some (value, true) ↦ some (codes "6")
    | some (value, false) ↦ some []
  ]

  -- runNft, where the node has nft.
  unfoldable pub give : Command → Blocked → Blocked × Option Error
  give c b =
      if f.ready
      then (record b { log = b.log ++ c ∷ [] }, f.answer (b.log ++ c ∷ []))
      else (b, none)

  unfoldable pub then_give :
      Blocked × Option Error → (Blocked → Blocked × Option Error) → Blocked × Option Error
  then_give (b, some e) rest = (b, some e)
  then_give (b, none) rest = rest b

  unfoldable pub block_command : Text → BlockedItem → Command
  block_command family i = element (codes "add") (codes "temporary-blocked-ip" ++ family) i.ip (
      if is_positive i.timeout
      then codes "timeout" ∷ (digits i.timeout ++ codes "s") ∷ codes "}" ∷ []
      else codes "}" ∷ [])

  unfoldable pub block_in : ℕ → BlockedItem → Blocked → Option Text → Blocked × Option Error
  block_in now i b none = (b, some invalid_ip)
  block_in now i b (some family) =
      let until = if is_positive i.timeout then now + i.timeout * 1000000000 else 0 in
      give (block_command family i) (record b { runtime = set_blocked_ip i.ip until b.runtime })

  -- blockIPWithTimeout
  unfoldable pub block_ip_with_timeout : ℕ → BlockedItem → Blocked → Blocked × Option Error
  block_ip_with_timeout now i b = block_in now i b (nft_set_family i.ip)

  -- BlockIPs, up to the first that fails.
  unfoldable pub block_ips : ℕ → List BlockedItem → Blocked → Blocked × Option Error
  block_ips now [] b = (b, none)
  block_ips now (i ∷ is) b = then_give (block_ip_with_timeout now i b) (block_ips now is)

  abbrev pub delete_element : Text → Text → Command
  delete_element name ip = element (codes "delete") name ip (codes "}" ∷ [])

  -- nftDeleteElement from both sets.
  unfoldable pub unblock_in : Text → Blocked → Option Text → Blocked × Option Error
  unblock_in ip b none = (b, some invalid_ip)
  unblock_in ip b (some family) =
      then_give (give (delete_element (codes "temporary-blocked-ip" ++ family) ip) b)
        (give (delete_element (codes "ingress-filter-ip" ++ family) ip))

  -- UnblockIPs, up to the first that fails.
  unfoldable pub unblock_ips : List Text → Blocked → Blocked × Option Error
  unblock_ips [] b = (b, none)
  unblock_ips (ip ∷ ips) b =
      let freed : Blocked = record b { runtime = delete_blocked_ip ip b.runtime } in
      let rest = unblock_ips ips in
      if f.ready then then_give (unblock_in ip freed (nft_set_family ip)) rest else rest freed
