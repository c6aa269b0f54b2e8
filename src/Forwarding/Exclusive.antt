-- ===== src/Forwarding/Exclusive.antt =====
-- The conflict checks of validation against what the rules forward: no transport and port is claimed
-- twice.
use Prim.Native.Nat.{ℕ}
use remnawave_node_go.Base.{
  ◌+◌, ◌≤◌, ◌<◌, ◌≡◌, refl, Bool, true, false, ◌&&◌, ◌||◌, none, List, [], ◌∷◌, arith, All, ◌==◌,
  if◌then◌else◌,
}
use remnawave_node_go.Forwarding.Types.{
  Protocol, Rule, Listener, Transport, over_tcp, over_udp, expanded_protocols, protocols_overlap,
}
use remnawave_node_go.Forwarding.Validate.{
  clashes, find_overlap, find_rule_conflict, find_listener, find_core_conflict, is_other,
}

unfoldable pub same_transport : Transport → Transport → Bool
same_transport over_tcp over_tcp = true
same_transport over_udp over_udp = true
same_transport _ _ = false

unfoldable pub has_transport : Transport → List Transport → Bool
has_transport t [] = false
has_transport t (u ∷ us) = same_transport t u || has_transport t us

-- A rule forwards the transport on the port.
unfoldable pub claims : Transport → ℕ → Rule → Bool
claims t port r =
    r.enabled && (r.listen_port == port && has_transport t (expanded_protocols r.protocol))

-- How many rules do.
unfoldable pub claimants : Transport → ℕ → List Rule → ℕ
claimants t port [] = 0
claimants t port (r ∷ rs) = (if claims t port r then 1 else 0) + claimants t port rs

-- The protocol is one of the three constants.
abbrev pub IsKnown : Rule → Type 0
IsKnown r = is_other r.protocol ≡ false

overlap_of_transport :
    (t : Transport) (a b : Protocol)
    → is_other a ≡ false
    → is_other b ≡ false
    → has_transport t (expanded_protocols a) ≡ true
    → has_transport t (expanded_protocols b) ≡ true
    → protocols_overlap a b ≡ true
unfolding protocols_overlap has_transport same_transport expanded_protocols
overlap_of_transport t a b ka kb p q = ground arith

claims_parts :
    (t : Transport) (port : ℕ) (r : Rule)
    → claims t port r ≡ true
    → (r.enabled ≡ true)
      × (r.listen_port ≡ port)
      × (has_transport t (expanded_protocols r.protocol) ≡ true)
unfolding claims
claims_parts t port r h = ground arith

claims_enabled : (t : Transport) (port : ℕ) (r : Rule) → claims t port r ≡ true → r.enabled ≡ true
claims_enabled t port r h = (claims_parts t port r h).0

-- Two enabled rules that claim one transport and port clash.
pub claims-clashes :
    (t : Transport) (port : ℕ) (l r : Rule)
    → IsKnown l
    → IsKnown r
    → claims t port l ≡ true
    → claims t port r ≡ true
    → (r.enabled ≡ true) × (clashes l r.protocol r.listen_port ≡ true)
claims-clashes t port l r kl kr p q =
    let a = claims_parts t port l p in
    let b = claims_parts t port r q in
    (
      b.0,
      rw (a.1, b.1) (ground (arith, overlap_of_transport t l.protocol r.protocol kl kr a.2 b.2)),
    )

find_overlap-none :
    (t : Transport) (port : ℕ) (l : Rule) (rs : List Rule)
    → IsKnown l
    → All IsKnown rs
    → claims t port l ≡ true
    → find_overlap l rs ≡ none
    → claimants t port rs ≡ 0
unfolding find_overlap claimants
find_overlap-none t port l [] kl k p h = refl
find_overlap-none t port l (r ∷ rs) kl k p h =
    ground (arith, claims-clashes t port l r kl k.0 p, find_overlap-none t port l rs kl k.1 p)

-- Where the check finds no conflict, each transport and port is forwarded by one rule at most.
pub find_rule_conflict-exclusive :
    (t : Transport) (port : ℕ) (rs : List Rule)
    → All IsKnown rs
    → find_rule_conflict rs ≡ none
    → claimants t port rs ≤ 1
unfolding find_rule_conflict claimants
find_rule_conflict-exclusive t port [] k h = omega arith
find_rule_conflict-exclusive t port (l ∷ rs) k h = ground (
  arith,
  find_overlap-none t port l rs k.0 k.1,
  find_rule_conflict-exclusive t port rs k.1,
  claims_enabled t port l,
)

-- How many of the core's listeners hold the transport and port.
unfoldable pub holders : Transport → ℕ → List Listener → ℕ
holders t port [] = 0
holders t port (l ∷ ls) =
    (if l.port == port && has_transport t (expanded_protocols l.protocol) then 1 else 0)
    + holders t port ls

abbrev pub IsKnownListener : Listener → Type 0
IsKnownListener l = is_other l.protocol ≡ false

find_listener-none :
    (t : Transport) (port : ℕ) (r : Rule) (ls : List Listener)
    → IsKnown r
    → All IsKnownListener ls
    → claims t port r ≡ true
    → find_listener r ls ≡ none
    → holders t port ls ≡ 0
unfolding find_listener holders
find_listener-none t port r [] kr k p h = refl
find_listener-none t port r (l ∷ ls) kr k p h = ground (
  arith,
  claims_parts t port r p,
  overlap_of_transport t r.protocol l.protocol kr k.0,
  find_listener-none t port r ls kr k.1 p,
)

-- Where the check against the core finds no conflict, what a rule forwards no listener holds.
pub find_core_conflict-exclusive :
    (t : Transport) (port : ℕ) (rs : List Rule) (ls : List Listener)
    → All IsKnown rs
    → All IsKnownListener ls
    → find_core_conflict rs ls ≡ none
    → 0 < claimants t port rs
    → holders t port ls ≡ 0
unfolding find_core_conflict claimants
find_core_conflict-exclusive t port [] ls k kl h p = absurd (omega arith)
find_core_conflict-exclusive t port (r ∷ rs) ls k kl h p = ground (
  arith,
  find_listener-none t port r ls k.0 kl,
  claims_enabled t port r,
  find_core_conflict-exclusive t port rs ls k.1 kl,
)
