-- ===== src/Forwarding/Types.antt =====
-- The data of internal/forwarding/forwarding.go. A port is an int as its 64-bit pattern. A map is an
-- association list, of which the first entry of a key counts.
use remnawave_node_go.Base.{
  ℕ, suc, ◌≡◌, refl, Bool, true, false, ◌||◌, List, [], ◌∷◌, Text, text_eq, String, Error,
  if◌then◌else◌, ◌⊎◌, inl, inr,
}

-- The three constants; validation refuses any other text.
pub data Protocol : Type 0 where
  tcp udp tcp_udp : Protocol
  other : Text → Protocol

pub record Rule : Type 0 where
  pub id : Text
  pub name : Text
  pub enabled : Bool
  pub protocol : Protocol
  pub listen_port : ℕ
  pub target_address : Text
  pub target_port : ℕ

pub record Config : Type 0 where
  pub enabled : Bool
  pub listen_interface : Text
  pub rules : List Rule

pub record Listener : Type 0 where
  pub protocol : Protocol
  pub port : ℕ
  pub source : Text

-- ConflictError; `with` is ConflictsWith.
pub record Conflict : Type 0 where
  pub protocol : Protocol
  pub port : ℕ
  pub conflicts_with : String
  pub detail : Text

-- The errors of the package by their kind: a conflict, a failed resolution of a host name, a refusal
-- by a check of the code, or what the system reported.
pub data Failure : Type 0 where
  conflict : Conflict → Failure
  dns : Text → Failure
  invalid : String → Failure
  system : Error → Failure
  -- `errors.New` on the text of another
  restated : Failure → Failure

infixl 5 ◌>>=◌ ◌>>◌
-- What a function of the package returns: a value, or one of these errors.
pub data Outcome {ℓ} (V : Type ℓ) : Type ℓ where
  fail : Failure → Outcome V
  done : V → Outcome V

pub Outcome-cases {ℓ} :
    {V : Type ℓ} (o : Outcome V) → ((v : V) × (o ≡ done v)) ⊎ ((e : Failure) × (o ≡ fail e))
Outcome-cases (fail e) = inr (e, refl)
Outcome-cases (done v) = inl (v, refl)

abbrev pub ◌>>=◌ {ℓ κ} : {V : Type ℓ} {W : Type κ} → Outcome V → (V → Outcome W) → Outcome W
fail e >>= rest = fail e
done v >>= rest = rest v

pub >>=-eq-done {ℓ κ} :
    {V : Type ℓ} {W : Type κ} (first : Outcome V) (rest : V → Outcome W) {w : W}
    → (first >>= rest) ≡ done w
    → (v : V) × (first ≡ done v) × (rest v ≡ done w)
>>=-eq-done (fail e) rest h = cc
>>=-eq-done (done v) rest h = (v, refl, h)

abbrev pub ◌>>◌ {ℓ} : {W : Type ℓ} → Outcome (Unit {0}) → Outcome W → Outcome W
first >> rest = first >>= λ _. rest

abbrev pub refuse_if : Bool → Failure → Outcome (Unit {0})
refuse_if true e = fail e
refuse_if false e = done tt

-- isDNSResolutionError: `errors.As` looks through the wrapping texts, which are left out.
abbrev pub is_dns : Failure → Bool
is_dns (dns t) = true
is_dns _ = false

abbrev pub Names : Type 0
Names = List (Text × Text)

-- m[k], "" where the key is missing.
unfoldable pub value_of : Names → Text → Text
value_of [] k = []
value_of ((j, v) ∷ m) k = if text_eq j k then v else value_of m k

-- _, ok := m[k]
unfoldable pub has_key : Names → Text → Bool
has_key [] k = false
has_key ((j, v) ∷ m) k = text_eq j k || has_key m k

unfoldable pub protocol_eq : Protocol → Protocol → Bool
protocol_eq tcp tcp = true
protocol_eq udp udp = true
protocol_eq tcp_udp tcp_udp = true
protocol_eq (other a) (other b) = text_eq a b
protocol_eq _ _ = false

abbrev is_tcp_udp : Protocol → Bool
is_tcp_udp tcp_udp = true
is_tcp_udp _ = false

-- protocolsOverlap
unfoldable pub protocols_overlap : Protocol → Protocol → Bool
unfolding protocol_eq
protocols_overlap left right = is_tcp_udp left || is_tcp_udp right || protocol_eq left right

-- overlapProtocol
unfoldable pub overlap_protocol : Protocol → Protocol → Protocol
overlap_protocol left right = if is_tcp_udp left then right else left

-- enabledRuleCount
unfoldable pub enabled_count : List Rule → ℕ
enabled_count [] = 0
enabled_count (r ∷ rs) = let n = enabled_count rs in if r.enabled then suc n else n

pub data Transport : Type 0 where
  over_tcp over_udp : Transport

-- expandedProtocols: what one rule forwards.
unfoldable pub expanded_protocols : Protocol → List Transport
expanded_protocols tcp = over_tcp ∷ []
expanded_protocols udp = over_udp ∷ []
expanded_protocols _ = over_tcp ∷ over_udp ∷ []
