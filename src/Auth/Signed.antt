-- ===== src/Auth/Signed.antt =====
-- What an accepted token is.
use mathlib.Core.List.{append-nil}
use remnawave_node_go.Base.{
  not, ◌≤◌, ◌<◌, ◌^◌, ◌⊎◌, is_negative, ℕ, ◌≡◌, refl, sym, ap, ◌∙◌, subst, Bool, true, false,
  Option, none, some, List, [], ◌∷◌, ◌++◌, arith, Text, codes, text_eq, text_eq_iff, String, ok,
  >>=-eq-ok, ◌==◌, Bool-cases, inl, inr,
}
use remnawave_node_go.Base.Base64.{decode_base64}
use remnawave_node_go.Base.Json.{Json, number, Fields, field_of}
use remnawave_node_go.AccessAudit.Store.{less_int64}
use remnawave_node_go.Auth.{
  Verifier, put_first, split_dots, three_parts, or_fail, unless_holds, numeric_claim, is_unexpired,
  is_started, signing_input, verify,
}

-- A dot before each part.
abbrev with_dots : List Text → Text
with_dots [] = []
with_dots (w ∷ ws) = b'.' ∷ (w ++ with_dots ws)

-- a < b as int64s, where the patterns from 2^63 on are the negative ones.
abbrev pub IsEarlier : ℕ → ℕ → Type 0
IsEarlier a b = ((2 ^ 63 ≤ a) × (b < 2 ^ 63)) ⊎ ((a < b) × ((b < 2 ^ 63) ⊎ (2 ^ 63 ≤ a)))

less_int64-IsEarlier : (a b : ℕ) → less_int64 a b ≡ true → IsEarlier a b
unfolding less_int64
less_int64-IsEarlier a b h = elim (Bool-cases (is_negative a)) [
  | inl minus ↦ elim (Bool-cases (is_negative b)) [
    | inl both ↦ inr (ground (arith, h), inr (ground arith))
    | inr plus ↦ inl (ground arith, ground arith)
  ]
  | inr plus ↦ inr (ground (arith, h), inl (ground (arith, h)))
]

IsEarlier-less_int64 : (a b : ℕ) → less_int64 a b ≡ false → IsEarlier a b → ⊥
unfolding less_int64
IsEarlier-less_int64 a b h (inl (minus, plus)) = ground (arith, h)
IsEarlier-less_int64 a b h (inr (lt, inl plus)) = ground (arith, h)
IsEarlier-less_int64 a b h (inr (lt, inr minus)) = ground (arith, h)

-- A token that is accepted, with its claims.
pub record IsAuthentic (v : Verifier) (now : ℕ) (token : Text) (claims : Fields) : Type 0 where
  pub header_part : Text
  pub payload_part : Text
  pub signature_part : Text
  pub header : Text
  pub payload : Text
  pub signature : Text
  pub made : token ≡ header_part ++ b'.' ∷ (payload_part ++ b'.' ∷ signature_part)
  pub header_read : decode_base64 header_part ≡ some header
  pub payload_read : decode_base64 payload_part ≡ some payload
  pub signature_read : decode_base64 signature_part ≡ some signature
  pub algorithm : v.read_algorithm header ≡ some (codes "RS256")
  pub genuine : v.is_signature (header_part ++ b'.' ∷ payload_part) signature ≡ true
  pub claims_read : v.read_claims payload ≡ some claims
  pub unexpired : (t : Text) → field_of claims (codes "exp") ≡ number t → IsEarlier now (v.int_of t)
  pub started :
      (t : Text) → field_of claims (codes "nbf") ≡ number t → IsEarlier now (v.int_of t) → ⊥

with_dots-put_first :
    (c : ℕ) (t : Text) (ws : List Text)
    → with_dots ws ≡ b'.' ∷ t
    → with_dots (put_first c ws) ≡ b'.' ∷ c ∷ t
unfolding put_first
with_dots-put_first c t [] h = cc
with_dots-put_first c t (w ∷ ws) h =
    let rest : w ++ with_dots ws ≡ t = cc in ap (λ x. b'.' ∷ c ∷ x) rest

-- The parts with their dots are the token.
with_dots-split_dots : (t : Text) → with_dots (split_dots t) ≡ b'.' ∷ t
unfolding split_dots
with_dots-split_dots [] = refl
with_dots-split_dots (c ∷ t) =
    let ih = with_dots-split_dots t in
    elim (Bool-cases (c == b'.')) [
      | inl dot ↦
          let is_dot : b'.' ≡ c = ground arith in
          simp dot (ap (λ x. b'.' ∷ x) ih ∙ ap (λ x. b'.' ∷ x ∷ t) is_dot)
      | inr plain ↦ simp plain (with_dots-put_first c t (split_dots t) ih)
    ]

three_parts-eq-ok :
    (ws : List Text) {h p s : Text} → three_parts ws ≡ ok (h, (p, s)) → ws ≡ h ∷ p ∷ s ∷ []
unfolding three_parts
three_parts-eq-ok [] e = cc
three_parts-eq-ok (a ∷ []) e = cc
three_parts-eq-ok (a ∷ b ∷ []) e = cc
three_parts-eq-ok (a ∷ b ∷ c ∷ []) e = cc
three_parts-eq-ok (a ∷ b ∷ c ∷ d ∷ ws) e = cc

-- A token of three parts is the parts with a dot between them.
three_parts-token :
    (token h p s : Text)
    → three_parts (split_dots token) ≡ ok (h, (p, s))
    → token ≡ h ++ b'.' ∷ (p ++ b'.' ∷ s)
three_parts-token token h p s e =
    let parts = three_parts-eq-ok (split_dots token) e in
    let whole : b'.' ∷ token ≡ b'.' ∷ (h ++ b'.' ∷ (p ++ b'.' ∷ (s ++ []))) =
      sym (with_dots-split_dots token) ∙ ap with_dots parts in
    let same : token ≡ h ++ b'.' ∷ (p ++ b'.' ∷ (s ++ [])) = cc in
    same ∙ ap (λ x. h ++ b'.' ∷ (p ++ b'.' ∷ x)) (append-nil s)

or_fail-eq-ok :
    {A : Type 0} (text : String) (o : Option A) {x : A} → or_fail text o ≡ ok x → o ≡ some x
unfolding or_fail
or_fail-eq-ok text none e = cc
or_fail-eq-ok text (some y) e = cc

unless_holds-eq-ok :
    (holds : Bool) (text : String) (u : Unit {0}) → unless_holds holds text ≡ ok u → holds ≡ true
unfolding unless_holds
unless_holds-eq-ok true text u e = refl
unless_holds-eq-ok false text u e = cc

is_unexpired-IsEarlier :
    (int_of : Text → ℕ) (now : ℕ) (c : Json) (t : Text)
    → is_unexpired now (numeric_claim int_of c) ≡ true
    → c ≡ number t
    → IsEarlier now (int_of t)
unfolding is_unexpired numeric_claim
is_unexpired-IsEarlier int_of now c t h e =
    less_int64-IsEarlier now (int_of t)
      (ap (λ x. is_unexpired now (numeric_claim int_of x)) (sym e) ∙ h)

is_started-IsEarlier :
    (int_of : Text → ℕ) (now : ℕ) (c : Json) (t : Text)
    → is_started now (numeric_claim int_of c) ≡ true
    → c ≡ number t
    → IsEarlier now (int_of t)
    → ⊥
unfolding is_started numeric_claim
is_started-IsEarlier int_of now c t h e =
    let passed : not (less_int64 now (int_of t)) ≡ true =
      ap (λ x. is_started now (numeric_claim int_of x)) (sym e) ∙ h in
    IsEarlier-less_int64 now (int_of t) (ground (arith, passed))

-- A token that Verify accepts has three parts, base64url texts with dots between them. Its header names
-- RS256, its signature is one of the first two parts with their dot under the verifier's key, and the
-- claims that are returned are those of its payload; a number as their expiry is later than now, and a
-- number as their start is not.
pub verify-IsAuthentic :
    (v : Verifier) (now : ℕ) (token : Text) {claims : Fields}
    → verify v now token ≡ ok claims
    → IsAuthentic v now token claims
unfolding verify
verify-IsAuthentic v now token {claims} h =
    let (parts, split, h1) = >>=-eq-ok (three_parts (split_dots token)) _ h in
    let (header, e1, h2) = >>=-eq-ok (or_fail _ (decode_base64 parts.0)) _ h1 in
    let (algorithm, e2, h3) = >>=-eq-ok (or_fail _ (v.read_algorithm header)) _ h2 in
    let (supported, e3, h4) = >>=-eq-ok (unless_holds (text_eq algorithm (codes "RS256")) _) _ h3 in
    let (signature, e4, h5) = >>=-eq-ok (or_fail _ (decode_base64 parts.1.1)) _ h4 in
    let (genuine, e5, h6) =
      >>=-eq-ok (unless_holds (v.is_signature (signing_input parts.0 parts.1.0) signature) _) _
        h5 in
    let (payload, e6, h7) = >>=-eq-ok (or_fail _ (decode_base64 parts.1.0)) _ h6 in
    let (found, e7, h8) = >>=-eq-ok (or_fail _ (v.read_claims payload)) _ h7 in
    let exp = numeric_claim v.int_of (field_of found (codes "exp")) in
    let nbf = numeric_claim v.int_of (field_of found (codes "nbf")) in
    let (unexpired, e8, h9) = >>=-eq-ok (unless_holds (is_unexpired now exp) _) _ h8 in
    let (started, e9, h10) = >>=-eq-ok (unless_holds (is_started now nbf) _) _ h9 in
    let same : found ≡ claims = cc in
    let rs256 = (text_eq_iff algorithm (codes "RS256")).0 (unless_holds-eq-ok _ _ supported e3) in
    subst (IsAuthentic v now token) same (record {
      header_part = parts.0;
      payload_part = parts.1.0;
      signature_part = parts.1.1;
      header = header;
      payload = payload;
      signature = signature;
      made = three_parts-token token parts.0 parts.1.0 parts.1.1 split;
      header_read = or_fail-eq-ok _ _ e1;
      payload_read = or_fail-eq-ok _ _ e6;
      signature_read = or_fail-eq-ok _ _ e4;
      algorithm = or_fail-eq-ok _ _ e2 ∙ ap some rs256;
      genuine = unless_holds-eq-ok _ _ genuine e5;
      claims_read = or_fail-eq-ok _ _ e7;
      unexpired = λ t e.
          is_unexpired-IsEarlier v.int_of now (field_of found (codes "exp")) t
            (unless_holds-eq-ok _ _ unexpired e8) e;
      started = λ t e.
          is_started-IsEarlier v.int_of now (field_of found (codes "nbf")) t
            (unless_holds-eq-ok _ _ started e9) e;
    })
