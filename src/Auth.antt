-- ===== src/Auth.antt =====
-- internal/auth/jwt.go: the verification of the panel's tokens. The RSA key, SHA-256 and encoding/json
-- are parameters; the time and the claims' numbers are int64.
mod Signed
mod Tests
use remnawave_node_go.Base.{
  ℕ, Bool, true, not, Option, none, some, List, [], ◌∷◌, ◌++◌, Text, codes, text_eq, String,
  message, Result, ok, err, ◌>>=◌, ◌>>◌, ◌==◌, if◌then◌else◌,
}
use remnawave_node_go.Base.Base64.{decode_base64}
use remnawave_node_go.Base.Json.{Json, number, Fields, field_of}
use remnawave_node_go.AccessAudit.Store.{less_int64}

-- Whether a signature is that of a text under the verifier's key, the algorithm that a header names,
-- the claims of a payload, and the integer of a number's text.
pub record Verifier : Type 0 where
  pub is_signature : Text → Text → Bool
  pub read_algorithm : Text → Option Text
  pub read_claims : Text → Option Fields
  pub int_of : Text → ℕ

unfoldable pub put_first : ℕ → List Text → List Text
put_first c [] = (c ∷ []) ∷ []
put_first c (w ∷ ws) = (c ∷ w) ∷ ws

-- strings.Split(token, ".")
unfoldable pub split_dots : Text → List Text
split_dots [] = [] ∷ []
split_dots (c ∷ t) = let rest = split_dots t in if c == b'.' then [] ∷ rest else put_first c rest

unfoldable pub three_parts : List Text → Result (Text × (Text × Text))
three_parts (header ∷ payload ∷ signature ∷ []) = ok (header, (payload, signature))
three_parts _ = err (message "jwt must have three parts")

-- An error where there is no value.
unfoldable pub or_fail : {A : Type 0} → String → Option A → Result A
or_fail text none = err (message text)
or_fail text (some x) = ok x

unfoldable pub unless_holds : Bool → String → Result (Unit {0})
unless_holds holds text = if holds then ok tt else err (message text)

-- numericClaim
unfoldable pub numeric_claim : (Text → ℕ) → Json → Option ℕ
numeric_claim int_of (number t) = some (int_of t)
numeric_claim int_of _ = none

unfoldable pub is_unexpired : ℕ → Option ℕ → Bool
is_unexpired now none = true
is_unexpired now (some exp) = less_int64 now exp

unfoldable pub is_started : ℕ → Option ℕ → Bool
is_started now none = true
is_started now (some nbf) = not (less_int64 now nbf)

-- The text that is signed.
abbrev pub signing_input : Text → Text → Text
signing_input header payload = header ++ b'.' ∷ payload

-- Verify
unfoldable pub verify : Verifier → ℕ → Text → Result Fields
verify v now token = do
  parts ← three_parts (split_dots token)
  header ← or_fail "jwt header is invalid base64url" (decode_base64 parts.0)
  algorithm ← or_fail "jwt header is invalid JSON" (v.read_algorithm header)
  supported ← unless_holds (text_eq algorithm (codes "RS256")) "unsupported jwt algorithm"
  signature ← or_fail "jwt signature is invalid base64url" (decode_base64 parts.1.1)
  genuine ←
      unless_holds (v.is_signature (signing_input parts.0 parts.1.0) signature)
        "jwt signature verification failed"
  payload ← or_fail "jwt payload is invalid base64url" (decode_base64 parts.1.0)
  claims ← or_fail "jwt payload is invalid JSON" (v.read_claims payload)
  unexpired ←
      unless_holds (is_unexpired now (numeric_claim v.int_of (field_of claims (codes "exp"))))
        "jwt expired"
  started ←
      unless_holds (is_started now (numeric_claim v.int_of (field_of claims (codes "nbf"))))
        "jwt not active yet"
  ok claims
