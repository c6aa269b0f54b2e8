-- ===== src/Auth/Tests.antt =====
-- A token and its verification.
use remnawave_node_go.Base.{◌≡◌, refl, some, Text, codes, text_eq, message, ok, err}
use remnawave_node_go.Base.Base64.{decode_base64}
use remnawave_node_go.Base.Json.{number, Fields, field, no_fields, field_of}
use remnawave_node_go.AccessAudit.Store.{less_int64}
use remnawave_node_go.Auth.{
  Verifier, put_first, split_dots, three_parts, or_fail, unless_holds, numeric_claim, is_unexpired,
  is_started, verify,
}
use remnawave_node_go.Auth.Signed.{IsAuthentic, verify-IsAuthentic}

abbrev claims : Fields
claims = field (codes "exp") (number (codes "90")) no_fields

-- The key under which the signature of any text is "s".
abbrev verifier : Verifier
verifier = record {
  is_signature = λ t s. text_eq s (codes "s");
  read_algorithm = λ t. some t;
  read_claims = λ t. some claims;
  int_of = λ t. 90;
}

-- "RS256", "{}" and "s".
abbrev token : Text
token = codes "UlMyNTY.e30.cw"

verified : Unit {0}
unfolding text_eq put_first split_dots three_parts or_fail unless_holds numeric_claim is_unexpired
    is_started verify decode_base64 field_of less_int64
verified = tt

accepted_token : verify verifier 80 token ≡ ok claims
unfolding verified
accepted_token = refl

expired_token : verify verifier 90 token ≡ err (message "jwt expired")
unfolding verified
expired_token = refl

unsigned_token :
    verify verifier 80 (codes "UlMyNTY.e30.YQ") ≡ err (message "jwt signature verification failed")
unfolding verified
unsigned_token = refl

verify-IsAuthentic_example : IsAuthentic verifier 80 token claims
verify-IsAuthentic_example = verify-IsAuthentic verifier 80 token accepted_token
