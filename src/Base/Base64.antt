-- ===== src/Base/Base64.antt =====
-- base64.RawURLEncoding on bytes: 6 bits a character, no padding. Decoding skips line breaks and
-- does not ask that the spare bits of the last character are 0, as Go's does.
use Prim.Native.Nat.{ℕ, ◌+◌, ◌-◌, ◌*◌, ◌/◌, ◌%◌, ◌<◌}
use mathlib.Core.Path.{◌≡◌, refl, ap}
use mathlib.Core.Bool.{false, ◌&&◌, ◌||◌}
use mathlib.Core.Option.{Option, none, some}
use mathlib.Core.List.{List, [], ◌∷◌}
use native.Mathlib.Omega.{arith}
use remnawave_node_go.Base.Tests.{ltb, leb, ◌==◌, if◌then◌else◌}
use remnawave_node_go.Base.Lists.{All}
use remnawave_node_go.Base.Texts.{Text}

-- The alphabet A-Z a-z 0-9 - _.
digit : ℕ → ℕ
digit i =
    if ltb i 26
    then b'A' + i
    else if ltb i 52
    then b'a' + (i - 26)
    else if ltb i 62
    then b'0' + (i - 52)
    else if i == 62
    then b'-'
    else b'_'

value_of_digit : ℕ → Option ℕ
value_of_digit c =
    if leb b'A' c && leb c b'Z'
    then some (c - b'A')
    else if leb b'a' c && leb c b'z'
    then some (c - b'a' + 26)
    else if leb b'0' c && leb c b'9'
    then some (c - b'0' + 52)
    else if c == b'-'
    then some 62
    else if c == b'_'
    then some 63
    else none

value_of_digit-digit : (i : ℕ) → i < 64 → value_of_digit (digit i) ≡ some i
unfolding value_of_digit digit
value_of_digit-digit i h = ground arith

-- EncodeToString
unfoldable pub encode_base64 : Text → Text
unfolding digit
encode_base64 [] = []
encode_base64 (a ∷ []) = digit (a / 4) ∷ digit (a % 4 * 16) ∷ []
encode_base64 (a ∷ b ∷ []) = digit (a / 4) ∷ digit (a % 4 * 16 + b / 16) ∷ digit (b % 16 * 4) ∷ []
encode_base64 (a ∷ b ∷ c ∷ t) =
    digit (a / 4)
    ∷ digit (a % 4 * 16 + b / 16)
    ∷ digit (b % 16 * 4 + c / 64)
    ∷ digit (c % 64)
    ∷ encode_base64 t

-- The numbers of the characters, less line breaks; none at a character that is not of the alphabet.
digit_values : Text → Option (List ℕ)
unfolding value_of_digit
digit_values [] = some []
digit_values (c ∷ t) =
    let rest = digit_values t in
    if c == 10 || c == 13 then rest else elim (value_of_digit c) [
      | none ↦ none
      | some v ↦ elim rest [ none ↦ none | some vs ↦ some (v ∷ vs) ]
    ]

-- The bytes of the numbers; a single one over is no byte.
bytes_of_values : List ℕ → Option Text
bytes_of_values [] = some []
bytes_of_values (p ∷ []) = none
bytes_of_values (p ∷ q ∷ []) = some ((p * 4 + q / 16) ∷ [])
bytes_of_values (p ∷ q ∷ r ∷ []) = some ((p * 4 + q / 16) ∷ (q % 16 * 16 + r / 4) ∷ [])
bytes_of_values (p ∷ q ∷ r ∷ s ∷ vs) = elim (bytes_of_values vs) [
  | none ↦ none
  | some t ↦ some ((p * 4 + q / 16) ∷ (q % 16 * 16 + r / 4) ∷ (r % 4 * 64 + s) ∷ t)
]

-- DecodeString
unfoldable pub decode_base64 : Text → Option Text
unfolding digit_values bytes_of_values
decode_base64 t = elim (digit_values t) [ none ↦ none | some vs ↦ bytes_of_values vs ]

abbrev pub AllBytes : Text → Type 0
AllBytes = All (λ b. b < 256)

digit-plain : (i : ℕ) → (digit i == 10 || digit i == 13) ≡ false
unfolding digit
digit-plain i = ground arith

-- What a digit before a text adds.
digit_values-digit :
    (i : ℕ) (t : Text) (vs : List ℕ)
    → i < 64
    → digit_values t ≡ some vs
    → digit_values (digit i ∷ t) ≡ some (i ∷ vs)
unfolding digit_values
digit_values-digit i t vs h e = simp (digit-plain i, value_of_digit-digit i h, e) refl

unfoldable values_of : Text → List ℕ
values_of [] = []
values_of (a ∷ []) = (a / 4) ∷ (a % 4 * 16) ∷ []
values_of (a ∷ b ∷ []) = (a / 4) ∷ (a % 4 * 16 + b / 16) ∷ (b % 16 * 4) ∷ []
values_of (a ∷ b ∷ c ∷ t) =
    (a / 4) ∷ (a % 4 * 16 + b / 16) ∷ (b % 16 * 4 + c / 64) ∷ (c % 64) ∷ values_of t

digit_values-encode_base64 :
    (t : Text) → AllBytes t → digit_values (encode_base64 t) ≡ some (values_of t)
unfolding encode_base64 values_of
digit_values-encode_base64 [] h = unfold digit_values in refl
digit_values-encode_base64 (a ∷ []) h =
    digit_values-digit _ _ _ (omega arith)
      (digit_values-digit _ _ _ (omega arith) (unfold digit_values in refl))
digit_values-encode_base64 (a ∷ b ∷ []) h = digit_values-digit _ _ _ (omega (arith, h.0)) (
    digit_values-digit _ _ _ (omega (arith, h.1.0))
      (digit_values-digit _ _ _ (omega arith) (unfold digit_values in refl)))
digit_values-encode_base64 (a ∷ b ∷ c ∷ t) h = digit_values-digit _ _ _ (omega (arith, h.0)) (
    digit_values-digit _ _ _ (omega (arith, h.1.0)) (
      digit_values-digit _ _ _ (omega (arith, h.1.1.0))
        (digit_values-digit _ _ _ (omega arith) (digit_values-encode_base64 t h.1.1.1))))

first_byte : (a b : ℕ) → a < 256 → b < 256 → a / 4 * 4 + (a % 4 * 16 + b / 16) / 16 ≡ a
first_byte a b p q = omega arith

second_byte :
    (a b c : ℕ)
    → b < 256
    → c < 256
    → (a % 4 * 16 + b / 16) % 16 * 16 + (b % 16 * 4 + c / 64) / 4 ≡ b
second_byte a b c p q = omega arith

last_of_two : (a b : ℕ) → b < 256 → (a % 4 * 16 + b / 16) % 16 * 16 + b % 16 * 4 / 4 ≡ b
last_of_two a b p = omega arith

third_byte : (b c : ℕ) → c < 256 → (b % 16 * 4 + c / 64) % 4 * 64 + c % 64 ≡ c
third_byte b c p = omega arith

bytes_of_values-values_of : (t : Text) → AllBytes t → bytes_of_values (values_of t) ≡ some t
unfolding bytes_of_values values_of
bytes_of_values-values_of [] h = refl
bytes_of_values-values_of (a ∷ []) h = ap (λ x. some (x ∷ [])) (omega arith)
bytes_of_values-values_of (a ∷ b ∷ []) h = rw (first_byte a b h.0 h.1.0, last_of_two a b h.1.0) refl
bytes_of_values-values_of (a ∷ b ∷ c ∷ t) h =
    rw
      (
        bytes_of_values-values_of t h.1.1.1,
        first_byte a b h.0 h.1.0,
        second_byte a b c h.1.0 h.1.1.0,
        third_byte b c h.1.1.0,
      )
      refl

-- Decoding an encoding gives the bytes back.
pub decode_base64-encode_base64 : (t : Text) → AllBytes t → decode_base64 (encode_base64 t) ≡ some t
unfolding decode_base64
decode_base64-encode_base64 t h =
    rw (digit_values-encode_base64 t h, decode_base64) (bytes_of_values-values_of t h)
