-- ===== src/Statname.antt =====
-- internal/statname/user_inbound.go: the names under which the core counts a user's traffic on an
-- inbound.
mod Tests
use remnawave_node_go.Base.{
  ℕ, suc, ◌≡◌, ◌≢◌, refl, sym, ap, ◌∙◌, Bool, true, false, not, ◌&&◌, ◌||◌, Option, none, some,
  List, [], ◌∷◌, ◌++◌, arith, Text, codes, text_eq, text_eq_refl, is_empty, ◌==◌, if◌then◌else◌,
  Option-cases, inl, inr,
}
use remnawave_node_go.Base.Base64.{
  encode_base64, decode_base64, AllBytes, decode_base64-encode_base64,
}

abbrev pub user_inbound_separator : Text
user_inbound_separator = codes ".rwib."

-- UserInbound
unfoldable pub user_inbound : Text → Text → Text
user_inbound user_id inbound_tag = user_id ++ (user_inbound_separator ++ encode_base64 inbound_tag)

-- What is left of the text behind the prefix, where it has it.
unfoldable pub strip_prefix : Text → Text → Option Text
strip_prefix [] t = some t
strip_prefix (c ∷ p) [] = none
strip_prefix (c ∷ p) (d ∷ t) = if c == d then strip_prefix p t else none

-- Whether the separator starts here, or else what the rest gives.
unfoldable pub cut_here : ℕ → Option Text → Option (Text × Text) → Option (Text × Text)
cut_here c (some rest) later = some ([], rest)
cut_here c none none = none
cut_here c none (some (left, right)) = some (c ∷ left, right)

-- strings.Cut at a separator that is not blank: the parts around the first one.
unfoldable pub cut : Text → Text → Option (Text × Text)
cut sep [] = none
cut sep (c ∷ t) = cut_here c (strip_prefix sep (c ∷ t)) (cut sep t)

unfoldable pub parse_tag : Text → Option Text → Option (Text × Text)
parse_tag left none = none
parse_tag left (some tag) = if is_empty tag then none else some (left, tag)

unfoldable pub parse_parts : Option (Text × Text) → Option (Text × Text)
parse_parts none = none
parse_parts (some (left, right)) =
    if is_empty left || is_empty right then none else parse_tag left (decode_base64 right)

-- ParseUserInbound; `none` is the answer that is not ok.
unfoldable pub parse_user_inbound : Text → Option (Text × Text)
parse_user_inbound value = parse_parts (cut user_inbound_separator value)

-- UserID
unfoldable pub user_id : Text → Text
user_id value = elim (parse_user_inbound value) [ none ↦ value | some parts ↦ parts.0 ]

unfoldable pub separated_here : Option Text → Bool → Bool
separated_here (some rest) later = false
separated_here none later = later

-- No separator starts inside the first text where the second follows it.
unfoldable pub separated : Text → Text → Bool
separated [] rest = true
separated (c ∷ t) rest =
    separated_here (strip_prefix user_inbound_separator (c ∷ (t ++ rest))) (separated t rest)

is_empty-encode_base64 : (t : Text) → is_empty t ≡ false → is_empty (encode_base64 t) ≡ false
unfolding is_empty encode_base64
is_empty-encode_base64 [] h = h
is_empty-encode_base64 (a ∷ []) h = refl
is_empty-encode_base64 (a ∷ b ∷ []) h = refl
is_empty-encode_base64 (a ∷ b ∷ c ∷ t) h = refl

cut_here-separated :
    (c : ℕ) (o : Option Text) (apart : Bool) (later : Option (Text × Text)) (t rest : Text)
    → separated_here o apart ≡ true
    → (apart ≡ true → later ≡ some (t, rest))
    → cut_here c o later ≡ some (c ∷ t, rest)
unfolding cut_here separated_here
cut_here-separated c (some r) apart later t rest h k = cc
cut_here-separated c none apart later t rest h k = rw (k h) refl

cut-separated :
    (t rest : Text)
    → separated t (user_inbound_separator ++ rest) ≡ true
    → cut user_inbound_separator (t ++ (user_inbound_separator ++ rest)) ≡ some (t, rest)
unfolding cut separated
cut-separated [] rest h = unfold strip_prefix cut_here in refl
cut-separated (c ∷ t) rest h =
    cut_here-separated c _ (separated t (user_inbound_separator ++ rest)) _ t rest h
      (cut-separated t rest)

-- A user's id that is not blank and in which no separator starts, and an inbound's tag of one byte or
-- more, come back from the name that is made of them.
pub parse_user_inbound-user_inbound :
    (id tag : Text)
    → is_empty id ≡ false
    → is_empty tag ≡ false
    → AllBytes tag
    → separated id (user_inbound_separator ++ encode_base64 tag) ≡ true
    → parse_user_inbound (user_inbound id tag) ≡ some (id, tag)
unfolding parse_user_inbound user_inbound parse_parts parse_tag
parse_user_inbound-user_inbound id tag named tagged bytes apart =
    rw
      (
        cut-separated id (encode_base64 tag) apart,
        named,
        is_empty-encode_base64 tag tagged,
        decode_base64-encode_base64 tag bytes,
        tagged,
      )
      refl
