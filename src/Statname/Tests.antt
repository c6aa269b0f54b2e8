-- ===== src/Statname/Tests.antt =====
-- The theorem on names at one user and inbound.
use remnawave_node_go.Base.{◌≡◌, refl, some, arith, codes, is_empty}
use remnawave_node_go.Base.Base64.{encode_base64, decode_base64}
use remnawave_node_go.Statname.{
  user_inbound, strip_prefix, cut, cut_here, separated, separated_here, parse_parts, parse_tag,
  parse_user_inbound, user_id, parse_user_inbound-user_inbound,
}

name : user_inbound (codes "7") (codes "vless-in") ≡ codes "7.rwib.dmxlc3MtaW4"
unfolding user_inbound encode_base64
name = refl

plain_id : user_id (codes "7b.rwib.!") ≡ codes "7b.rwib.!"
unfolding user_id parse_user_inbound parse_parts parse_tag cut cut_here strip_prefix decode_base64
    is_empty
plain_id = refl

parse_user_inbound-user_inbound_example :
    parse_user_inbound (user_inbound (codes "7b") (codes "in")) ≡ some (codes "7b", codes "in")
parse_user_inbound-user_inbound_example =
    parse_user_inbound-user_inbound (codes "7b") (codes "in") (unfold is_empty in refl)
      (unfold is_empty in refl) (omega arith, (omega arith, tt))
      (unfold separated separated_here strip_prefix in refl)
