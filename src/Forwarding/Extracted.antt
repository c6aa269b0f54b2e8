-- ===== src/Forwarding/Extracted.antt =====
-- What is extracted from a core's configuration (listeners.go) is known to validation.
use remnawave_node_go.Base.{
  ℕ, suc, ◌≤◌, ◌≡◌, ◌⊎◌, refl, Bool, true, false, ◌||◌, List, [], ◌∷◌, ◌++◌, arith, All, Text,
  codes, text_eq, if◌then◌else◌, Bool-cases, inl, inr,
}
use remnawave_node_go.Base.Strings.{to_lower}
use remnawave_node_go.Base.Json.{
  Json, null, boolean, number, string, object, array, Items, no_items, item, Fields, field_of,
}
use remnawave_node_go.Forwarding.Types.{Protocol, tcp, udp, Listener}
use remnawave_node_go.Forwarding.Names.{Net}
use remnawave_node_go.Forwarding.Validate.{bad_port}
use remnawave_node_go.Forwarding.Listeners.{
  loopback_only, add_protocol, collect_protocols, network_values, kind_protocols, or_inferred,
  infer_protocols, has_protocol, network_names, kind_of, one_of, tcp_kinds, udp_kinds,
}
use remnawave_node_go.Forwarding.Extract.{
  port_of, tag_of, listeners_of, inbound_listeners, extract_items, extract_value,
  extract_core_listeners,
}

-- TCP or UDP.
abbrev pub IsPlain : Protocol → Type 0
IsPlain p = (p ≡ tcp) ⊎ (p ≡ udp)

All-snoc :
    (ps : List Protocol) (p : Protocol) → All IsPlain ps → IsPlain p → All IsPlain (ps ++ p ∷ [])
All-snoc [] p h k = (k, tt)
All-snoc (q ∷ ps) p h k = (h.0, All-snoc ps p h.1 k)

All-add_protocol :
    (p : Protocol) (ps : List Protocol)
    → All IsPlain ps
    → IsPlain p
    → All IsPlain (add_protocol p ps)
unfolding add_protocol
All-add_protocol p ps h k = elim (Bool-cases (has_protocol p ps)) [
  | inl known ↦ rw known h
  | inr new ↦ rw new (All-snoc ps p h k)
]

All-collect_protocols :
    (vs : List Text) (ps : List Protocol) → All IsPlain ps → All IsPlain (collect_protocols vs ps)
unfolding collect_protocols
All-collect_protocols [] ps h = h
All-collect_protocols (v ∷ vs) ps h = elim (Bool-cases (text_eq v (codes "tcp"))) [
  | inl t ↦
      rw t (All-collect_protocols vs (add_protocol tcp ps) (All-add_protocol tcp ps h (inl refl)))
  | inr other ↦ elim (Bool-cases (text_eq v (codes "udp"))) [
    | inl u ↦
        rw (other, u)
          (All-collect_protocols vs (add_protocol udp ps) (All-add_protocol udp ps h (inr refl)))
    | inr skip ↦ rw (other, skip) (All-collect_protocols vs ps h)
  ]
]

All-if :
    (b : Bool) (ps qs : List Protocol)
    → All IsPlain ps
    → All IsPlain qs
    → All IsPlain (if b then ps else qs)
All-if true ps qs h k = h
All-if false ps qs h k = k

All-kind_protocols : (kind : Text) → All IsPlain (kind_protocols kind)
unfolding kind_protocols
All-kind_protocols kind =
    All-if (one_of kind tcp_kinds) (tcp ∷ [])
      (if one_of kind udp_kinds then udp ∷ [] else tcp ∷ udp ∷ []) (inl refl, tt)
      (All-if (one_of kind udp_kinds) (udp ∷ []) (tcp ∷ udp ∷ []) (inr refl, tt)
        (inl refl, (inr refl, tt)))

All-or_inferred :
    (core : Text) (inbound : Fields) (ps : List Protocol)
    → All IsPlain ps
    → All IsPlain (or_inferred core inbound ps)
unfolding or_inferred
All-or_inferred core inbound (p ∷ ps) h = h
All-or_inferred core inbound [] h = elim (Bool-cases (text_eq (to_lower core) (codes "sing_box"))) [
  | inl sing_box ↦ rw sing_box (All-kind_protocols (kind_of inbound))
  | inr other ↦ rw other (inl refl, (inr refl, tt))
]

pub All-infer_protocols :
    (core : Text) (inbound : Fields) → All IsPlain (infer_protocols core inbound)
unfolding infer_protocols network_values
All-infer_protocols core inbound =
    All-or_inferred core inbound (network_values (field_of inbound (codes "network")))
      (All-collect_protocols (network_names (field_of inbound (codes "network"))) [] tt)

-- TCP or UDP, on a port from 1 to 65535.
pub record IsListener (l : Listener) : Type 0 where
  pub plain : IsPlain l.protocol
  pub port : (1 ≤ l.port) × (l.port ≤ 65535)

All-listeners_of :
    (port : ℕ) (tag : Text) (ps : List Protocol)
    → (1 ≤ port) × (port ≤ 65535)
    → All IsPlain ps
    → All IsListener (listeners_of port tag ps)
unfolding listeners_of
All-listeners_of port tag [] range h = tt
All-listeners_of port tag (p ∷ ps) range h =
    (record { plain = h.0; port = range }, All-listeners_of port tag ps range h.1)

All-join :
    (ls ms : List Listener) → All IsListener ls → All IsListener ms → All IsListener (ls ++ ms)
All-join [] ms h k = k
All-join (l ∷ ls) ms h k = (h.0, All-join ls ms h.1 k)

module _ (N : Net) (int_of : Text → ℕ) (core : Text) where
  object_listeners :
      (index : ℕ) (inbound : Fields)
      → All IsListener (inbound_listeners N int_of core index (object inbound))
  unfolding inbound_listeners
  object_listeners index inbound =
      let port = port_of int_of inbound in
      elim (Bool-cases (loopback_only N (field_of inbound (codes "listen")) || bad_port port)) [
        | inl skip ↦ rw skip tt
        | inr kept ↦ rw kept (
            All-listeners_of port (tag_of index inbound) (infer_protocols core inbound)
              (ground arith, ground arith) (All-infer_protocols core inbound))
      ]

  All-inbound_listeners :
      (index : ℕ) (v : Json) → All IsListener (inbound_listeners N int_of core index v)
  unfolding inbound_listeners
  All-inbound_listeners index (object inbound) = object_listeners index inbound
  All-inbound_listeners index null = tt
  All-inbound_listeners index (boolean b) = tt
  All-inbound_listeners index (number t) = tt
  All-inbound_listeners index (string t) = tt
  All-inbound_listeners index (array is) = tt

  All-extract_items :
      (index : ℕ) (is : Items) → All IsListener (extract_items N int_of core index is)
  unfolding extract_items
  All-extract_items index no_items = tt
  All-extract_items index (item v is) =
      All-join (inbound_listeners N int_of core index v)
        (extract_items N int_of core (suc index) is) (All-inbound_listeners index v)
        (All-extract_items (suc index) is)

  All-extract_value : (v : Json) → All IsListener (extract_value N int_of core v)
  unfolding extract_value
  All-extract_value (array is) = All-extract_items 0 is
  All-extract_value (object fs) = tt
  All-extract_value null = tt
  All-extract_value (boolean b) = tt
  All-extract_value (number t) = tt
  All-extract_value (string t) = tt

  -- Every listener that is extracted from a core's configuration, whatever that holds, is a TCP or UDP
  -- one on a port from 1 to 65535.
  pub extract_core_listeners-IsListener :
      (config : Fields) → All IsListener (extract_core_listeners N int_of core config)
  unfolding extract_core_listeners
  extract_core_listeners-IsListener config = All-extract_value (field_of config (codes "inbounds"))
