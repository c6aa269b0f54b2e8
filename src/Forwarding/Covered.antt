-- ===== src/Forwarding/Covered.antt =====
-- No inbound of a core's configuration is missed by the listeners that are extracted from it.
use remnawave_node_go.Base.{ℕ, ◌≡◌, ◌⊎◌, List, [], ◌∷◌}
use remnawave_node_go.Base.Json.{Json, object, Items, no_items, item, Fields}
use remnawave_node_go.Forwarding.Types.{Protocol, Listener}
use remnawave_node_go.Forwarding.Extracted.{IsPlain}

-- One of the listeners has the port, for TCP or UDP.
abbrev pub HasListener : ℕ → List Listener → Type 0
HasListener port [] = ⊥
HasListener port (l ∷ ls) = ((l.port ≡ port) × IsPlain l.protocol) ⊎ HasListener port ls

-- The object is one of the items.
abbrev pub Among : Fields → Items → Type 0
Among inbound no_items = ⊥
Among inbound (item v is) = (v ≡ object inbound) ⊎ Among inbound is

abbrev NonEmpty : List Protocol → Type 0
NonEmpty [] = ⊥
NonEmpty (p ∷ ps) = Unit
