-- ===== src/Node/Ports.antt =====
-- The ports of Node.Lists in their order, each once.
use remnawave_node_go.Base.{
  ℕ, ◌≤◌, ◌<◌, ◌≡◌, refl, true, List, [], ◌∷◌, arith, All, Text, ltb, ◌==◌, Bool-cases, inl, inr,
}
use remnawave_node_go.Base.Json.{Items, no_items, item, number, string}
use remnawave_node_go.Forwarding.Listeners.{atoi}
use remnawave_node_go.Node.Lists.{
  Numbers, Shared, is_port, append_ports, item_ports, insert_port, sort_ports, drop_repeats,
  resolve_port_list,
}

-- Ports that increase above `last`, up to 65535.
abbrev pub Rising : ℕ → List ℕ → Type 0
Rising last [] = Unit
Rising last (p ∷ ps) = (last < p) × (p ≤ 65535) × Rising p ps

-- Ports, each in its range.
abbrev Ports : List ℕ → Type 0
Ports = All (λ p. is_port p ≡ true)

-- Ports that do not decrease from `last` on.
abbrev Ordered : ℕ → List ℕ → Type 0
Ordered last [] = Unit
Ordered last (p ∷ ps) = (last ≤ p) × (p ≤ 65535) × Ordered p ps

append_ports-Ports : (ts : List Text) (ps : List ℕ) → Ports ps → Ports (append_ports ts ps)
unfolding append_ports
append_ports-Ports [] ps k = k
append_ports-Ports (t ∷ ts) ps k = elim (Bool-cases (is_port (atoi t))) [
  | inl port ↦ simp port (refl, append_ports-Ports ts ps k)
  | inr other ↦ simp other (append_ports-Ports ts ps k)
]

item_ports-Ports : (n : Numbers) (shared : Shared) (is : Items) → Ports (item_ports n shared is)
unfolding item_ports
item_ports-Ports n shared no_items = tt
item_ports-Ports n shared (item (number t) is) =
    append_ports-Ports (n.truncated t ∷ []) _ (item_ports-Ports n shared is)
item_ports-Ports n shared (item (string t) is) =
    append_ports-Ports _ _ (item_ports-Ports n shared is)
item_ports-Ports n shared (item v is) = item_ports-Ports n shared is

Ordered-insert_port :
    (last p : ℕ) (qs : List ℕ)
    → last ≤ p
    → p ≤ 65535
    → Ordered last qs
    → Ordered last (insert_port p qs)
unfolding insert_port
Ordered-insert_port last p [] h b k = (h, b, tt)
Ordered-insert_port last p (q ∷ qs) h b k = elim (Bool-cases (ltb q p)) [
  | inl later ↦ simp later (k.0, k.1, Ordered-insert_port q p qs (ground arith) b k.2)
  | inr here ↦ simp here (h, b, (ground arith, k.1, k.2))
]

Ordered-sort_ports : (ps : List ℕ) → Ports ps → Ordered 1 (sort_ports ps)
unfolding sort_ports
Ordered-sort_ports [] k = tt
Ordered-sort_ports (p ∷ ps) k =
    Ordered-insert_port 1 p (sort_ports ps) (ground (arith, k.0)) (ground (arith, k.0))
      (Ordered-sort_ports ps k.1)

drop_repeats-Rising :
    (last from : ℕ) (ps : List ℕ)
    → last ≤ from
    → Ordered from ps
    → Rising last (drop_repeats last ps)
unfolding drop_repeats
drop_repeats-Rising last from [] h k = tt
drop_repeats-Rising last from (p ∷ ps) h k = elim (Bool-cases (p == last)) [
  | inl same ↦ simp same (drop_repeats-Rising last p ps (ground (arith, h, k.0)) k.2)
  | inr new ↦ simp new (ground (arith, h, k.0), k.1, drop_repeats-Rising p p ps (ground arith) k.2)
]

pub resolve_port_list-Rising :
    (n : Numbers) (shared : Shared) (values : Items) → Rising 0 (resolve_port_list n shared values)
unfolding resolve_port_list
resolve_port_list-Rising n shared values =
    drop_repeats-Rising 0 1 (sort_ports (item_ports n shared values)) (ground arith)
      (Ordered-sort_ports (item_ports n shared values) (item_ports-Ports n shared values))
