-- ===== src/Bolt/Memory.antt =====
-- A bucket as the list of its pairs: the interface's hypotheses hold of it.
use remnawave_node_go.Base.{
  [], ◌∷◌, ℕ, ◌≤◌, ◌≡◌, refl, Bool, Option, none, some, Text, length, Error, message, ltb, is_empty,
  if◌then◌else◌, arith,
}
use remnawave_node_go.Bolt.{Bolt, Contents, lookup, insert, erase}

abbrev pub too_long : ℕ → Text → Bool
too_long limit t = ltb limit (length t)

-- Put's own test of the key and the value.
unfoldable pub refuses : Text → Text → Option Error
unfolding is_empty
refuses k v =
    if is_empty k
    then some (message "key required")
    else if too_long 32768 k
    then some (message "key too large")
    else if too_long 2147483646 v
    then some (message "value too large")
    else none

pub refuses_lem :
    (k v : Text) → 1 ≤ length k → length k ≤ 32768 → length v ≤ 2147483646 → refuses k v ≡ none
unfolding refuses
refuses_lem [] v p q r = absurd (omega arith)
refuses_lem (x ∷ k) v p q r = ground arith

abbrev pub memory : Bolt
memory = record {
  Bucket = Contents;
  empty = [];
  entries = λ b. b;
  get = λ b k. lookup k b;
  put = λ b k v. insert k v b;
  delete = λ b k. erase k b;
  refuses = refuses;
  entries-empty = refl;
  entries-put = λ b k v. refl;
  entries-delete = λ b k. refl;
  get_lem = λ b k. refl;
  refuses_lem = refuses_lem;
}
