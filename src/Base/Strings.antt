-- ===== src/Base/Strings.antt =====
-- What the code calls of the package `strings`, on ASCII texts.
use Prim.Native.Nat.{ℕ, ◌+◌}
use mathlib.Core.Bool.{Bool, ◌&&◌, ◌||◌}
use mathlib.Core.List.{[], ◌∷◌, map, reverse}
use remnawave_node_go.Base.Tests.{leb, ◌==◌, if◌then◌else◌}
use remnawave_node_go.Base.Texts.{Text}

-- unicode.IsSpace below 128.
unfoldable pub is_space : ℕ → Bool
is_space c = c == 32 || leb 9 c && leb c 13

unfoldable pub trim_left : Text → Text
trim_left [] = []
trim_left (c ∷ t) = if is_space c then trim_left t else c ∷ t

-- strings.TrimSpace
unfoldable pub trim_space : Text → Text
unfolding trim_left is_space
trim_space t = reverse (trim_left (reverse (trim_left t)))

lower : ℕ → ℕ
lower c = if leb b'A' c && leb c b'Z' then c + 32 else c

-- strings.ToLower
unfoldable pub to_lower : Text → Text
unfolding lower
to_lower = map lower

drop_dot : Text → Text
drop_dot [] = []
drop_dot (c ∷ t) = if c == b'.' then t else c ∷ t

-- strings.TrimSuffix(t, ".")
unfoldable pub trim_dot : Text → Text
unfolding drop_dot
trim_dot t = reverse (drop_dot (reverse t))
