-- ===== src/Base/Hex.antt =====
-- encoding/hex: two lower-case digits for each byte.
use Prim.Native.Nat.{ℕ, ◌+◌, ◌*◌, ◌/◌, ◌%◌}
use mathlib.Core.Path.{◌≡◌, refl}
use mathlib.Core.List.{[], ◌∷◌}
use native.Mathlib.Omega.{arith}
use remnawave_node_go.Base.Tests.{ltb, if◌then◌else◌}
use remnawave_node_go.Base.Lists.{length}
use remnawave_node_go.Base.Texts.{Text}

hex_digit : ℕ → ℕ
hex_digit n = if ltb n 10 then n + 48 else n + 87

-- hex.EncodeToString
unfoldable pub hex : Text → Text
unfolding hex_digit
hex [] = []
hex (b ∷ bs) = hex_digit (b / 16) ∷ hex_digit (b % 16) ∷ hex bs

pub length-hex : (t : Text) → length (hex t) ≡ 2 * length t
unfolding hex
length-hex [] = refl
length-hex (b ∷ bs) = omega (arith, length-hex bs)
