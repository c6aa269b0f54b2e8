-- ===== src/Base/Words.antt =====
-- int64 and int values as their 64-bit patterns, and uint64 arithmetic with its wrap-around.
use Prim.Native.Nat.{ℕ, ◌+◌, ◌-◌, ◌%◌, ◌^◌, ◌<◌}
use mathlib.Core.Bool.{Bool, ◌&&◌}
use remnawave_node_go.Base.Tests.{ltb, leb, if◌then◌else◌}

-- The sign bit.
abbrev pub is_negative : ℕ → Bool
is_negative v = leb (2 ^ 63) v

abbrev pub is_positive : ℕ → Bool
is_positive v = ltb 0 v && ltb v (2 ^ 63)

abbrev pub add_word : ℕ → ℕ → ℕ
add_word a b = (a + b) % 2 ^ 64

abbrev pub sub_word : ℕ → ℕ → ℕ
sub_word a b = (a + 2 ^ 64 - b) % 2 ^ 64

-- max(0, v) of a signed word.
abbrev pub clamp_negative : ℕ → ℕ
clamp_negative v = if is_negative v then 0 else v

-- A value of the type.
abbrev pub IsWord : ℕ → Type 0
IsWord v = v < 2 ^ 64
