-- ===== src/Base/BigEndian.antt =====
-- encoding/binary's big-endian integers: `PutUint64` and `Uint64` on eight bytes. A byte string of
-- any fixed width is read back, and the byte order of the strings is the order of the numbers.
use Prim.Native.Nat.{ℕ, zero, suc, ◌+◌, ◌*◌, ◌/◌, ◌%◌, ◌^◌, ◌<◌}
use mathlib.Core.Path.{◌≡◌, refl, sym, ap, ◌∙◌}
use mathlib.Core.Bool.{◌&&◌, ◌||◌}
use mathlib.Core.List.{[], ◌∷◌, ◌++◌}
use native.Mathlib.Nat.{pow-suc}
use native.Mathlib.Omega.{arith}
use remnawave_node_go.Base.Lists.{length, length-append}
use remnawave_node_go.Base.Tests.{ltb, ◌==◌, if◌then◌else◌}
use remnawave_node_go.Base.Texts.{Text, text_eq, text_eq_iff, text_lt}

-- The low `width` bytes of `v`, the highest first.
unfoldable pub big_endian : ℕ → ℕ → Text
big_endian zero v = []
big_endian (suc width) v = big_endian width (v / 256) ++ v % 256 ∷ []

of_big_endian_from : ℕ → Text → ℕ
of_big_endian_from acc [] = acc
of_big_endian_from acc (b ∷ bs) = of_big_endian_from (acc * 256 + b) bs

unfoldable pub of_big_endian : Text → ℕ
unfolding of_big_endian_from
of_big_endian = of_big_endian_from 0

pub length-big_endian : (width v : ℕ) → length (big_endian width v) ≡ width
unfolding big_endian
length-big_endian zero v = refl
length-big_endian (suc width) v =
    length-append (big_endian width (v / 256)) (v % 256 ∷ [])
    ∙ omega (arith, length-big_endian width (v / 256))

of_big_endian_from-snoc :
    (acc : ℕ) (bs : Text) (b : ℕ)
    → of_big_endian_from acc (bs ++ b ∷ []) ≡ of_big_endian_from acc bs * 256 + b
unfolding of_big_endian_from
of_big_endian_from-snoc acc [] b = refl
of_big_endian_from-snoc acc (x ∷ bs) b = of_big_endian_from-snoc (acc * 256 + x) bs b

div-lt-pow : (width v : ℕ) → v < 256 ^ suc width → v / 256 < 256 ^ width
div-lt-pow width v h = let p : v < 256 ^ width * 256 = rw pow-suc at h in omega arith

pub of_big_endian-big_endian :
    (width v : ℕ) → v < 256 ^ width → of_big_endian (big_endian width v) ≡ v
unfolding of_big_endian big_endian
of_big_endian-big_endian zero v h = omega arith
of_big_endian-big_endian (suc width) v h =
    of_big_endian_from-snoc 0 (big_endian width (v / 256)) (v % 256)
    ∙ omega (arith, of_big_endian-big_endian width (v / 256) (div-lt-pow width v h))

text_lt-snoc :
    (xs ys : Text) (a b : ℕ)
    → length xs ≡ length ys
    → text_lt (xs ++ a ∷ []) (ys ++ b ∷ []) ≡ (text_lt xs ys || text_eq xs ys && ltb a b)
unfolding text_lt text_eq
text_lt-snoc [] [] a b h = ground arith
text_lt-snoc [] (y ∷ ys) a b h = absurd (omega arith)
text_lt-snoc (x ∷ xs) [] a b h = absurd (omega arith)
text_lt-snoc (x ∷ xs) (y ∷ ys) a b h = ground (arith, text_lt-snoc xs ys a b (omega arith))

big_endian-injective :
    (width v w : ℕ)
    → v < 256 ^ width
    → w < 256 ^ width
    → big_endian width v ≡ big_endian width w
    → v ≡ w
big_endian-injective width v w hv hw e =
    cc (of_big_endian-big_endian width v hv, of_big_endian-big_endian width w hw, e)

pub text_eq-big_endian :
    (width v w : ℕ)
    → v < 256 ^ width
    → w < 256 ^ width
    → text_eq (big_endian width v) (big_endian width w) ≡ (v == w)
text_eq-big_endian width v w hv hw = ground (
  arith,
  text_eq_iff (big_endian width v) (big_endian width w),
  big_endian-injective width v w hv hw,
  ap (big_endian width) {x = v} {y = w},
)

pub text_lt-big_endian :
    (width v w : ℕ)
    → v < 256 ^ width
    → w < 256 ^ width
    → text_lt (big_endian width v) (big_endian width w) ≡ ltb v w
unfolding big_endian
text_lt-big_endian zero v w hv hw = unfold text_lt in ground arith
text_lt-big_endian (suc width) v w hv hw =
    let p = div-lt-pow width v hv in
    let q = div-lt-pow width w hw in
    text_lt-snoc (big_endian width (v / 256)) (big_endian width (w / 256)) (v % 256) (w % 256)
      (length-big_endian width (v / 256) ∙ sym (length-big_endian width (w / 256)))
    ∙ ground (
      arith,
      text_lt-big_endian width (v / 256) (w / 256) p q,
      text_eq-big_endian width (v / 256) (w / 256) p q,
    )

-- binary.BigEndian.PutUint64 into eight fresh bytes.
abbrev pub put_uint64 : ℕ → Text
put_uint64 v = big_endian 8 v

-- A uint64 of eight bytes; any other length reads as 0, as the stores' readers have it.
unfoldable pub read_uint64 : Text → ℕ
read_uint64 b = if length b == 8 then of_big_endian b else 0

pub read_uint64-put_uint64 : (v : ℕ) → v < 2 ^ 64 → read_uint64 (put_uint64 v) ≡ v
unfolding read_uint64
read_uint64-put_uint64 v h = rw (length-big_endian 8 v) (of_big_endian-big_endian 8 v h)

pub text_eq-put_uint64 :
    (v w : ℕ) → v < 2 ^ 64 → w < 2 ^ 64 → text_eq (put_uint64 v) (put_uint64 w) ≡ (v == w)
text_eq-put_uint64 v w hv hw = text_eq-big_endian 8 v w hv hw

pub text_lt-put_uint64 :
    (v w : ℕ) → v < 2 ^ 64 → w < 2 ^ 64 → text_lt (put_uint64 v) (put_uint64 w) ≡ ltb v w
text_lt-put_uint64 v w hv hw = text_lt-big_endian 8 v w hv hw
