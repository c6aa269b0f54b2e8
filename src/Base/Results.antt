-- ===== src/Base/Results.antt =====
-- Go's `(value, error)` returns as a result type with its `do` notation.
use Prim.Native.Nat.{ℕ}
use Prim.Native.String.{String}
use mathlib.Core.Path.{◌≡◌, refl}
use mathlib.Core.Option.{Option, none, some}

-- `message` is `errors.New`, `wrapped` is `fmt.Errorf` around `%w`, and `external` is an error that
-- code outside the repository returned.
pub data Error : Type 0 where
  message : String → Error
  wrapped : String → Error → Error
  external : ℕ → Error

infixl 5 ◌>>=◌ ◌>>◌
-- The error is nil exactly on `ok`.
pub data Result {ℓ} (V : Type ℓ) : Type ℓ where
  err : Error → Result V
  ok : V → Result V

-- `if err != nil { return err }`, and else the rest with the value.
abbrev pub ◌>>=◌ {ℓ κ} : {V : Type ℓ} {W : Type κ} → Result V → (V → Result W) → Result W
err e >>= rest = err e
ok v >>= rest = rest v

-- `if err := …; err != nil { return err }` at the error `o`, nil or not.
abbrev pub check : Option Error → Result (Unit {0})
check none = ok tt
check (some e) = err e

abbrev pub ◌>>◌ {ℓ} : {W : Type ℓ} → Result (Unit {0}) → Result W → Result W
first >> rest = first >>= λ _. rest

pub >>=-eq-ok {ℓ κ} :
    {V : Type ℓ} {W : Type κ} (first : Result V) (rest : V → Result W) {w : W}
    → (first >>= rest) ≡ ok w
    → (v : V) × (first ≡ ok v) × (rest v ≡ ok w)
>>=-eq-ok (err e) rest h = cc
>>=-eq-ok (ok v) rest h = (v, refl, h)
