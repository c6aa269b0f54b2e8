-- ===== src/Bolt.antt =====
-- go.etcd.io/bbolt, which the repository does not hold: the interface that the stores use of it,
-- with the behaviour that bbolt documents. A bucket holds pairs of byte strings in the byte order of
-- the keys; `Get` finds a key's value, `Put` replaces or inserts, `Delete` removes, and a cursor
-- visits the pairs in order. `Put` refuses a blank key, a key above 32768 bytes and a value above
-- 2^31 - 2 bytes. A read-write transaction is undone whole when its function or its commit fails.
mod Pairs
unfoldable pub use Pairs.*
pub mod Memory
use remnawave_node_go.Base.{
  ℕ, ◌≤◌, ◌<◌, ◌≡◌, refl, Option, none, some, List, [], ◌∷◌, Text, length, Error, Result, ok, err,
  ◌>>=◌, ◌>>◌, check, sym, ap,
}

pub record Bolt : Type 1 where
  pub Bucket : Type 0
  pub empty : Bucket
  -- what a cursor visits from `First` by `Next`
  pub entries : Bucket → Contents
  pub get : Bucket → Text → Option Text
  pub put : Bucket → Text → Text → Bucket
  pub delete : Bucket → Text → Bucket
  -- the error that `Put` returns for this key and value, before it writes
  pub refuses : Text → Text → Option Error
  pub entries-empty : entries empty ≡ []
  pub entries-put : (b : Bucket) (k v : Text) → entries (put b k v) ≡ insert k v (entries b)
  pub entries-delete : (b : Bucket) (k : Text) → entries (delete b k) ≡ erase k (entries b)
  pub get_lem : (b : Bucket) (k : Text) → get b k ≡ lookup k (entries b)
  pub refuses_lem :
      (k v : Text) → 1 ≤ length k → length k ≤ 32768 → length v ≤ 2147483646 → refuses k v ≡ none

finish {ℓ κ} : {A : Type ℓ} {S : Type κ} → Option Error → S → Result (A × S) → S × Result A
finish commit s (err e) = (s, err e)
finish none s (ok (a, t)) = (t, ok a)
finish (some e) s (ok (a, t)) = (s, err e)

-- `db.Update`: `commit` is the error that the commit meets, if any.
unfoldable pub update {ℓ κ} :
    {A : Type ℓ} {S : Type κ} → Option Error → (S → Result (A × S)) → S → S × Result A
unfolding finish
update commit f s = finish commit s (f s)

-- An update that reports an error has changed nothing.
pub update_rolls_back {ℓ κ} :
    {A : Type ℓ} {S : Type κ} (commit : Option Error) (f : S → Result (A × S)) (s : S) {e : Error}
    → (update commit f s).1 ≡ err e
    → (update commit f s).0 ≡ s
unfolding update
update_rolls_back {A} {S} commit f s {e} = go commit (f s)
  where
    go : (c : Option Error) (r : Result (A × S)) → (finish c s r).1 ≡ err e → (finish c s r).0 ≡ s
    go c (err x) h = refl
    go none (ok (a, t)) h = cc
    go (some x) (ok (a, t)) h = refl

-- Where it reports success, the function succeeded, and the new state is the one it made.
pub update-eq-ok {ℓ κ} :
    {A : Type ℓ} {S : Type κ} (commit : Option Error) (f : S → Result (A × S)) (s : S) {a : A}
    → (update commit f s).1 ≡ ok a
    → f s ≡ ok (a, (update commit f s).0)
unfolding update
update-eq-ok {A} {S} commit f s {a} = go commit (f s)
  where
    go :
        (c : Option Error) (r : Result (A × S))
        → (finish c s r).1 ≡ ok a
        → r ≡ ok (a, (finish c s r).0)
    go c (err x) h = cc
    go none (ok (b, t)) h = cc
    go (some x) (ok (b, t)) h = cc

-- What holds before, and of every state that the function succeeds with, holds after.
pub update_keeps {ℓ κ μ} :
    {A : Type ℓ} {S : Type κ} (P : S → Type μ) (commit : Option Error) (f : S → Result (A × S))
    (s : S)
    → P s
    → ((a : A) (t : S) → f s ≡ ok (a, t) → P t)
    → P (update commit f s).0
unfolding update
update_keeps {A} {S} P commit f s before after = go commit (f s) after
  where
    go :
        (c : Option Error) (r : Result (A × S))
        → ((a : A) (t : S) → r ≡ ok (a, t) → P t)
        → P (finish c s r).0
    go c (err x) k = before
    go none (ok (a, t)) k = k a t refl
    go (some x) (ok (a, t)) k = before
