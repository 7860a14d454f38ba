-- ===== src/Validate.antt =====
-- The validation of transactions against a store: one child for each source file that has a
-- `validate_tx`, and `Signed` for what transaction.rs adds. Here is what they share.
pub mod Election
pub mod Keygen
pub mod Vote
pub mod Mix
pub mod Upstream
pub mod Decrypt
pub mod Decryption
pub mod Traits
pub mod Stored
pub mod Signed
use cryptoballot.Prelude.{
  ◌≢◌, ◌≡◌, refl, Bool, true, false, Option, none, some, Result, ok, err, panic, map_err, ◌>>=◌,
}
use cryptoballot.External.{External}
use cryptoballot.Errors.{TransactionNotFound, ValidationError, transaction_not_found}

abbrev pub is_some : {A : Type 0} → Option A → Bool
is_some none = false
is_some (some a) = true

-- `?` on a typed lookup
abbrev pub found :
    {x : External} {A : Type 0} → Result TransactionNotFound A → Result (ValidationError x) A
found = map_err ValidationError.transaction_not_found

pub found-eq-ok :
    {x : External} {A : Type 0} (r : Result TransactionNotFound A) {a : A}
    → found {x = x} r ≡ ok a
    → r ≡ ok a
found-eq-ok (ok a) h = cc
found-eq-ok (err e) h = cc
found-eq-ok panic h = cc

-- What a successful lookup and test tell of a chain that begins with `found`.
pub found-bind :
    {x : External} {A B : Type 0} (r : Result TransactionNotFound A)
    (f : A → Result (ValidationError x) B) {c : B}
    → (found r >>= f) ≡ ok c
    → (a : A) × (r ≡ ok a) × (f a ≡ ok c)
found-bind (ok a) f h = (a, refl, h)
found-bind (err e) f h = cc
found-bind panic f h = cc

pub found-bind_panic :
    {x : External} {A B : Type 0} (r : Result TransactionNotFound A)
    (f : A → Result (ValidationError x) B)
    → r ≢ panic
    → (found r >>= f) ≡ panic
    → (a : A) × (r ≡ ok a) × (f a ≡ panic)
found-bind_panic (ok a) f n h = (a, refl, h)
found-bind_panic (err e) f n h = cc
found-bind_panic panic f n h = absurd (n refl)

pub is_some-eq-true : {A : Type 0} (o : Option A) → is_some o ≡ true → (a : A) × (o ≡ some a)
is_some-eq-true none h = cc
is_some-eq-true (some a) h = (a, refl)
