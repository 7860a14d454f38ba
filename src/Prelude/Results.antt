-- ===== src/Prelude/Results.antt =====
-- A call of the program returns a value, returns an error, or panics.
use mathlib.Core.Path.{◌≡◌, refl}
use mathlib.Core.Logic.{◌≢◌, ◌⊎◌, inl, inr}
use mathlib.Core.Bool.{Bool, true, false}
use mathlib.Core.Option.{Option, none, some}

pub data Result (E A : Type 0) : Type 0 where
  ok : A → Result E A
  err : E → Result E A
  panic : Result E A

infixl 5 ◌>>=◌ ◌>>◌
abbrev pub ◌>>=◌ : {E A B : Type 0} → Result E A → (A → Result E B) → Result E B
panic >>= rest = panic
err fault >>= rest = err fault
ok v >>= rest = rest v

abbrev pub ◌>>◌ : {E B : Type 0} → Result E (Unit {0}) → Result E B → Result E B
run >> rest = run >>= λ done. rest

-- `if test { return Err(e) }`, stated by the test that has to hold.
abbrev pub require : {E : Type 0} → Bool → E → Result E (Unit {0})
require true e = ok tt
require false e = err e

-- `assert!`
abbrev pub assert : {E : Type 0} → Bool → Result E (Unit {0})
assert true = ok tt
assert false = panic

-- `Option::ok_or`
abbrev pub ok_or : {E A : Type 0} → Option A → E → Result E A
ok_or (some a) e = ok a
ok_or none e = err e

-- `Result::map_err`
abbrev pub map_err : {E F A : Type 0} → (E → F) → Result E A → Result F A
map_err f (ok a) = ok a
map_err f (err e) = err (f e)
map_err f panic = panic

-- What a library returns: a value, or an error that is wrapped.
abbrev pub from_sum : {E F A : Type 0} → (E → F) → E ⊎ A → Result F A
from_sum f (inl e) = err (f e)
from_sum f (inr a) = ok a

-- A call that may only panic, as a step of one that may also fail.
abbrev pub unwind : {E A : Type 0} → Option A → Result E A
unwind (some a) = ok a
unwind none = panic

-- `unwrap` and `expect` of a result: `none` is the panic.
abbrev pub expect : {E A : Type 0} → E ⊎ A → Option A
expect (inl e) = none
expect (inr a) = some a

pub expect-eq-some : {E A : Type 0} (s : E ⊎ A) {a : A} → expect s ≡ some a → s ≡ inr a
expect-eq-some (inl e) h = cc
expect-eq-some (inr a) h = cc

-- `unwrap` of a call that may fail.
abbrev pub unwrap : {E A : Type 0} → Result E A → Option A
unwrap (ok a) = some a
unwrap (err e) = none
unwrap panic = none

pub unwrap-eq-some : {E A : Type 0} (r : Result E A) {a : A} → unwrap r ≡ some a → r ≡ ok a
unwrap-eq-some (ok a) h = cc
unwrap-eq-some (err e) h = cc
unwrap-eq-some panic h = cc

-- `Option::and_then`
abbrev pub and_then : {A B : Type 0} → Option A → (A → Option B) → Option B
and_then none f = none
and_then (some a) f = f a

pub and_then-eq-some :
    {A B : Type 0} (o : Option A) (f : A → Option B) {b : B}
    → and_then o f ≡ some b
    → (a : A) × (o ≡ some a) × (f a ≡ some b)
and_then-eq-some none f h = cc
and_then-eq-some (some a) f h = (a, refl, h)

-- Inversion of a successful bind, for proofs where the parts stay shut.
pub >>=-eq-ok :
    {E A B : Type 0} (run : Result E A) (rest : A → Result E B) {z : B}
    → (run >>= rest) ≡ ok z
    → (v : A) × (run ≡ ok v) × (rest v ≡ ok z)
>>=-eq-ok panic rest h = cc
>>=-eq-ok (err fault) rest h = cc
>>=-eq-ok (ok v) rest h = (v, refl, h)

pub require-eq-ok :
    {E B : Type 0} (t : Bool) (e : E) (k : Result E B) {b : B}
    → (require t e >> k) ≡ ok b
    → (t ≡ true) × (k ≡ ok b)
require-eq-ok true e k h = (refl, h)
require-eq-ok false e k h = cc

pub ok_or-eq-ok : {E A : Type 0} (o : Option A) (e : E) {a : A} → ok_or o e ≡ ok a → o ≡ some a
ok_or-eq-ok (some a) e h = cc
ok_or-eq-ok none e h = cc

pub unwind-eq-ok : {E A : Type 0} (o : Option A) {a : A} → unwind {E = E} o ≡ ok a → o ≡ some a
unwind-eq-ok (some a) h = cc
unwind-eq-ok none h = cc

pub >>-eq-ok :
    {E B : Type 0} (m : Result E (Unit {0})) (k : Result E B) {b : B}
    → (m >> k) ≡ ok b
    → (m ≡ ok tt) × (k ≡ ok b)
>>-eq-ok (ok a) k h = (refl, h)
>>-eq-ok (err e) k h = cc
>>-eq-ok panic k h = cc

pub map_err-eq-ok :
    {E F A : Type 0} (f : E → F) (r : Result E A) {a : A} → map_err f r ≡ ok a → r ≡ ok a
map_err-eq-ok f (ok a) h = cc
map_err-eq-ok f (err e) h = cc
map_err-eq-ok f panic h = cc

pub ok-injective : {E A : Type 0} {a b : A} → ◌≡◌ {A = Result E A} (ok a) (ok b) → a ≡ b
ok-injective h = cc

pub some-injective : {A : Type 0} {a b : A} → some a ≡ some b → a ≡ b
some-injective h = cc

pub from_sum-eq-ok :
    {E F A : Type 0} (f : E → F) (s : E ⊎ A) {a : A} → from_sum f s ≡ ok a → s ≡ inr a
from_sum-eq-ok f (inl e) h = cc
from_sum-eq-ok f (inr a) h = cc

-- Inversion of a chain that panics.
pub >>=-eq-panic :
    {E A B : Type 0} (m : Result E A) (f : A → Result E B)
    → (m >>= f) ≡ panic
    → (m ≡ panic) ⊎ ((a : A) × (m ≡ ok a) × (f a ≡ panic))
>>=-eq-panic (ok a) f h = inr (a, refl, h)
>>=-eq-panic (err e) f h = cc
>>=-eq-panic panic f h = inl refl

pub require-eq-panic :
    {E B : Type 0} (t : Bool) (e : E) (k : Result E B)
    → (require t e >> k) ≡ panic
    → (t ≡ true) × (k ≡ panic)
require-eq-panic true e k h = (refl, h)
require-eq-panic false e k h = cc

pub ok_or_total : {E A : Type 0} (o : Option A) (e : E) → ok_or o e ≢ panic
ok_or_total (some a) e h = cc
ok_or_total none e h = cc

pub unwind-eq-panic : {E A : Type 0} (o : Option A) → unwind {E = E} o ≡ panic → o ≡ none
unwind-eq-panic (some a) h = cc
unwind-eq-panic none h = refl

pub require_last : {E : Type 0} (t : Bool) (e : E) → require t e ≡ ok tt → t ≡ true
require_last true e h = refl
require_last false e h = cc
