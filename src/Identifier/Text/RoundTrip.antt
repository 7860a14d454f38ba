-- ===== src/Identifier/Text/RoundTrip.antt =====
-- Printing and parsing identifiers (`to_string` and `from_str` of cryptoballot/src/transaction.rs).
use cryptoballot.Prelude.{
  ℕ, zero, suc, ◌<◌, ◌≡◌, refl, sym, ◌∙◌, List, [], ◌∷◌, ◌++◌, some, arith, length, take, drop,
  get_elem?, length-drop, length-take, take-append, ok, panic, ok_or, >>=-eq-ok, require-eq-ok,
  ok_or-eq-ok, unwind-eq-ok,
}
use cryptoballot.Bytes.{IsBytes, lex_cmp}
use cryptoballot.External.{External}
use cryptoballot.Errors.{identifier_bad_hex}
use cryptoballot.Identifier.{Identifier, IsWellFormed, as_u8, to_array, cmp}
use cryptoballot.Identifier.Order.{
  to_array-IsBytes, length-to_array, cmp-to_array, to_array-injective,
}
use cryptoballot.Identifier.Kinds.{from_u8-as_u8}
use cryptoballot.Identifier.Text.{to_string, from_str, parts_of}

get_elem?-append {ℓ} :
    {A : Type ℓ} (n : ℕ) (xs ys : List A) (y : A)
    → length xs ≡ n
    → get_elem? (xs ++ y ∷ ys) n ≡ some y
get_elem?-append zero [] ys y h = refl
get_elem?-append zero (x ∷ xs) ys y h = absurd (omega arith)
get_elem?-append (suc n) [] ys y h = absurd (omega arith)
get_elem?-append (suc n) (x ∷ xs) ys y h = get_elem?-append n xs ys y (omega arith)

get_elem?-lt : (n : ℕ) (xs : List ℕ) {y : ℕ} → get_elem? xs n ≡ some y → n < length xs
get_elem?-lt n [] h = cc
get_elem?-lt zero (x ∷ xs) h = omega arith
get_elem?-lt (suc n) (x ∷ xs) h = omega (arith, get_elem?-lt n xs h)

drop-suc-append {ℓ} :
    {A : Type ℓ} (n : ℕ) (xs ys : List A) (y : A) → length xs ≡ n → drop (suc n) (xs ++ y ∷ ys) ≡ ys
drop-suc-append zero [] ys y h = refl
drop-suc-append zero (x ∷ xs) ys y h = absurd (omega arith)
drop-suc-append (suc n) [] ys y h = absurd (omega arith)
drop-suc-append (suc n) (x ∷ xs) ys y h = drop-suc-append n xs ys y (omega arith)

IsBytes-take : (n : ℕ) (xs : List ℕ) → IsBytes xs → IsBytes (take n xs)
IsBytes-take zero xs a = tt
IsBytes-take (suc n) [] a = tt
IsBytes-take (suc n) (x ∷ xs) a = (a.0, IsBytes-take n xs a.1)

IsBytes-drop : (n : ℕ) (xs : List ℕ) → IsBytes xs → IsBytes (drop n xs)
IsBytes-drop zero xs a = a
IsBytes-drop (suc n) [] a = tt
IsBytes-drop (suc n) (x ∷ xs) a = IsBytes-drop n xs a.1

parts_of-to_array : (id : Identifier) → IsWellFormed id → parts_of (to_array id) ≡ some id
unfolding parts_of to_array
parts_of-to_array id w = ground (
  arith,
  get_elem?-append 15 id.election_id id.unique_info (as_u8 id.transaction_type) w.election_length,
  drop-suc-append 15 id.election_id id.unique_info (as_u8 id.transaction_type) w.election_length,
  take-append 15 id.election_id (as_u8 id.transaction_type ∷ id.unique_info) w.election_length,
  from_u8-as_u8 id.transaction_type,
)

parts_of-IsWellFormed :
    (bytes : List ℕ) (id : Identifier) → IsBytes bytes → parts_of bytes ≡ some id → IsWellFormed id
unfolding parts_of
parts_of-IsWellFormed bytes id b h = ground (
  arith,
  length-take 15 bytes,
  get_elem?-lt 15 bytes,
  IsBytes-take 15 bytes b,
  IsBytes-drop 16 bytes b,
)

module _ (x : External) where
  open x use {encode, decode, decode-encode, lex_cmp-encode, decode-IsBytes}

  -- Parsing what was printed gives the identifier back.
  pub from_str-to_string : (id : Identifier) → IsWellFormed id → from_str x (to_string x id) ≡ ok id
  unfolding from_str to_string
  from_str-to_string id w = ground (
    arith,
    decode-encode (to_array id) (to_array-IsBytes id w),
    length-to_array id w,
    parts_of-to_array id w,
  )

  -- Whatever text is parsed, an identifier that is returned is well formed.
  pub from_str-IsWellFormed :
      (s : List ℕ) (id : Identifier) → from_str x s ≡ ok id → IsWellFormed id
  unfolding from_str
  from_str-IsWellFormed s id h =
      let (bytes, decoded, k) = >>=-eq-ok (ok_or (decode s) identifier_bad_hex) _ h in
      let (_, parsed) = require-eq-ok _ _ _ k in
      parts_of-IsWellFormed bytes id (decode-IsBytes s bytes (ok_or-eq-ok _ _ decoded))
        (unwind-eq-ok _ parsed)

  -- The order of the texts is that of the identifiers.
  pub lex_cmp-to_string :
      (a b : Identifier)
      → IsWellFormed a
      → IsWellFormed b
      → lex_cmp (to_string x a) (to_string x b) ≡ cmp a b
  unfolding to_string
  lex_cmp-to_string a b v w =
      lex_cmp-encode (to_array a) (to_array b) (to_array-IsBytes a v) (to_array-IsBytes b w)
      ∙ sym (cmp-to_array a b v w)

  -- Different identifiers have different texts.
  pub to_string-injective :
      (a b : Identifier) → IsWellFormed a → IsWellFormed b → to_string x a ≡ to_string x b → a ≡ b
  unfolding to_string
  to_string-injective a b v w h = to_array-injective a b v w (
      cc (
        decode-encode (to_array a) (to_array-IsBytes a v),
        decode-encode (to_array b) (to_array-IsBytes b w),
      ))

  -- A text of 16 bytes passes the length test, and the call panics.
  pub from_str_short :
      (s bytes : List ℕ) → decode s ≡ some bytes → length bytes ≡ 16 → from_str x s ≡ panic
  unfolding from_str parts_of
  from_str_short s bytes h n = ground (arith, length-drop 16 bytes)
