-- ===== src/Identifier/Order.antt =====
-- Equality and order of identifiers, and their byte arrays (cryptoballot/src/transaction.rs).
use cryptoballot.Prelude.{
  ◌<◌, ◌≡◌, ◌↔◌, sym, ◌∙◌, ap, true, ◌∷◌, arith, length, length-append, take-append, drop-append,
  take, drop, All-append,
}
use cryptoballot.Bytes.{IsBytes, lex_cmp}
use cryptoballot.Bytes.Order.{lex_cmp-append, bytes_eq_iff}
use cryptoballot.Identifier.{
  Identifier, IsWellFormed, TransactionType, as_u8, type_eq, id_eq, to_array, cmp,
}

pub as_u8-injective : (a b : TransactionType) → as_u8 a ≡ as_u8 b → a ≡ b
as_u8-injective a b h = ground arith

pub type_eq_iff : (a b : TransactionType) → (type_eq a b ≡ true) ↔ (a ≡ b)
type_eq_iff a b = (λ h. as_u8-injective a b (ground arith), λ h. ground arith)

pub Identifier_ext :
    (a b : Identifier)
    → a.election_id ≡ b.election_id
    → a.transaction_type ≡ b.transaction_type
    → a.unique_info ≡ b.unique_info
    → a ≡ b
Identifier_ext a b p q r =
    λ i. record { election_id = p i; transaction_type = q i; unique_info = r i }

-- The derived equality decides equality.
pub id_eq_iff : (a b : Identifier) → (id_eq a b ≡ true) ↔ (a ≡ b)
unfolding id_eq
id_eq_iff a b = ground (
  arith,
  bytes_eq_iff a.election_id b.election_id,
  bytes_eq_iff a.unique_info b.unique_info,
  as_u8-injective a.transaction_type b.transaction_type,
)

pub to_array-IsBytes : (a : Identifier) → IsWellFormed a → IsBytes (to_array a)
unfolding to_array
to_array-IsBytes a w =
    All-append _ a.election_id _ w.election_bytes (as_u8-lt a.transaction_type, w.unique_bytes)
  where
    as_u8-lt : (t : TransactionType) → as_u8 t < 256
    as_u8-lt t = ground arith

pub length-to_array : (a : Identifier) → IsWellFormed a → length (to_array a) ≡ 32
unfolding to_array
length-to_array a w =
    omega (arith, length-append a.election_id (as_u8 a.transaction_type ∷ a.unique_info))

-- Identifiers compare as their byte arrays do.
pub cmp-to_array :
    (a b : Identifier)
    → IsWellFormed a
    → IsWellFormed b
    → cmp a b ≡ lex_cmp (to_array a) (to_array b)
unfolding cmp to_array lex_cmp
cmp-to_array a b v w = ground (
  arith,
  lex_cmp-append a.election_id b.election_id (as_u8 a.transaction_type ∷ a.unique_info)
      (as_u8 b.transaction_type ∷ b.unique_info),
)

-- Well-formed identifiers with the same bytes are one identifier.
pub to_array-injective :
    (a b : Identifier) → IsWellFormed a → IsWellFormed b → to_array a ≡ to_array b → a ≡ b
unfolding to_array
to_array-injective a b v w h =
    let p =
      sym (take-append 15 a.election_id _ v.election_length)
      ∙ ap (take 15) h
      ∙ take-append 15 b.election_id _ w.election_length in
    let q =
      sym (drop-append 15 a.election_id _ v.election_length)
      ∙ ap (drop 15) h
      ∙ drop-append 15 b.election_id _ w.election_length in
    Identifier_ext a b p (as_u8-injective _ _ (cc q)) (cc q)
