-- ===== src/Identifier.antt =====
-- `Identifier` and `TransactionType` of cryptoballot/src/transaction.rs. Byte arrays are lists; the
-- lengths that their Rust types fix are the predicate `IsWellFormed`.
pub mod Order
pub mod Kinds
pub mod Text
use Prim.Native.Nat.{compare, Ordering}
use cryptoballot.Prelude.{
  ℕ, ◌≡◌, ◌≤◌, Bool, true, false, ◌&&◌, List, [], ◌∷◌, ◌++◌, Option, none, some, String, ◌==◌, leb,
  if◌then◌else◌, length, take, drop, replicate,
}
use cryptoballot.Bytes.{IsBytes, then_cmp, lex_cmp, bytes_eq}

pub data TransactionType : Type 0 where
  election : TransactionType
  key_gen_commitment : TransactionType
  key_gen_share : TransactionType
  key_gen_public_key : TransactionType
  encryption_key : TransactionType
  vote : TransactionType
  voting_end : TransactionType
  mix : TransactionType
  partial_decryption : TransactionType
  decryption : TransactionType

-- `self as u8`
abbrev pub as_u8 : TransactionType → ℕ
as_u8 election = 1
as_u8 key_gen_commitment = 2
as_u8 key_gen_share = 3
as_u8 key_gen_public_key = 4
as_u8 encryption_key = 5
as_u8 vote = 6
as_u8 voting_end = 7
as_u8 mix = 8
as_u8 partial_decryption = 9
as_u8 decryption = 10

-- the derived `PartialEq`
abbrev pub type_eq : TransactionType → TransactionType → Bool
type_eq a b = as_u8 a == as_u8 b

-- `TryFromPrimitive`, and `from_u8` by it
unfoldable pub from_u8 : ℕ → Option TransactionType
from_u8 n =
    if n == 1
    then some election
    else if n == 2
    then some key_gen_commitment
    else if n == 3
    then some key_gen_share
    else if n == 4
    then some key_gen_public_key
    else if n == 5
    then some encryption_key
    else if n == 6
    then some vote
    else if n == 7
    then some voting_end
    else if n == 8
    then some mix
    else if n == 9
    then some partial_decryption
    else if n == 10
    then some decryption
    else none

unfoldable pub hex_string : TransactionType → List ℕ
hex_string election = b'0' ∷ b'1' ∷ []
hex_string key_gen_commitment = b'0' ∷ b'2' ∷ []
hex_string key_gen_share = b'0' ∷ b'3' ∷ []
hex_string key_gen_public_key = b'0' ∷ b'4' ∷ []
hex_string encryption_key = b'0' ∷ b'5' ∷ []
hex_string vote = b'0' ∷ b'6' ∷ []
hex_string voting_end = b'0' ∷ b'7' ∷ []
hex_string mix = b'0' ∷ b'8' ∷ []
hex_string partial_decryption = b'0' ∷ b'9' ∷ []
hex_string decryption = b'0' ∷ b'a' ∷ []

unfoldable pub name : TransactionType → String
name election = "election"
name key_gen_commitment = "key_gen_commitment"
name key_gen_share = "key_gen_share"
name key_gen_public_key = "key_gen_public_key"
name encryption_key = "encryption_key"
name vote = "vote"
name voting_end = "voting_end"
name mix = "mix"
name partial_decryption = "partial_decryption"
name decryption = "decryption"

pub record Identifier : Type 0 where
  pub election_id : List ℕ
  pub transaction_type : TransactionType
  pub unique_info : List ℕ

-- What the types `[u8; 15]` and `[u8; 16]` promise of the fields.
pub record IsWellFormed (id : Identifier) : Type 0 where
  pub election_length : length id.election_id ≡ 15
  pub unique_length : length id.unique_info ≡ 16
  pub election_bytes : IsBytes id.election_id
  pub unique_bytes : IsBytes id.unique_info

-- the derived `PartialEq`
unfoldable pub id_eq : Identifier → Identifier → Bool
id_eq a b =
    bytes_eq a.election_id b.election_id
    && (type_eq a.transaction_type b.transaction_type && bytes_eq a.unique_info b.unique_info)

abbrev pub unwrap_or : Option (List ℕ) → List ℕ → List ℕ
unwrap_or none d = d
unwrap_or (some a) d = a

-- `Identifier::new`
unfoldable pub new : Identifier → TransactionType → Option (List ℕ) → Identifier
new election_id transaction_type unique_info = record {
  election_id = election_id.election_id;
  transaction_type = transaction_type;
  unique_info = unwrap_or unique_info (replicate 16 0);
}

-- `array[0..mask.len()].copy_from_slice(mask)`, which panics if the mask is the longer
unfoldable pub copy_to_front : List ℕ → List ℕ → Option (List ℕ)
copy_to_front mask base =
    if leb (length mask) (length base) then some (mask ++ drop (length mask) base) else none

-- what `start` and `end` share: `none` is the panic of a mask of more than 16 bytes
unfoldable pub masked : Identifier → TransactionType → List ℕ → List ℕ → Option Identifier
masked election_id transaction_type mask base = elim (copy_to_front mask base) [
  | none ↦ none
  | some unique_info ↦ some (record {
    election_id = election_id.election_id;
    transaction_type = transaction_type;
    unique_info = unique_info;
  })
]

-- `Identifier::start`
unfoldable pub start : Identifier → TransactionType → Option (List ℕ) → Option Identifier
unfolding masked copy_to_front
start election_id transaction_type mask =
    masked election_id transaction_type (unwrap_or mask []) (replicate 16 0)

-- `Identifier::end`
unfoldable pub end : Identifier → TransactionType → Option (List ℕ) → Option Identifier
unfolding masked copy_to_front
end election_id transaction_type mask =
    masked election_id transaction_type (unwrap_or mask []) (replicate 16 255)

-- `Identifier::to_array` and `to_bytes`
unfoldable pub to_array : Identifier → List ℕ
to_array id = id.election_id ++ (as_u8 id.transaction_type ∷ id.unique_info)

-- `Ord::cmp`; `partial_cmp` is `Some` of it
unfoldable pub cmp : Identifier → Identifier → Ordering
cmp a b = then_cmp (lex_cmp a.election_id b.election_id) (
    then_cmp (compare (as_u8 a.transaction_type) (as_u8 b.transaction_type))
      (lex_cmp a.unique_info b.unique_info))
