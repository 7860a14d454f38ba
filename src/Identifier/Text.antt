-- ===== src/Identifier/Text.antt =====
-- The hexadecimal form of identifiers (`Display`, `FromStr` and `new_from_str_id` of
-- cryptoballot/src/transaction.rs), which the stores use as the key.
pub mod RoundTrip
use cryptoballot.Prelude.{
  ℕ, ◌<◌, ◌≡◌, ◌≢◌, sym, ap, ◌∙◌, Bool, true, false, not, ◌&&◌, ◌||◌, List, [], ◌∷◌, ◌++◌, Option,
  none, some, arith, ◌==◌, ltb, leb, length, take, drop, replicate, get_elem?, if◌then◌else◌,
  Result, ok, err, panic, ◌>>=◌, ◌>>◌, require, ok_or, unwind,
}
use cryptoballot.Bytes.{lex_cmp}
use cryptoballot.External.{External}
use cryptoballot.Errors.{Error, identifier_bad_hex, identifier_bad_len}
use cryptoballot.Identifier.{Identifier, TransactionType, from_u8, new, to_array, unwrap_or}

-- the lookups of `from_str` that panic: an unknown type byte, and a tail that is not 16 bytes
unfoldable pub parts_of : List ℕ → Option Identifier
parts_of bytes = elim (get_elem? bytes 15) [
  | none ↦ none
  | some b ↦ elim (from_u8 b) [
    | none ↦ none
    | some transaction_type ↦
        if length (drop 16 bytes) == 16
        then some (record {
          election_id = take 15 bytes;
          transaction_type = transaction_type;
          unique_info = drop 16 bytes;
        })
        else none
  ]
]

module _ (x : External) where
  open x use {encode, decode}

  -- `Display::fmt`, and `ToString` by it
  unfoldable pub to_string : Identifier → List ℕ
  to_string id = encode (to_array id)

  -- `FromStr::from_str`
  unfoldable pub from_str : List ℕ → Result (Error x) Identifier
  unfolding parts_of
  from_str s = do
    bytes ← ok_or (decode s) identifier_bad_hex
    require (length bytes == 32 || length bytes == 16) identifier_bad_len
    unwind (parts_of bytes)

  -- `Identifier::new_from_str_id`
  unfoldable pub new_from_str_id : List ℕ → TransactionType → Option (List ℕ) → Option Identifier
  new_from_str_id election_id transaction_type unique_info = elim (decode election_id) [
    | none ↦ none
    | some bits ↦
        if ltb (length bits) 15
        then none
        else some (
            new
              (record {
                election_id = take 15 bits;
                transaction_type = TransactionType.election;
                unique_info = replicate 16 0;
              })
              transaction_type (some (unwrap_or unique_info (replicate 16 0))))
  ]
