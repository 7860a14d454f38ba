-- ===== src/Exonum.antt =====
-- The ledger on Exonum: cryptoballot_exonum/src/lib.rs.
pub mod Laws
use cryptoballot.Prelude.{
  replicate, ℕ, ◌≡◌, Bool, true, false, not, List, [], ◌∷◌, Option, none, some, Result, ok, err,
  ◌>>=◌, ◌>>◌, require, ok_or, map_err, and_then, if◌then◌else◌,
}
use cryptoballot.Bytes.{lex_cmp, bytes_eq}
use cryptoballot.BTreeMap.{cmp_le}
use cryptoballot.External.{External}
use cryptoballot.Identifier.{Identifier}
use cryptoballot.Identifier.Text.{to_string}
use cryptoballot.Transaction.{Cbor, SignedTransaction, tx_id, public}
use cryptoballot.Store.{Store}
use cryptoballot.Validate.{is_some}
use cryptoballot.Validate.Signed.{validate}

-- `Transaction`: the envelope of a signed transaction; `payload` is its field `data`
pub record Envelope : Type 0 where
  pub pub_key : List ℕ
  pub id : List ℕ
  pub payload : List ℕ

-- `MapIndex<_, String, Transaction>` of exonum; `iter_from` is in the order of the keys
pub record MapIndex : Type 1 where
  pub Map : Type 0
  pub get : List ℕ → Map → Option Envelope
  pub put : List ℕ → Envelope → Map → Map
  pub iter_from : List ℕ → Map → List (List ℕ × Envelope)
  pub values : Map → List Envelope
  pub get-put :
      (k j : List ℕ) (v : Envelope) (m : Map)
      → get j (put k v m) ≡ (if bytes_eq k j then some v else get j m)

pub data LedgerError : Type 0 where
  transaction_already_exists author_public_key_mismatch not_authorized : LedgerError
  verification_failed invalid_transaction_format : LedgerError

-- `from_bytes` is `SignedTransaction::from_bytes`; `none` also stands for the panic of a transaction
-- with an identifier that cannot be parsed.
module _ {x : External} (b : Cbor x) (i : MapIndex) (to_bytes : SignedTransaction x → List ℕ)
    (from_bytes : List ℕ → Option (SignedTransaction x)) where
  open i use {Map, get, put, iter_from}

  abbrev pub key_or_zero : Option x.PublicKey → List ℕ
  key_or_zero none = replicate 32 0
  key_or_zero (some key) = x.key_bytes key

  -- `From<SignedTransaction>`
  unfoldable pub envelope : SignedTransaction x → Envelope
  envelope tx = record {
    pub_key = key_or_zero (public tx);
    id = to_string x (tx_id tx);
    payload = to_bytes tx;
  }

  unfoldable pub get_decoded : Map → Identifier → Option (SignedTransaction x)
  get_decoded m id = and_then (get (to_string x id) m) λ encoded. from_bytes encoded.payload

  -- the loop of `range`, which stops at the first key beyond the end
  unfoldable pub decode_until : List ℕ → List (List ℕ × Envelope) → List (SignedTransaction x)
  decode_until end [] = []
  decode_until end ((k, v) ∷ rest) =
      let more = decode_until end rest in
      if cmp_le (lex_cmp k end)
      then elim (from_bytes v.payload) [ none ↦ more | some decoded ↦ decoded ∷ more ]
      else []

  -- `impl Store for TransactionSchema`
  abbrev pub schema : Map → Store x
  schema m = record {
    get_transaction = get_decoded m;
    range = λ start end_inclusive.
        some (decode_until (to_string x end_inclusive) (iter_from (to_string x start) m));
  }

  -- the new state where the call succeeds
  unfoldable pub verify_and_store : Map → Envelope → Result LedgerError Map
  verify_and_store m tx = do
    require (not (is_some (get tx.id m))) transaction_already_exists
    unpacked ← ok_or (from_bytes tx.payload) invalid_transaction_format
    map_err (λ _. verification_failed) (validate b (schema m) unpacked)
    ok (put tx.id tx m)
