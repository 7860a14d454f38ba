-- ===== src/Sawtooth.antt =====
-- The transaction processor on Sawtooth: cryptoballot_sawtooth_tp/src/handler.rs and error.rs.
pub mod Laws
pub mod Runs
use cryptoballot.Prelude.{
  ◌||◌, ℕ, ◌≡◌, Bool, true, false, not, List, [], ◌∷◌, ◌++◌, Option, none, some, ◌⊎◌, inl, inr,
  Result, ok, err, panic, ◌>>=◌, ◌>>◌, require, ok_or, map_err, from_sum,
}
use cryptoballot.External.{External}
use cryptoballot.Errors.{ValidationError}
use cryptoballot.Identifier.{Identifier}
use cryptoballot.Identifier.Text.{to_string}
use cryptoballot.Transaction.{Cbor, SignedTransaction, tx_id}
use cryptoballot.Store.{Store}
use cryptoballot.Validate.{is_some}
use cryptoballot.Validate.Signed.{validate}

-- `TransactionContext` of sawtooth_sdk: a state of bytes under addresses
pub record TransactionContext : Type 1 where
  pub Context : Type 0
  pub ContextError : Type 0
  pub get_state_entry : Context → List ℕ → ContextError ⊎ Option (List ℕ)
  pub set_state_entry : Context → List ℕ → List ℕ → ContextError ⊎ Context

module _ (x : External) (c : TransactionContext) where
  -- the variants of `TPError` that the handler makes
  pub data TpError : Type 0 where
    validation_error : ValidationError x → TpError
    already_exists : Identifier → TpError
    cannot_parse_transaction : Identifier → TpError
    context_error : c.ContextError → TpError

  -- `ApplyError` of sawtooth_sdk, with what its message is made of
  pub data ApplyError : Type 0 where
    invalid_header cannot_parse : ApplyError
    invalid_transaction : TpError → ApplyError
    internal_error : c.ContextError → ApplyError

module _ {x : External} where
  abbrev pub is_election : SignedTransaction x → Bool
  is_election (SignedTransaction.election e) = true
  is_election _ = false

-- `prefix` is `CB_PREFIX`
module _ {x : External} (b : Cbor x) (c : TransactionContext) (prefix : List ℕ)
    (to_bytes : SignedTransaction x → List ℕ)
    (from_bytes : List ℕ → Option (SignedTransaction x)) where
  open c use {Context, ContextError, get_state_entry, set_state_entry}

  unfoldable pub cb_address : Identifier → List ℕ
  cb_address transaction_id = prefix ++ to_string x transaction_id

  -- the match on what `get_state_entry` returns
  unfoldable pub parse_entry :
      Identifier → Option (List ℕ) → Result (TpError x c) (Option (SignedTransaction x))
  parse_entry id none = ok none
  parse_entry id (some packed) = elim (from_bytes packed) [
    | none ↦ err (cannot_parse_transaction id)
    | some t ↦ ok (some t)
  ]

  -- `CbState::get`
  unfoldable pub get_state :
      Context → Identifier → Result (TpError x c) (Option (SignedTransaction x))
  unfolding parse_entry
  get_state context transaction_id =
      from_sum context_error (get_state_entry context (cb_address transaction_id))
      >>= parse_entry transaction_id

  -- `CbState::set`
  unfoldable pub set_state : Context → SignedTransaction x → Result (ApplyError x c) Context
  set_state context transaction =
      from_sum internal_error
        (set_state_entry context (cb_address (tx_id transaction)) (to_bytes transaction))

  -- `ok().flatten()`
  abbrev pub flatten :
      Result (TpError x c) (Option (SignedTransaction x)) → Option (SignedTransaction x)
  flatten (ok t) = t
  flatten (err e) = none
  flatten panic = none

  -- `impl Store for CbState`: `range` is `todo!()`
  abbrev pub cb_state : Context → Store x
  cb_state context = record {
    get_transaction = λ id. flatten (get_state context id);
    range = λ start end. none;
  }

  unfoldable pub validate_transaction : SignedTransaction x → Context → Result (TpError x c) Unit
  validate_transaction transaction context = do
    require
        (is_election transaction
          || not (is_some ((cb_state context).get_transaction (tx_id transaction))))
        (already_exists (tx_id transaction))
    map_err validation_error (validate b (cb_state context) transaction)

  -- `apply`, with whether the request has a header, and its payload
  unfoldable pub apply : Bool → List ℕ → Context → Result (ApplyError x c) Context
  unfolding validate_transaction
  apply has_header payload context = do
    require has_header invalid_header
    transaction ← ok_or (from_bytes payload) cannot_parse
    map_err invalid_transaction (validate_transaction transaction context)
    set_state context transaction
