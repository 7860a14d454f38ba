-- ===== src/Service.antt =====
-- The Exonum service of cryptoballot_server/src/service.rs, and its interface, api.rs. The
-- blockchain's raw transactions, their parser and the generators of random numbers are arguments, and
-- what is printed is left out. `none` is a panic.
pub mod Laws
use cryptoballot.Prelude.{
  ℕ, suc, ◌-◌, Bool, true, false, List, [], ◌∷◌, ◌++◌, Option, none, some, Result, ok, err, panic,
  ◌>>=◌, unwrap, and_then, ok_or, map, length, replicate, if◌then◌else◌, ◌==◌, ◌&&◌,
}
use cryptoballot.External.{External}
use cryptoballot.Identifier.{Identifier}
use cryptoballot.Identifier.Text.{from_str}
use cryptoballot.Transaction.{Cbor, SignedTransaction, tx_id}
use cryptoballot.Store.{Store}
use cryptoballot.Validate.{is_some}
use cryptoballot.Exonum.{Envelope, MapIndex, LedgerError, schema, envelope, verify_and_store}
use cryptoballot.Tasks.Mixing.{ContestVotes}
use cryptoballot.Tasks.Generate.{generate_transactions}

-- `api::Error`, with the texts left out
pub data ApiError : Type 0 where
  not_found internal : ApiError

-- `starts_with`
unfoldable pub starts_with : List ℕ → List ℕ → Bool
starts_with text [] = true
starts_with [] (p ∷ prefix) = false
starts_with (c ∷ text) (p ∷ prefix) = c == p && starts_with text prefix

-- `format!("{:0<64}", prefix)`
abbrev pub pad : List ℕ → List ℕ
pad prefix = prefix ++ replicate (64 - length prefix) 48

module _ {x : External} (b : Cbor x) (i : MapIndex) (to_bytes : SignedTransaction x → List ℕ)
    (from_bytes : List ℕ → Option (SignedTransaction x)) where
  open i use {Map, get, iter_from, values}
  open x use {SecretKey, Rng}

  -- `CryptoballotApi::get_tx`
  unfoldable pub get_tx : Map → List ℕ → Result ApiError (SignedTransaction x)
  get_tx m id =
      ok_or (get id m) not_found >>= λ exonum_tx. ok_or (from_bytes exonum_tx.payload) internal

  -- the loops of `get_all`
  unfoldable pub collect : List Envelope → Result ApiError (List (SignedTransaction x))
  collect [] = ok []
  collect (exonum_tx ∷ rest) = do
    tx ← ok_or (from_bytes exonum_tx.payload) internal
    more ← collect rest
    ok (tx ∷ more)

  unfoldable pub collect_prefix :
      List ℕ → List (List ℕ × Envelope) → Result ApiError (List (SignedTransaction x))
  unfolding starts_with
  collect_prefix prefix [] = ok []
  collect_prefix prefix ((k, exonum_tx) ∷ rest) =
      let pushed = (do
        tx ← ok_or (from_bytes exonum_tx.payload) internal
        more ← collect_prefix prefix rest
        ok (tx ∷ more)) in
      if starts_with k prefix then pushed else ok []

  -- `CryptoballotApi::get_all`
  unfoldable pub get_all : Map → Option (List ℕ) → Result ApiError (List (SignedTransaction x))
  unfolding collect collect_prefix
  get_all m none = collect (values m)
  get_all m (some prefix) = collect_prefix prefix (iter_from (pad prefix) m)

  -- `submit_tx`, which passes the error on
  unfoldable pub submit_tx : Map → Envelope → Result LedgerError Map
  submit_tx m tx = verify_and_store b i to_bytes from_bytes m tx

  -- the inner loop of `after_commit`: what the store does not have is broadcast
  unfoldable pub broadcasts : Map → List (SignedTransaction x) → List Envelope
  broadcasts m [] = []
  broadcasts m (t ∷ ts) =
      let rest = broadcasts m ts in
      if is_some ((schema b i to_bytes from_bytes m).get_transaction (tx_id t))
      then rest
      else envelope b i to_bytes from_bytes t ∷ rest

  module _ (order : List (ContestVotes x) → List (ContestVotes x)) (secret : SecretKey) where
    -- what follows from the store's transaction, if there is one at the identifier
    unfoldable pub answer : Rng → Map → Option (SignedTransaction x) → Option (List Envelope)
    unfolding broadcasts
    answer rng m none = some []
    answer rng m (some tx) =
        and_then
          (unwrap (generate_transactions b order rng secret tx (schema b i to_bytes from_bytes m)))
          λ dependent_txs. some (broadcasts m dependent_txs)

    -- the parsed identifier: after an error the loop goes on
    abbrev pub answer_at : {E : Type 0} → Rng → Map → Result E Identifier → Option (List Envelope)
    answer_at rng m (ok id) = answer rng m ((schema b i to_bytes from_bytes m).get_transaction id)
    answer_at rng m (err e) = some []
    answer_at rng m panic = none

    -- an envelope of the block
    unfoldable pub process_tx : Rng → Map → Envelope → Option (List Envelope)
    unfolding answer
    process_tx rng m exonum_tx = answer_at rng m (from_str x exonum_tx.id)

    -- what the blockchain has at a hash, where it parses
    abbrev pub process_read : Rng → Map → Option Envelope → Option (List Envelope)
    process_read rng m none = some []
    process_read rng m (some exonum_tx) = process_tx rng m exonum_tx

    module _ {Hash Raw : Type 0} (all_txs : Hash → Option Raw) (parse : Raw → Option Envelope)
        (rngs : ℕ → Rng) where
      -- the loop over the block's transactions, with a generator for each
      unfoldable pub process_block : Map → ℕ → List Hash → Option (List Envelope)
      unfolding process_tx
      process_block m n [] = some []
      process_block m n (tx_hash ∷ rest) =
          and_then (process_read (rngs n) m (and_then (all_txs tx_hash) parse))
            λ sent. and_then (process_block m (suc n) rest) λ more. some (sent ++ more)

      -- `after_commit`: what it broadcasts, and the transactions that stay pending
      unfoldable pub after_commit :
          Map
          → List (SignedTransaction x)
          → List Hash
          → Option (List Envelope × List (SignedTransaction x))
      unfolding process_block
      after_commit m pending block =
          and_then (process_block m 0 block)
            λ sent. some (map (envelope b i to_bytes from_bytes) pending ++ sent, [])
