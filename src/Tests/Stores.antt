-- ===== src/Tests/Stores.antt =====
-- The theorem on the conversions of what a store returns, at a store with the sample election.
use cryptoballot.Prelude.{◌≡◌, refl, List, ok, some}
use cryptoballot.Identifier.{IsWellFormed, TransactionType}
use cryptoballot.Transaction.{SignedTransaction, tx_id}
use cryptoballot.Store.{get_multiple}
use cryptoballot.Store.Mem.{empty, set, as_store}
use cryptoballot.Store.Mem.Typed.{Converts}
use cryptoballot.Validate.Signed.{validate}
use cryptoballot.Validate.Stored.{IsFilled, nothing, add, get_multiple-convert_all}
use cryptoballot.Tests.Toy.{toy, toy_cbor}
use cryptoballot.Tests.Sample.{election_id}
use cryptoballot.Tests.Identifiers.{election_id-IsWellFormed}
use cryptoballot.Tests.Ledgers.{election_tx}

accepted : validate toy_cbor (as_store empty) election_tx ≡ ok tt
unfolding validate cryptoballot.Transaction.tx_id cryptoballot.Election.build_id
    cryptoballot.Transaction.transaction_type cryptoballot.Validate.Election.validate_election
    cryptoballot.Identifier.id_eq cryptoballot.Validate.Signed.verify_signature
    cryptoballot.Bytes.bytes_eq cryptoballot.Validate.Signed.validate_signed
accepted = refl

pub formed : IsWellFormed (tx_id election_tx)
unfolding tx_id
formed = election_id-IsWellFormed

pub filled : IsFilled toy_cbor (set empty election_tx)
filled = add election_tx nothing formed accepted

get_multiple-convert_all_example :
    (ts : List (SignedTransaction toy)) × (get_multiple
        (as_store (set empty election_tx))
        election_id
        TransactionType.election
      ≡ some ts)
    × Converts TransactionType.election ts
get_multiple-convert_all_example =
    get_multiple-convert_all toy_cbor election_id TransactionType.election filled
      election_id-IsWellFormed
