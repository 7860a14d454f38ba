-- ===== src/Store.antt =====
-- The trait `Store` of cryptoballot/src/store.rs: two operations that an implementation gives, and
-- the lookups that are written by them.
pub mod Mem
use cryptoballot.Prelude.{ℕ, List, Option, none, some, Result, ok, err, ok_or, and_then}
use cryptoballot.External.{External}
use cryptoballot.Errors.{TransactionNotFound}
use cryptoballot.Identifier.{Identifier, TransactionType, start, end}
use cryptoballot.Election.{ElectionTransaction}
use cryptoballot.Transaction.{
  Signed, SignedTransaction, KeyGenPublicKeyTransaction, VoteTransaction, MixTransaction,
  PartialDecryptionTransaction, DecryptionTransaction,
}
use cryptoballot.Transaction.Convert.{
  signed_election, signed_key_gen_public_key, signed_vote, signed_mix, signed_partial_decryption,
  signed_decryption,
}

-- `range` is `none` where the implementation panics
pub record Store (x : External) : Type 0 where
  pub get_transaction : Identifier → Option (SignedTransaction x)
  pub range : Identifier → Identifier → Option (List (SignedTransaction x))

module _ {x : External} where
  unfoldable pub get_multiple :
      Store x → Identifier → TransactionType → Option (List (SignedTransaction x))
  get_multiple s election_id tx_type =
      and_then (start election_id tx_type none)
        λ lo. and_then (end election_id tx_type none) λ hi. s.range lo hi

  -- A typed lookup: the transaction is there, and it is of the expected kind.
  abbrev pub expect :
      {T : Type 0}
      → Store x
      → (SignedTransaction x → Option T)
      → TransactionType
      → Identifier
      → Result TransactionNotFound T
  expect s convert tx_type id =
      ok_or (and_then (s.get_transaction id) convert) (record { id = id; tx_type = tx_type })

  unfoldable pub get_election :
      Store x → Identifier → Result TransactionNotFound (Signed x (ElectionTransaction x))
  get_election s = expect s signed_election TransactionType.election

  unfoldable pub get_keygen_public_key :
      Store x → Identifier → Result TransactionNotFound (Signed x (KeyGenPublicKeyTransaction x))
  get_keygen_public_key s = expect s signed_key_gen_public_key TransactionType.key_gen_public_key

  unfoldable pub get_vote :
      Store x → Identifier → Result TransactionNotFound (Signed x (VoteTransaction x))
  get_vote s = expect s signed_vote TransactionType.vote

  unfoldable pub get_mix :
      Store x → Identifier → Result TransactionNotFound (Signed x (MixTransaction x))
  get_mix s = expect s signed_mix TransactionType.mix

  unfoldable pub get_partial_decryption :
      Store x → Identifier → Result TransactionNotFound (Signed x (PartialDecryptionTransaction x))
  get_partial_decryption s = expect s signed_partial_decryption TransactionType.partial_decryption

  unfoldable pub get_decryption :
      Store x → Identifier → Result TransactionNotFound (Signed x (DecryptionTransaction x))
  get_decryption s = expect s signed_decryption TransactionType.decryption
