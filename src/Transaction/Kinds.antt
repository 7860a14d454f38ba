-- ===== src/Transaction/Kinds.antt =====
-- The conversions of cryptoballot/src/transaction.rs as functions of the kind: what Rust chooses by
-- the type that is expected, `Tx` chooses by the transaction type. `none` is the panic.
pub mod Laws
use cryptoballot.Prelude.{Option, none, some}
use cryptoballot.External.{External}
use cryptoballot.Identifier.{TransactionType}
use cryptoballot.Election.{ElectionTransaction}
use cryptoballot.Transaction.{
  Signed, SignedTransaction, Transaction, KeyGenCommitmentTransaction, KeyGenShareTransaction,
  KeyGenPublicKeyTransaction, EncryptionKeyTransaction, VoteTransaction, VotingEndTransaction,
  MixTransaction, PartialDecryptionTransaction, DecryptionTransaction,
}
use cryptoballot.Transaction.Convert.{
  signed_election, signed_key_gen_commitment, signed_key_gen_share, signed_key_gen_public_key,
  signed_encryption_key, signed_vote, signed_voting_end, signed_mix, signed_partial_decryption,
  signed_decryption, inner_election, inner_key_gen_commitment, inner_key_gen_share,
  inner_key_gen_public_key, inner_encryption_key, inner_vote, inner_voting_end, inner_mix,
  inner_partial_decryption, inner_decryption,
}

-- The unsigned transactions of a kind.
abbrev pub Tx : External → TransactionType → Type 0
Tx x TransactionType.election = ElectionTransaction x
Tx x TransactionType.key_gen_commitment = KeyGenCommitmentTransaction x
Tx x TransactionType.key_gen_share = KeyGenShareTransaction x
Tx x TransactionType.key_gen_public_key = KeyGenPublicKeyTransaction x
Tx x TransactionType.encryption_key = EncryptionKeyTransaction x
Tx x TransactionType.vote = VoteTransaction x
Tx x TransactionType.voting_end = VotingEndTransaction x
Tx x TransactionType.mix = MixTransaction x
Tx x TransactionType.partial_decryption = PartialDecryptionTransaction x
Tx x TransactionType.decryption = DecryptionTransaction x

module _ {x : External} where
  -- `From<Signed<T>> for SignedTransaction`
  unfoldable pub from_signed : (k : TransactionType) → Signed x (Tx x k) → SignedTransaction x
  from_signed TransactionType.election s = SignedTransaction.election s
  from_signed TransactionType.key_gen_commitment s = SignedTransaction.key_gen_commitment s
  from_signed TransactionType.key_gen_share s = SignedTransaction.key_gen_share s
  from_signed TransactionType.key_gen_public_key s = SignedTransaction.key_gen_public_key s
  from_signed TransactionType.encryption_key s = SignedTransaction.encryption_key s
  from_signed TransactionType.vote s = SignedTransaction.vote s
  from_signed TransactionType.voting_end s = SignedTransaction.voting_end s
  from_signed TransactionType.mix s = SignedTransaction.mix s
  from_signed TransactionType.partial_decryption s = SignedTransaction.partial_decryption s
  from_signed TransactionType.decryption s = SignedTransaction.decryption s

  -- `From<SignedTransaction> for Signed<T>`
  unfoldable pub into_signed :
      (k : TransactionType) → SignedTransaction x → Option (Signed x (Tx x k))
  into_signed TransactionType.election t = signed_election t
  into_signed TransactionType.key_gen_commitment t = signed_key_gen_commitment t
  into_signed TransactionType.key_gen_share t = signed_key_gen_share t
  into_signed TransactionType.key_gen_public_key t = signed_key_gen_public_key t
  into_signed TransactionType.encryption_key t = signed_encryption_key t
  into_signed TransactionType.vote t = signed_vote t
  into_signed TransactionType.voting_end t = signed_voting_end t
  into_signed TransactionType.mix t = signed_mix t
  into_signed TransactionType.partial_decryption t = signed_partial_decryption t
  into_signed TransactionType.decryption t = signed_decryption t

  -- `From<SignedTransaction> for T`
  unfoldable pub into_tx : (k : TransactionType) → SignedTransaction x → Option (Tx x k)
  into_tx TransactionType.election t = inner_election t
  into_tx TransactionType.key_gen_commitment t = inner_key_gen_commitment t
  into_tx TransactionType.key_gen_share t = inner_key_gen_share t
  into_tx TransactionType.key_gen_public_key t = inner_key_gen_public_key t
  into_tx TransactionType.encryption_key t = inner_encryption_key t
  into_tx TransactionType.vote t = inner_vote t
  into_tx TransactionType.voting_end t = inner_voting_end t
  into_tx TransactionType.mix t = inner_mix t
  into_tx TransactionType.partial_decryption t = inner_partial_decryption t
  into_tx TransactionType.decryption t = inner_decryption t

  -- `AsRef<T> for SignedTransaction`
  unfoldable pub as_ref : (k : TransactionType) → SignedTransaction x → Option (Tx x k)
  as_ref TransactionType.election (SignedTransaction.election s) = some s.tx
  as_ref TransactionType.key_gen_commitment (SignedTransaction.key_gen_commitment s) = some s.tx
  as_ref TransactionType.key_gen_share (SignedTransaction.key_gen_share s) = some s.tx
  as_ref TransactionType.key_gen_public_key (SignedTransaction.key_gen_public_key s) = some s.tx
  as_ref TransactionType.encryption_key (SignedTransaction.encryption_key s) = some s.tx
  as_ref TransactionType.vote (SignedTransaction.vote s) = some s.tx
  as_ref TransactionType.voting_end (SignedTransaction.voting_end s) = some s.tx
  as_ref TransactionType.mix (SignedTransaction.mix s) = some s.tx
  as_ref TransactionType.partial_decryption (SignedTransaction.partial_decryption s) = some s.tx
  as_ref TransactionType.decryption (SignedTransaction.decryption s) = some s.tx
  as_ref _ _ = none

  -- `Transaction::transaction_type`
  unfoldable pub unsigned_type : Transaction x → TransactionType
  unsigned_type (Transaction.election _) = TransactionType.election
  unsigned_type (Transaction.key_gen_commitment _) = TransactionType.key_gen_commitment
  unsigned_type (Transaction.key_gen_share _) = TransactionType.key_gen_share
  unsigned_type (Transaction.key_gen_public_key _) = TransactionType.key_gen_public_key
  unsigned_type (Transaction.encryption_key _) = TransactionType.encryption_key
  unsigned_type (Transaction.vote _) = TransactionType.vote
  unsigned_type (Transaction.voting_end _) = TransactionType.voting_end
  unsigned_type (Transaction.mix _) = TransactionType.mix
  unsigned_type (Transaction.partial_decryption _) = TransactionType.partial_decryption
  unsigned_type (Transaction.decryption _) = TransactionType.decryption
