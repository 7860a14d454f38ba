-- ===== src/Transaction/Kinds/Laws.antt =====
-- What the conversions of cryptoballot/src/transaction.rs do with a transaction of the kind.
use cryptoballot.Prelude.{arith, ◌≡◌, refl, some}
use cryptoballot.External.{External}
use cryptoballot.Identifier.{TransactionType}
use cryptoballot.Transaction.{Signed, SignedTransaction, transaction_type}
use cryptoballot.Transaction.Convert.{
  signed_election, signed_key_gen_commitment, signed_key_gen_share, signed_key_gen_public_key,
  signed_encryption_key, signed_vote, signed_voting_end, signed_mix, signed_partial_decryption,
  signed_decryption, inner_election, inner_key_gen_commitment, inner_key_gen_share,
  inner_key_gen_public_key, inner_encryption_key, inner_vote, inner_voting_end, inner_mix,
  inner_partial_decryption, inner_decryption,
}
use cryptoballot.Transaction.Kinds.{Tx, from_signed, into_signed, into_tx, as_ref}

module _ {x : External} where
  -- The conversions give the same transaction.
  pub record IsConverted (k : TransactionType) (t : SignedTransaction x) (s : Signed x (Tx x k))
      : Type 0 where
    pub same : from_signed k s ≡ t
    pub signed : into_signed k t ≡ some s
    pub inner : into_tx k t ≡ some s.tx
    pub borrowed : as_ref k t ≡ some s.tx

  -- A transaction converts to its own kind.
  pub transaction_type-IsConverted :
      (t : SignedTransaction x)
      → (s : Signed x (Tx x (transaction_type t))) × IsConverted (transaction_type t) t s
  unfolding transaction_type from_signed into_signed into_tx as_ref signed_election
      signed_key_gen_commitment signed_key_gen_share signed_key_gen_public_key signed_encryption_key
      signed_vote signed_voting_end signed_mix signed_partial_decryption signed_decryption
      inner_election inner_key_gen_commitment inner_key_gen_share inner_key_gen_public_key
      inner_encryption_key inner_vote inner_voting_end inner_mix inner_partial_decryption
      inner_decryption
  transaction_type-IsConverted (SignedTransaction.election s) =
      (s, record { same = refl; signed = refl; inner = refl; borrowed = refl })
  transaction_type-IsConverted (SignedTransaction.key_gen_commitment s) =
      (s, record { same = refl; signed = refl; inner = refl; borrowed = refl })
  transaction_type-IsConverted (SignedTransaction.key_gen_share s) =
      (s, record { same = refl; signed = refl; inner = refl; borrowed = refl })
  transaction_type-IsConverted (SignedTransaction.key_gen_public_key s) =
      (s, record { same = refl; signed = refl; inner = refl; borrowed = refl })
  transaction_type-IsConverted (SignedTransaction.encryption_key s) =
      (s, record { same = refl; signed = refl; inner = refl; borrowed = refl })
  transaction_type-IsConverted (SignedTransaction.vote s) =
      (s, record { same = refl; signed = refl; inner = refl; borrowed = refl })
  transaction_type-IsConverted (SignedTransaction.voting_end s) =
      (s, record { same = refl; signed = refl; inner = refl; borrowed = refl })
  transaction_type-IsConverted (SignedTransaction.mix s) =
      (s, record { same = refl; signed = refl; inner = refl; borrowed = refl })
  transaction_type-IsConverted (SignedTransaction.partial_decryption s) =
      (s, record { same = refl; signed = refl; inner = refl; borrowed = refl })
  transaction_type-IsConverted (SignedTransaction.decryption s) =
      (s, record { same = refl; signed = refl; inner = refl; borrowed = refl })

  into_signed-eq-some :
      (k : TransactionType) (t : SignedTransaction x) (s : Signed x (Tx x k))
      → into_signed k t ≡ some s
      → from_signed k s ≡ t
  unfolding from_signed into_signed signed_election signed_key_gen_commitment signed_key_gen_share
      signed_key_gen_public_key signed_encryption_key signed_vote signed_voting_end signed_mix
      signed_partial_decryption signed_decryption
  into_signed-eq-some TransactionType.election t s h = ground (arith, h)
  into_signed-eq-some TransactionType.key_gen_commitment t s h = ground (arith, h)
  into_signed-eq-some TransactionType.key_gen_share t s h = ground (arith, h)
  into_signed-eq-some TransactionType.key_gen_public_key t s h = ground (arith, h)
  into_signed-eq-some TransactionType.encryption_key t s h = ground (arith, h)
  into_signed-eq-some TransactionType.vote t s h = ground (arith, h)
  into_signed-eq-some TransactionType.voting_end t s h = ground (arith, h)
  into_signed-eq-some TransactionType.mix t s h = ground (arith, h)
  into_signed-eq-some TransactionType.partial_decryption t s h = ground (arith, h)
  into_signed-eq-some TransactionType.decryption t s h = ground (arith, h)
