-- ===== src/Transaction/Convert.antt =====
-- The conversions between signed transactions and their kinds (cryptoballot/src/transaction.rs).
-- `none` is the panic "wrong transaction type expected". `AsRef` gives what `From` gives.
use cryptoballot.Prelude.{Option, none, some, List, [], ◌∷◌, and_then}
use cryptoballot.External.{External}
use cryptoballot.Election.{ElectionTransaction}
use cryptoballot.Transaction.{
  Signed, SignedTransaction, KeyGenCommitmentTransaction, KeyGenShareTransaction,
  KeyGenPublicKeyTransaction, EncryptionKeyTransaction, VoteTransaction, VotingEndTransaction,
  MixTransaction, PartialDecryptionTransaction, DecryptionTransaction,
}

-- `into_iter().map(|tx| tx.into()).collect()`, which panics if one conversion does
unfoldable pub convert_all : {A B : Type 0} → (A → Option B) → List A → Option (List B)
convert_all f [] = some []
convert_all f (a ∷ xs) = and_then (f a) (λ b. and_then (convert_all f xs) (λ bs. some (b ∷ bs)))

module _ {x : External} where
  unfoldable pub signed_election : SignedTransaction x → Option (Signed x (ElectionTransaction x))
  signed_election (SignedTransaction.election s) = some s
  signed_election _ = none

  unfoldable pub signed_key_gen_commitment :
      SignedTransaction x → Option (Signed x (KeyGenCommitmentTransaction x))
  signed_key_gen_commitment (SignedTransaction.key_gen_commitment s) = some s
  signed_key_gen_commitment _ = none

  unfoldable pub signed_key_gen_share :
      SignedTransaction x → Option (Signed x (KeyGenShareTransaction x))
  signed_key_gen_share (SignedTransaction.key_gen_share s) = some s
  signed_key_gen_share _ = none

  unfoldable pub signed_key_gen_public_key :
      SignedTransaction x → Option (Signed x (KeyGenPublicKeyTransaction x))
  signed_key_gen_public_key (SignedTransaction.key_gen_public_key s) = some s
  signed_key_gen_public_key _ = none

  unfoldable pub signed_encryption_key :
      SignedTransaction x → Option (Signed x (EncryptionKeyTransaction x))
  signed_encryption_key (SignedTransaction.encryption_key s) = some s
  signed_encryption_key _ = none

  unfoldable pub signed_vote : SignedTransaction x → Option (Signed x (VoteTransaction x))
  signed_vote (SignedTransaction.vote s) = some s
  signed_vote _ = none

  unfoldable pub signed_voting_end :
      SignedTransaction x → Option (Signed x (VotingEndTransaction x))
  signed_voting_end (SignedTransaction.voting_end s) = some s
  signed_voting_end _ = none

  unfoldable pub signed_mix : SignedTransaction x → Option (Signed x (MixTransaction x))
  signed_mix (SignedTransaction.mix s) = some s
  signed_mix _ = none

  unfoldable pub signed_partial_decryption :
      SignedTransaction x → Option (Signed x (PartialDecryptionTransaction x))
  signed_partial_decryption (SignedTransaction.partial_decryption s) = some s
  signed_partial_decryption _ = none

  unfoldable pub signed_decryption :
      SignedTransaction x → Option (Signed x (DecryptionTransaction x))
  signed_decryption (SignedTransaction.decryption s) = some s
  signed_decryption _ = none

  unfoldable pub inner_election : SignedTransaction x → Option (ElectionTransaction x)
  inner_election (SignedTransaction.election s) = some s.tx
  inner_election _ = none

  unfoldable pub inner_key_gen_commitment :
      SignedTransaction x → Option (KeyGenCommitmentTransaction x)
  inner_key_gen_commitment (SignedTransaction.key_gen_commitment s) = some s.tx
  inner_key_gen_commitment _ = none

  unfoldable pub inner_key_gen_share : SignedTransaction x → Option (KeyGenShareTransaction x)
  inner_key_gen_share (SignedTransaction.key_gen_share s) = some s.tx
  inner_key_gen_share _ = none

  unfoldable pub inner_key_gen_public_key :
      SignedTransaction x → Option (KeyGenPublicKeyTransaction x)
  inner_key_gen_public_key (SignedTransaction.key_gen_public_key s) = some s.tx
  inner_key_gen_public_key _ = none

  unfoldable pub inner_encryption_key : SignedTransaction x → Option (EncryptionKeyTransaction x)
  inner_encryption_key (SignedTransaction.encryption_key s) = some s.tx
  inner_encryption_key _ = none

  unfoldable pub inner_vote : SignedTransaction x → Option (VoteTransaction x)
  inner_vote (SignedTransaction.vote s) = some s.tx
  inner_vote _ = none

  unfoldable pub inner_voting_end : SignedTransaction x → Option (VotingEndTransaction x)
  inner_voting_end (SignedTransaction.voting_end s) = some s.tx
  inner_voting_end _ = none

  unfoldable pub inner_mix : SignedTransaction x → Option (MixTransaction x)
  inner_mix (SignedTransaction.mix s) = some s.tx
  inner_mix _ = none

  unfoldable pub inner_partial_decryption :
      SignedTransaction x → Option (PartialDecryptionTransaction x)
  inner_partial_decryption (SignedTransaction.partial_decryption s) = some s.tx
  inner_partial_decryption _ = none

  unfoldable pub inner_decryption : SignedTransaction x → Option (DecryptionTransaction x)
  inner_decryption (SignedTransaction.decryption s) = some s.tx
  inner_decryption _ = none
