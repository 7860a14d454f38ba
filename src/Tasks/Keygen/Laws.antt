-- ===== src/Tasks/Keygen/Laws.antt =====
-- What the tasks of the key generation (tasks.rs) post is signed.
use cryptoballot.Prelude.{ap, unwind, map_err, length, ◌==◌}
use cryptoballot.External.{External}
use cryptoballot.Errors.{Error}
use cryptoballot.Identifier.{TransactionType, new}
use cryptoballot.Election.{ElectionTransaction}
use cryptoballot.Transaction.{
  Cbor, SignedTransaction, KeyGenCommitmentTransaction, KeyGenShareTransaction,
  KeyGenPublicKeyTransaction, EncryptionKeyTransaction, transaction_type, tx_id,
}
use cryptoballot.Transaction.Convert.{
  inner_key_gen_commitment, inner_key_gen_share, inner_key_gen_public_key,
}
use cryptoballot.Trustee.{generate_shares, generate_public_key}
use cryptoballot.Transaction.Ids.{
  new_key_gen_commitment, new_key_gen_share, new_key_gen_public_key, new_encryption_key,
  key_gen_commitment_id, key_gen_share_id, key_gen_public_key_id, encryption_key_id,
}
use cryptoballot.Store.{Store, get_election}
use cryptoballot.Validate.Traits.{
  key_gen_commitment_trait, key_gen_share_trait, key_gen_public_key_trait, encryption_key_trait,
}
use cryptoballot.Validate.Signed.{verify_any}
use cryptoballot.Tasks.{
  looked_up, read_all, shares_for, x25519_keys_of, commitments_of, trustee_from_election,
}
use cryptoballot.Tasks.Sound.{
  IsSigned, AreSigned, Yields-nothing, Yields-sign_tx, Yields->>=, Yields-if_trustee, Yields-if,
}
use cryptoballot.Tasks.Keygen.{
  process_election, make_shares, process_keygen_commitment, make_public_key, process_keygen_share,
  process_keygen_public_key,
}

module _ {x : External} (b : Cbor x) where
  open x use {Rng, SecretKey, EncryptionKey, Ciphertext}

  pub process_election-AreSigned :
      (secret : SecretKey) (e : ElectionTransaction x) → AreSigned b (process_election b secret e)
  unfolding process_election verify_any tx_id transaction_type new_key_gen_commitment
      key_gen_commitment_id new
  process_election-AreSigned secret e =
      Yields-if_trustee (IsSigned b) (trustee_from_election e (x.public_of secret)) _
        λ trustee chosen.
          Yields-sign_tx b (IsSigned b) key_gen_commitment_trait
            SignedTransaction.key_gen_commitment secret _
            λ u same good.
              (good, ap (λ (t : KeyGenCommitmentTransaction x). t.id.transaction_type) same)

  pub process_keygen_commitment-AreSigned :
      (rng : Rng) (secret : SecretKey) (s : Store x) (t : KeyGenCommitmentTransaction x)
      → AreSigned b (process_keygen_commitment b rng secret s t)
  unfolding process_keygen_commitment make_shares verify_any tx_id transaction_type
      new_key_gen_share key_gen_share_id new
  process_keygen_commitment-AreSigned rng secret s t =
      Yields->>= (IsSigned b) (looked_up (get_election s t.election)) _ λ e got.
        Yields-if_trustee (IsSigned b) (trustee_from_election e.tx (x.public_of secret)) _
          λ trustee chosen.
            Yields->>= (IsSigned b)
              (unwind
                (read_all s inner_key_gen_commitment e.tx.id TransactionType.key_gen_commitment))
              _
              λ txs got.
                Yields-if (IsSigned b) (length txs == length e.tx.trustees) _ _
                  (Yields->>= (IsSigned b)
                    (unwind (
                      generate_shares rng trustee secret (x25519_keys_of txs) e.tx.id
                        (commitments_of txs)))
                    _
                    λ shares got.
                      Yields-sign_tx b (IsSigned b) key_gen_share_trait
                        SignedTransaction.key_gen_share secret
                        (new_key_gen_share e.tx.id trustee.index trustee.public_key shares.1)
                        λ u same good.
                          (good, ap (λ (t : KeyGenShareTransaction x). t.id.transaction_type) same))
                  (Yields-nothing (IsSigned b))

  pub process_keygen_share-AreSigned :
      (secret : SecretKey) (s : Store x) (t : KeyGenShareTransaction x)
      → AreSigned b (process_keygen_share b secret s t)
  unfolding process_keygen_share make_public_key verify_any tx_id transaction_type
      new_key_gen_public_key key_gen_public_key_id new
  process_keygen_share-AreSigned secret s t =
      Yields->>= (IsSigned b) (looked_up (get_election s t.election)) _ λ e got.
        Yields-if_trustee (IsSigned b) (trustee_from_election e.tx (x.public_of secret)) _
          λ trustee chosen.
            Yields->>= (IsSigned b)
              (unwind (read_all s inner_key_gen_share e.tx.id TransactionType.key_gen_share)) _
              λ txs got.
                Yields-if (IsSigned b) (length txs == length e.tx.trustees) _ _
                  (Yields->>= (IsSigned b)
                    (unwind (
                      read_all s inner_key_gen_commitment e.tx.id
                        TransactionType.key_gen_commitment))
                    _
                    λ commits got.
                      Yields->>= (IsSigned b) (unwind (shares_for trustee.index txs)) _
                        λ shares got.
                          Yields->>= (IsSigned b)
                            (map_err Error.validation_error (
                              generate_public_key trustee secret (x25519_keys_of commits)
                                (commitments_of commits) shares e.tx.id))
                            _
                            λ made got.
                              Yields-sign_tx b (IsSigned b) key_gen_public_key_trait
                                SignedTransaction.key_gen_public_key secret
                                (new_key_gen_public_key e.tx.id trustee.index trustee.public_key
                                  made.0 made.1)
                                λ u same good. (
                                  good,
                                  ap (λ (t : KeyGenPublicKeyTransaction x). t.id.transaction_type)
                                      same,
                                ))
                  (Yields-nothing (IsSigned b))

  pub process_keygen_public_key-AreSigned :
      (secret : SecretKey) (s : Store x) (t : KeyGenPublicKeyTransaction x)
      → AreSigned b (process_keygen_public_key b secret s t)
  unfolding process_keygen_public_key verify_any tx_id transaction_type new_encryption_key
      encryption_key_id new
  process_keygen_public_key-AreSigned secret s t =
      Yields->>= (IsSigned b) (looked_up (get_election s t.election)) _ λ e got.
        Yields-if (IsSigned b) (x.key_eq e.tx.authority_public (x.public_of secret)) _ _
          (Yields->>= (IsSigned b)
            (unwind
              (read_all s inner_key_gen_public_key e.tx.id TransactionType.key_gen_public_key))
            _
            λ txs got.
              Yields-if (IsSigned b) (length e.tx.trustees == length txs) _ _
                (Yields-sign_tx b (IsSigned b) encryption_key_trait SignedTransaction.encryption_key
                  secret (new_encryption_key e.tx.id e.tx.authority_public t.public_key)
                  λ u same good.
                    (good, ap (λ (t : EncryptionKeyTransaction x). t.id.transaction_type) same))
                (Yields-nothing (IsSigned b)))
          (Yields-nothing (IsSigned b))
