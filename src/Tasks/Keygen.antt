-- ===== src/Tasks/Keygen.antt =====
-- The tasks of the key generation: `process_election`, `process_keygen_commitment`,
-- `process_keygen_share` and `process_keygen_public_key` of cryptoballot_server/src/tasks.rs.
pub mod Laws
pub mod Accepted
use cryptoballot.Prelude.{
  ℕ, List, [], ◌∷◌, Option, none, some, Result, ok, ◌>>=◌, unwind, map_err, ◌==◌, if◌then◌else◌,
  length,
}
use cryptoballot.External.{External}
use cryptoballot.Errors.{Error}
use cryptoballot.Identifier.{TransactionType}
use cryptoballot.Election.{ElectionTransaction, Trustee}
use cryptoballot.Transaction.{
  Cbor, Signed, SignedTransaction, KeyGenCommitmentTransaction, KeyGenShareTransaction,
  KeyGenPublicKeyTransaction,
}
use cryptoballot.Transaction.Convert.{
  inner_key_gen_commitment, inner_key_gen_share, inner_key_gen_public_key,
}
use cryptoballot.Transaction.Ids.{
  new_key_gen_commitment, new_key_gen_share, new_key_gen_public_key, new_encryption_key,
}
use cryptoballot.Store.{Store, get_election}
use cryptoballot.Trustee.{
  keygen_commitment, x25519_public_key, generate_shares, generate_public_key,
}
use cryptoballot.Validate.Traits.{
  key_gen_commitment_trait, key_gen_share_trait, key_gen_public_key_trait, encryption_key_trait,
}
use cryptoballot.Validate.Signed.{sign_tx}
use cryptoballot.Tasks.{
  trustee_from_election, if_trustee, looked_up, read_all, commitments_of, x25519_keys_of,
  shares_for,
}

module _ {x : External} (b : Cbor x) where
  open x use {Rng, SecretKey, public_of, key_eq}

  unfoldable pub process_election :
      SecretKey → ElectionTransaction x → Result (Error x) (List (SignedTransaction x))
  process_election secret election =
      if_trustee (trustee_from_election election (public_of secret)) λ trustee.
        sign_tx b key_gen_commitment_trait secret (
          new_key_gen_commitment election.id trustee.index trustee.public_key
            (x25519_public_key x secret election.id) (keygen_commitment trustee secret election.id))
        >>= λ signed. ok (SignedTransaction.key_gen_commitment signed ∷ [])

  -- the share transaction that a trustee makes from all commitments
  unfoldable pub make_shares :
      Rng
      → SecretKey
      → ElectionTransaction x
      → Trustee x
      → List (KeyGenCommitmentTransaction x)
      → Result (Error x) (List (SignedTransaction x))
  make_shares rng secret election trustee commit_txs = do
    shares ← unwind (
        generate_shares rng trustee secret (x25519_keys_of commit_txs) election.id
          (commitments_of commit_txs))
    signed ←
        sign_tx b key_gen_share_trait secret
          (new_key_gen_share election.id trustee.index trustee.public_key shares.1)
    ok (SignedTransaction.key_gen_share signed ∷ [])

  unfoldable pub process_keygen_commitment :
      Rng
      → SecretKey
      → Store x
      → KeyGenCommitmentTransaction x
      → Result (Error x) (List (SignedTransaction x))
  unfolding make_shares
  process_keygen_commitment rng secret s commit_tx = do
    election ← looked_up (get_election s commit_tx.election)
    if_trustee (trustee_from_election election.tx (public_of secret)) λ trustee.
        unwind
          (read_all s inner_key_gen_commitment election.tx.id TransactionType.key_gen_commitment)
        >>= λ commit_txs.
            if length commit_txs == length election.tx.trustees
            then make_shares rng secret election.tx trustee commit_txs
            else ok []

  -- the public key transaction that a trustee makes from the shares that were sent to it
  unfoldable pub make_public_key :
      SecretKey
      → Store x
      → ElectionTransaction x
      → Trustee x
      → List (KeyGenShareTransaction x)
      → Result (Error x) (List (SignedTransaction x))
  make_public_key secret s election trustee share_txs = do
    commit_txs ←
        unwind (read_all s inner_key_gen_commitment election.id TransactionType.key_gen_commitment)
    shares ← unwind (shares_for trustee.index share_txs)
    made ← map_err Error.validation_error (
        generate_public_key trustee secret (x25519_keys_of commit_txs) (commitments_of commit_txs)
          shares election.id)
    signed ←
        sign_tx b key_gen_public_key_trait secret
          (new_key_gen_public_key election.id trustee.index trustee.public_key made.0 made.1)
    ok (SignedTransaction.key_gen_public_key signed ∷ [])

  unfoldable pub process_keygen_share :
      SecretKey → Store x → KeyGenShareTransaction x → Result (Error x) (List (SignedTransaction x))
  unfolding make_public_key
  process_keygen_share secret s share_tx = do
    election ← looked_up (get_election s share_tx.election)
    if_trustee (trustee_from_election election.tx (public_of secret)) λ trustee.
        unwind (read_all s inner_key_gen_share election.tx.id TransactionType.key_gen_share)
        >>= λ share_txs.
            if length share_txs == length election.tx.trustees
            then make_public_key secret s election.tx trustee share_txs
            else ok []

  unfoldable pub process_keygen_public_key :
      SecretKey
      → Store x
      → KeyGenPublicKeyTransaction x
      → Result (Error x) (List (SignedTransaction x))
  process_keygen_public_key secret s pk_tx = do
    election ← looked_up (get_election s pk_tx.election)
    if key_eq election.tx.authority_public (public_of secret)
        then (unwind (
              read_all s inner_key_gen_public_key election.tx.id TransactionType.key_gen_public_key)
            >>= λ pk_txs.
                if length election.tx.trustees == length pk_txs
                then (sign_tx b encryption_key_trait secret (
                      new_encryption_key election.tx.id election.tx.authority_public
                        pk_tx.public_key)
                    >>= λ signed. ok (SignedTransaction.encryption_key signed ∷ []))
                else ok [])
        else ok []
