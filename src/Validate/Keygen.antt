-- ===== src/Validate/Keygen.antt =====
-- `validate_tx` of the four transactions of cryptoballot/src/keygen.rs.
pub mod Laws
pub mod Complete
use cryptoballot.Prelude.{
  ℕ, Bool, true, false, ◌&&◌, List, [], ◌∷◌, Result, ok, err, ◌>>=◌, ◌>>◌, require, unwind, length,
  ◌==◌, any,
}
use cryptoballot.External.{External}
use cryptoballot.Errors.{
  ValidationError, trustee_does_not_exist, wrong_number_of_shares, trustee_share_missing,
  authority_public_key_mismatch, wrong_number_of_public_key_transactions,
  missing_key_gen_public_key_transaction, mismatched_encryption_key,
}
use cryptoballot.Identifier.{TransactionType}
use cryptoballot.Election.{Trustee, trustee_exists}
use cryptoballot.Transaction.{
  Signed, EncryptedShare, KeyGenCommitmentTransaction, KeyGenShareTransaction,
  KeyGenPublicKeyTransaction, EncryptionKeyTransaction,
}
use cryptoballot.Transaction.Convert.{convert_all, signed_key_gen_public_key}
use cryptoballot.Store.{Store, get_election, get_multiple}
use cryptoballot.Validate.{found}

-- `IndexMap::contains_key`
unfoldable pub contains_key : List (ℕ × EncryptedShare) → ℕ → Bool
contains_key m k = any (λ e. e.0 == k) m

module _ {x : External} where
  open x use {PublicKey, EncryptionKey, key_eq, encryption_key_eq}

  unfoldable pub validate_key_gen_commitment :
      Store x → KeyGenCommitmentTransaction x → Result (ValidationError x) Unit
  validate_key_gen_commitment s t = do
    election ← found (get_election s t.election)
    require (trustee_exists election.tx.trustees t.trustee_index t.trustee_public_key)
        (trustee_does_not_exist t.trustee_index)

  -- every trustee has a share; the error names the sender
  unfoldable pub check_shares :
      KeyGenShareTransaction x → List (Trustee x) → Result (ValidationError x) Unit
  unfolding contains_key
  check_shares t [] = ok tt
  check_shares t (trustee ∷ rest) = do
    require (contains_key t.shares trustee.index) (trustee_share_missing t.trustee_index)
    check_shares t rest

  unfoldable pub validate_key_gen_share :
      Store x → KeyGenShareTransaction x → Result (ValidationError x) Unit
  validate_key_gen_share s t = do
    election ← found (get_election s t.election)
    require (trustee_exists election.tx.trustees t.trustee_index t.trustee_public_key)
        (trustee_does_not_exist t.trustee_index)
    require (length t.shares == length election.tx.trustees) wrong_number_of_shares
    check_shares t election.tx.trustees

  unfoldable pub validate_key_gen_public_key :
      Store x → KeyGenPublicKeyTransaction x → Result (ValidationError x) Unit
  validate_key_gen_public_key s t = do
    election ← found (get_election s t.election)
    require (trustee_exists election.tx.trustees t.trustee_index t.trustee_public_key)
        (trustee_does_not_exist t.trustee_index)

  -- the inner loop that sets `has_tx`
  unfoldable pub has_tx : Trustee x → List (Signed x (KeyGenPublicKeyTransaction x)) → Bool
  has_tx trustee = any (λ p.
      p.tx.trustee_index == trustee.index && key_eq p.tx.trustee_public_key trustee.public_key)

  unfoldable pub check_trustees :
      List (Signed x (KeyGenPublicKeyTransaction x))
      → List (Trustee x)
      → Result (ValidationError x) Unit
  unfolding has_tx
  check_trustees pk_txs [] = ok tt
  check_trustees pk_txs (trustee ∷ rest) = do
    require (has_tx trustee pk_txs) (missing_key_gen_public_key_transaction trustee.index)
    check_trustees pk_txs rest

  unfoldable pub check_keys :
      EncryptionKey
      → List (Signed x (KeyGenPublicKeyTransaction x))
      → Result (ValidationError x) Unit
  check_keys key [] = ok tt
  check_keys key (p ∷ rest) = do
    require (encryption_key_eq p.tx.public_key key) (mismatched_encryption_key p.tx.trustee_index)
    check_keys key rest

  unfoldable pub validate_encryption_key :
      Store x → EncryptionKeyTransaction x → Result (ValidationError x) Unit
  validate_encryption_key s t = do
    election ← found (get_election s t.election)
    require (key_eq t.authority_public_key election.tx.authority_public)
        authority_public_key_mismatch
    txs ← unwind (get_multiple s t.election TransactionType.key_gen_public_key)
    pk_txs ← unwind (convert_all signed_key_gen_public_key txs)
    require (length pk_txs == length election.tx.trustees) wrong_number_of_public_key_transactions
    check_trustees pk_txs election.tx.trustees
    check_keys t.encryption_key pk_txs
