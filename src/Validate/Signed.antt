-- ===== src/Validate/Signed.antt =====
-- Signed transactions (cryptoballot/src/transaction.rs): signing, the check of a signature, and the
-- validation of a signed transaction against a store.
pub mod Laws
use cryptoballot.Prelude.{
  ℕ, List, Option, none, some, Bool, true, false, Result, ok, err, ◌>>=◌, ◌>>◌, require,
  if◌then◌else◌,
}
use cryptoballot.External.{External}
use cryptoballot.Errors.{
  Error, ValidationError, mismatched_public_keys, signature_error, mismatched_transaction_type,
}
use cryptoballot.Identifier.{Identifier, type_eq}
use cryptoballot.Transaction.{Cbor, Signed, SignedTransaction, Transaction, transaction_type, tx_id}
use cryptoballot.Store.{Store}
use cryptoballot.Validate.Traits.{
  CryptoBallotTransaction, election_trait, key_gen_commitment_trait, key_gen_share_trait,
  key_gen_public_key_trait, encryption_key_trait, vote_trait, voting_end_trait, mix_trait,
  partial_decryption_trait, decryption_trait,
}

module _ {x : External} (b : Cbor x) where
  open x use {PublicKey, SecretKey, Signature, public_of, sign, verify, key_eq}
  open b use {tx_bytes}

  -- whether `Signed::sign` accepts the key of the transaction
  abbrev pub may_sign : PublicKey → Option PublicKey → Bool
  may_sign public_key none = true
  may_sign public_key (some tx_public) = key_eq public_key tx_public

  unfoldable pub sign_tx :
      {T : Type 0} → CryptoBallotTransaction x T → SecretKey → T → Result (Error x) (Signed x T)
  sign_tx i secret tx =
      let public_key = public_of secret in
      if may_sign public_key (i.public_key tx)
      then ok (record { tx = tx; sig = sign secret (tx_bytes (i.as_transaction tx)) public_key })
      else err mismatched_public_keys

  abbrev pub check_signature :
      Option PublicKey → List ℕ → Signature → Result (ValidationError x) Unit
  check_signature none serialized sig = ok tt
  check_signature (some tx_public) serialized sig =
      require (verify tx_public serialized sig) signature_error

  -- `Signed::verify_signature`
  unfoldable pub verify_signature :
      {T : Type 0} → CryptoBallotTransaction x T → Signed x T → Result (ValidationError x) Unit
  verify_signature i s =
      check_signature (i.public_key s.tx) (tx_bytes (i.as_transaction s.tx)) s.sig

  -- `Signed::validate`
  unfoldable pub validate_signed :
      {T : Type 0}
      → CryptoBallotTransaction x T
      → Store x
      → Signed x T
      → Result (ValidationError x) Unit
  unfolding verify_signature
  validate_signed i store s = verify_signature i s >> i.validate_tx store s.tx

  -- the match of `SignedTransaction::validate`
  unfoldable pub validate_kind : Store x → SignedTransaction x → Result (ValidationError x) Unit
  unfolding validate_signed
  validate_kind s (SignedTransaction.election t) = validate_signed election_trait s t
  validate_kind s (SignedTransaction.key_gen_commitment t) =
      validate_signed key_gen_commitment_trait s t
  validate_kind s (SignedTransaction.key_gen_share t) = validate_signed key_gen_share_trait s t
  validate_kind s (SignedTransaction.key_gen_public_key t) =
      validate_signed key_gen_public_key_trait s t
  validate_kind s (SignedTransaction.encryption_key t) = validate_signed encryption_key_trait s t
  validate_kind s (SignedTransaction.vote t) = validate_signed vote_trait s t
  validate_kind s (SignedTransaction.voting_end t) = validate_signed voting_end_trait s t
  validate_kind s (SignedTransaction.mix t) = validate_signed mix_trait s t
  validate_kind s (SignedTransaction.partial_decryption t) =
      validate_signed partial_decryption_trait s t
  validate_kind s (SignedTransaction.decryption t) = validate_signed decryption_trait s t

  -- `SignedTransaction::validate`
  unfoldable pub validate : Store x → SignedTransaction x → Result (ValidationError x) Unit
  unfolding validate_kind
  validate s t =
      require (type_eq (tx_id t).transaction_type (transaction_type t)) mismatched_transaction_type
      >> validate_kind s t

  -- `SignedTransaction::verify_signature`
  unfoldable pub verify_any : SignedTransaction x → Result (ValidationError x) Unit
  unfolding verify_signature
  verify_any (SignedTransaction.election t) = verify_signature election_trait t
  verify_any (SignedTransaction.key_gen_commitment t) = verify_signature key_gen_commitment_trait t
  verify_any (SignedTransaction.key_gen_share t) = verify_signature key_gen_share_trait t
  verify_any (SignedTransaction.key_gen_public_key t) = verify_signature key_gen_public_key_trait t
  verify_any (SignedTransaction.encryption_key t) = verify_signature encryption_key_trait t
  verify_any (SignedTransaction.vote t) = verify_signature vote_trait t
  verify_any (SignedTransaction.voting_end t) = verify_signature voting_end_trait t
  verify_any (SignedTransaction.mix t) = verify_signature mix_trait t
  verify_any (SignedTransaction.partial_decryption t) = verify_signature partial_decryption_trait t
  verify_any (SignedTransaction.decryption t) = verify_signature decryption_trait t

module _ {x : External} where
  -- `Transaction::validate_tx`
  unfoldable pub validate_tx : Store x → Transaction x → Result (ValidationError x) Unit
  validate_tx s (Transaction.election t) = election_trait.validate_tx s t
  validate_tx s (Transaction.key_gen_commitment t) = key_gen_commitment_trait.validate_tx s t
  validate_tx s (Transaction.key_gen_share t) = key_gen_share_trait.validate_tx s t
  validate_tx s (Transaction.key_gen_public_key t) = key_gen_public_key_trait.validate_tx s t
  validate_tx s (Transaction.encryption_key t) = encryption_key_trait.validate_tx s t
  validate_tx s (Transaction.vote t) = vote_trait.validate_tx s t
  validate_tx s (Transaction.voting_end t) = voting_end_trait.validate_tx s t
  validate_tx s (Transaction.mix t) = mix_trait.validate_tx s t
  validate_tx s (Transaction.partial_decryption t) = partial_decryption_trait.validate_tx s t
  validate_tx s (Transaction.decryption t) = decryption_trait.validate_tx s t

  -- `Transaction::id`
  unfoldable pub id_of : Transaction x → Identifier
  id_of (Transaction.election t) = t.id
  id_of (Transaction.key_gen_commitment t) = t.id
  id_of (Transaction.key_gen_share t) = t.id
  id_of (Transaction.key_gen_public_key t) = t.id
  id_of (Transaction.encryption_key t) = t.id
  id_of (Transaction.vote t) = t.id
  id_of (Transaction.voting_end t) = t.id
  id_of (Transaction.mix t) = t.id
  id_of (Transaction.partial_decryption t) = t.id
  id_of (Transaction.decryption t) = t.id

  -- the transaction inside a signed one
  unfoldable pub unsigned : SignedTransaction x → Transaction x
  unsigned (SignedTransaction.election s) = Transaction.election s.tx
  unsigned (SignedTransaction.key_gen_commitment s) = Transaction.key_gen_commitment s.tx
  unsigned (SignedTransaction.key_gen_share s) = Transaction.key_gen_share s.tx
  unsigned (SignedTransaction.key_gen_public_key s) = Transaction.key_gen_public_key s.tx
  unsigned (SignedTransaction.encryption_key s) = Transaction.encryption_key s.tx
  unsigned (SignedTransaction.vote s) = Transaction.vote s.tx
  unsigned (SignedTransaction.voting_end s) = Transaction.voting_end s.tx
  unsigned (SignedTransaction.mix s) = Transaction.mix s.tx
  unsigned (SignedTransaction.partial_decryption s) = Transaction.partial_decryption s.tx
  unsigned (SignedTransaction.decryption s) = Transaction.decryption s.tx
