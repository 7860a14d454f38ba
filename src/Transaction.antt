-- ===== src/Transaction.antt =====
-- The ten kinds of transaction (election.rs, keygen.rs, vote.rs, voting_end.rs, mix.rs,
-- decryption.rs), and signed transactions (cryptoballot/src/transaction.rs).
pub mod Ids
pub mod Convert
pub mod Kinds
use cryptoballot.Prelude.{ℕ, ◌≡◌, List, Option, none, some, String}
use cryptoballot.External.{External, Selection}
use cryptoballot.Election.{Authentication, ElectionTransaction}
use cryptoballot.Identifier.{Identifier, TransactionType}

-- `EncryptedShare` of trustee.rs
pub record EncryptedShare : Type 0 where
  pub bytes : List ℕ

module _ (x : External) where
  open x use {
    PublicKey, Signature, Ciphertext, EncryptionKey, X25519PublicKey, KeygenCommitment, PubkeyProof,
    ShuffleProof, DecryptShare,
  }

  pub record KeyGenCommitmentTransaction : Type 0 where
    pub id : Identifier
    pub election : Identifier
    pub trustee_index : ℕ
    pub trustee_public_key : PublicKey
    pub x25519_public_key : X25519PublicKey
    pub commitment : KeygenCommitment

  -- `shares` is an IndexMap from trustee indices
  pub record KeyGenShareTransaction : Type 0 where
    pub id : Identifier
    pub election : Identifier
    pub trustee_index : ℕ
    pub trustee_public_key : PublicKey
    pub shares : List (ℕ × EncryptedShare)

  pub record KeyGenPublicKeyTransaction : Type 0 where
    pub id : Identifier
    pub election : Identifier
    pub trustee_index : ℕ
    pub trustee_public_key : PublicKey
    pub public_key : EncryptionKey
    pub public_key_proof : PubkeyProof

  pub record EncryptionKeyTransaction : Type 0 where
    pub id : Identifier
    pub election : Identifier
    pub authority_public_key : PublicKey
    pub encryption_key : EncryptionKey

  pub record EncryptedVote : Type 0 where
    pub contest_index : ℕ
    pub selections : List Ciphertext

  pub record VoteTransaction : Type 0 where
    pub id : Identifier
    pub election : Identifier
    pub ballot_id : String
    pub encrypted_votes : List EncryptedVote
    pub anonymous_key : PublicKey
    pub authentication : List (Authentication x)

  pub record VotingEndTransaction : Type 0 where
    pub id : Identifier
    pub election : Identifier
    pub authority_public_key : PublicKey

  pub record MixTransaction : Type 0 where
    pub id : Identifier
    pub election_id : Identifier
    pub prev_mix_id : Option Identifier
    pub trustee_index : ℕ
    pub trustee_public_key : PublicKey
    pub mix_index : ℕ
    pub contest_index : ℕ
    pub batch : ℕ
    pub vote_ids : List Identifier
    pub mixed_ciphertexts : List (List Ciphertext)
    pub proof : ShuffleProof

  pub record PartialDecryptionTransaction : Type 0 where
    pub id : Identifier
    pub election_id : Identifier
    pub upstream_id : Identifier
    pub upstream_index : ℕ
    pub contest_index : ℕ
    pub trustee_index : ℕ
    pub trustee_public_key : PublicKey
    pub partial_decryption : List DecryptShare

  pub record DecryptionTransaction : Type 0 where
    pub id : Identifier
    pub election_id : Identifier
    pub upstream_id : Identifier
    pub upstream_index : ℕ
    pub contest_index : ℕ
    pub trustees : List ℕ
    pub decrypted_vote : List Selection

  -- `Signed<T>`
  pub record Signed (T : Type 0) : Type 0 where
    pub tx : T
    pub sig : Signature

  pub data Transaction : Type 0 where
    election : ElectionTransaction x → Transaction
    key_gen_commitment : KeyGenCommitmentTransaction → Transaction
    key_gen_share : KeyGenShareTransaction → Transaction
    key_gen_public_key : KeyGenPublicKeyTransaction → Transaction
    encryption_key : EncryptionKeyTransaction → Transaction
    vote : VoteTransaction → Transaction
    voting_end : VotingEndTransaction → Transaction
    mix : MixTransaction → Transaction
    partial_decryption : PartialDecryptionTransaction → Transaction
    decryption : DecryptionTransaction → Transaction

  pub data SignedTransaction : Type 0 where
    election : Signed (ElectionTransaction x) → SignedTransaction
    key_gen_commitment : Signed KeyGenCommitmentTransaction → SignedTransaction
    key_gen_share : Signed KeyGenShareTransaction → SignedTransaction
    key_gen_public_key : Signed KeyGenPublicKeyTransaction → SignedTransaction
    encryption_key : Signed EncryptionKeyTransaction → SignedTransaction
    vote : Signed VoteTransaction → SignedTransaction
    voting_end : Signed VotingEndTransaction → SignedTransaction
    mix : Signed MixTransaction → SignedTransaction
    partial_decryption : Signed PartialDecryptionTransaction → SignedTransaction
    decryption : Signed DecryptionTransaction → SignedTransaction

  -- serde_cbor: the bytes of the record that a transaction holds, which are what is signed, and the
  -- bytes of a signed transaction, which are what is stored
  pub record Cbor : Type 0 where
    pub tx_bytes : Transaction → List ℕ

module _ {x : External} where
  open x use {PublicKey}

  -- `SignedTransaction::transaction_type`
  unfoldable pub transaction_type : SignedTransaction x → TransactionType
  transaction_type (SignedTransaction.election s) = TransactionType.election
  transaction_type (SignedTransaction.key_gen_commitment s) = TransactionType.key_gen_commitment
  transaction_type (SignedTransaction.key_gen_share s) = TransactionType.key_gen_share
  transaction_type (SignedTransaction.key_gen_public_key s) = TransactionType.key_gen_public_key
  transaction_type (SignedTransaction.encryption_key s) = TransactionType.encryption_key
  transaction_type (SignedTransaction.vote s) = TransactionType.vote
  transaction_type (SignedTransaction.voting_end s) = TransactionType.voting_end
  transaction_type (SignedTransaction.mix s) = TransactionType.mix
  transaction_type (SignedTransaction.partial_decryption s) = TransactionType.partial_decryption
  transaction_type (SignedTransaction.decryption s) = TransactionType.decryption

  -- `SignedTransaction::id`
  unfoldable pub tx_id : SignedTransaction x → Identifier
  tx_id (SignedTransaction.election s) = s.tx.id
  tx_id (SignedTransaction.key_gen_commitment s) = s.tx.id
  tx_id (SignedTransaction.key_gen_share s) = s.tx.id
  tx_id (SignedTransaction.key_gen_public_key s) = s.tx.id
  tx_id (SignedTransaction.encryption_key s) = s.tx.id
  tx_id (SignedTransaction.vote s) = s.tx.id
  tx_id (SignedTransaction.voting_end s) = s.tx.id
  tx_id (SignedTransaction.mix s) = s.tx.id
  tx_id (SignedTransaction.partial_decryption s) = s.tx.id
  tx_id (SignedTransaction.decryption s) = s.tx.id

  -- `SignedTransaction::public`
  unfoldable pub public : SignedTransaction x → Option PublicKey
  public (SignedTransaction.election s) = some s.tx.authority_public
  public (SignedTransaction.key_gen_commitment s) = some s.tx.trustee_public_key
  public (SignedTransaction.key_gen_share s) = some s.tx.trustee_public_key
  public (SignedTransaction.key_gen_public_key s) = some s.tx.trustee_public_key
  public (SignedTransaction.encryption_key s) = some s.tx.authority_public_key
  public (SignedTransaction.vote s) = some s.tx.anonymous_key
  public (SignedTransaction.voting_end s) = some s.tx.authority_public_key
  public (SignedTransaction.mix s) = some s.tx.trustee_public_key
  public (SignedTransaction.partial_decryption s) = some s.tx.trustee_public_key
  public (SignedTransaction.decryption s) = none
