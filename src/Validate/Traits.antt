-- ===== src/Validate/Traits.antt =====
-- The trait `CryptoBallotTransaction` of cryptoballot/src/transaction.rs and its ten implementations.
use cryptoballot.Prelude.{Option, none, some, Result}
use cryptoballot.External.{External}
use cryptoballot.Errors.{ValidationError}
use cryptoballot.Identifier.{Identifier, TransactionType}
use cryptoballot.Election.{ElectionTransaction}
use cryptoballot.Transaction.{
  Transaction, KeyGenCommitmentTransaction, KeyGenShareTransaction, KeyGenPublicKeyTransaction,
  EncryptionKeyTransaction, VoteTransaction, VotingEndTransaction, MixTransaction,
  PartialDecryptionTransaction, DecryptionTransaction,
}
use cryptoballot.Store.{Store}
use cryptoballot.Validate.Election.{validate_election, validate_voting_end}
use cryptoballot.Validate.Keygen.{
  validate_key_gen_commitment, validate_key_gen_share, validate_key_gen_public_key,
  validate_encryption_key,
}
use cryptoballot.Validate.Vote.{validate_vote}
use cryptoballot.Validate.Mix.{validate_mix}
use cryptoballot.Validate.Decryption.{validate_partial_decryption, validate_decryption}

module _ (x : External) where
  open x use {PublicKey}

  -- the trait `CryptoBallotTransaction`; `as_bytes` is `tx_bytes` of `Cbor`
  pub record CryptoBallotTransaction (T : Type 0) : Type 0 where
    pub id : T → Identifier
    pub public_key : T → Option PublicKey
    pub election_id : T → Identifier
    pub tx_type : TransactionType
    pub validate_tx : Store x → T → Result (ValidationError x) Unit
    pub as_transaction : T → Transaction x

module _ {x : External} where
  open x use {PublicKey, SecretKey, public_of, sign, verify, key_eq}

  abbrev pub election_trait : CryptoBallotTransaction x (ElectionTransaction x)
  election_trait = record {
    id = λ t. t.id;
    public_key = λ t. some t.authority_public;
    election_id = λ t. t.id;
    tx_type = TransactionType.election;
    validate_tx = λ s t. validate_election t;
    as_transaction = Transaction.election;
  }

  abbrev pub key_gen_commitment_trait : CryptoBallotTransaction x (KeyGenCommitmentTransaction x)
  key_gen_commitment_trait = record {
    id = λ t. t.id;
    public_key = λ t. some t.trustee_public_key;
    election_id = λ t. t.election;
    tx_type = TransactionType.key_gen_commitment;
    validate_tx = validate_key_gen_commitment;
    as_transaction = Transaction.key_gen_commitment;
  }

  abbrev pub key_gen_share_trait : CryptoBallotTransaction x (KeyGenShareTransaction x)
  key_gen_share_trait = record {
    id = λ t. t.id;
    public_key = λ t. some t.trustee_public_key;
    election_id = λ t. t.election;
    tx_type = TransactionType.key_gen_share;
    validate_tx = validate_key_gen_share;
    as_transaction = Transaction.key_gen_share;
  }

  abbrev pub key_gen_public_key_trait : CryptoBallotTransaction x (KeyGenPublicKeyTransaction x)
  key_gen_public_key_trait = record {
    id = λ t. t.id;
    public_key = λ t. some t.trustee_public_key;
    election_id = λ t. t.election;
    tx_type = TransactionType.key_gen_public_key;
    validate_tx = validate_key_gen_public_key;
    as_transaction = Transaction.key_gen_public_key;
  }

  abbrev pub encryption_key_trait : CryptoBallotTransaction x (EncryptionKeyTransaction x)
  encryption_key_trait = record {
    id = λ t. t.id;
    public_key = λ t. some t.authority_public_key;
    election_id = λ t. t.election;
    tx_type = TransactionType.encryption_key;
    validate_tx = validate_encryption_key;
    as_transaction = Transaction.encryption_key;
  }

  abbrev pub vote_trait : CryptoBallotTransaction x (VoteTransaction x)
  vote_trait = record {
    id = λ t. t.id;
    public_key = λ t. some t.anonymous_key;
    election_id = λ t. t.election;
    tx_type = TransactionType.vote;
    validate_tx = validate_vote;
    as_transaction = Transaction.vote;
  }

  abbrev pub voting_end_trait : CryptoBallotTransaction x (VotingEndTransaction x)
  voting_end_trait = record {
    id = λ t. t.id;
    public_key = λ t. some t.authority_public_key;
    election_id = λ t. t.election;
    tx_type = TransactionType.voting_end;
    validate_tx = validate_voting_end;
    as_transaction = Transaction.voting_end;
  }

  abbrev pub mix_trait : CryptoBallotTransaction x (MixTransaction x)
  mix_trait = record {
    id = λ t. t.id;
    public_key = λ t. some t.trustee_public_key;
    election_id = λ t. t.election_id;
    tx_type = TransactionType.mix;
    validate_tx = validate_mix;
    as_transaction = Transaction.mix;
  }

  abbrev pub partial_decryption_trait : CryptoBallotTransaction x (PartialDecryptionTransaction x)
  partial_decryption_trait = record {
    id = λ t. t.id;
    public_key = λ t. some t.trustee_public_key;
    election_id = λ t. t.election_id;
    tx_type = TransactionType.decryption;
    validate_tx = validate_partial_decryption;
    as_transaction = Transaction.partial_decryption;
  }

  abbrev pub decryption_trait : CryptoBallotTransaction x (DecryptionTransaction x)
  decryption_trait = record {
    id = λ t. t.id;
    public_key = λ t. none;
    election_id = λ t. t.election_id;
    tx_type = TransactionType.decryption;
    validate_tx = validate_decryption;
    as_transaction = Transaction.decryption;
  }
