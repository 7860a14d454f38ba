-- ===== src/Transaction/Ids.antt =====
-- How each kind of transaction composes its identifier: the `build_id` functions of keygen.rs,
-- vote.rs, mix.rs and decryption.rs, and the constructors that use them.
pub mod Unique
use cryptoballot.Prelude.{
  ℕ, List, [], ◌∷◌, ◌++◌, Option, none, some, String, take, drop, replicate, if◌then◌else◌,
}
use cryptoballot.Bytes.{u16_to_be_bytes, u32_to_be_bytes}
use cryptoballot.External.{External, Selection}
use cryptoballot.Identifier.{Identifier, TransactionType, as_u8, new, type_eq}
use cryptoballot.Election.{Trustee}
use cryptoballot.Transaction.{
  KeyGenCommitmentTransaction, KeyGenShareTransaction, KeyGenPublicKeyTransaction,
  EncryptionKeyTransaction, EncryptedShare, EncryptedVote, VoteTransaction, VotingEndTransaction,
  MixTransaction, PartialDecryptionTransaction, DecryptionTransaction,
}

unfoldable pub key_gen_commitment_id : Identifier → ℕ → Identifier
unfolding new
key_gen_commitment_id election_id trustee_index =
    new election_id TransactionType.key_gen_commitment (some (trustee_index ∷ replicate 15 0))

unfoldable pub key_gen_share_id : Identifier → ℕ → Identifier
unfolding new
key_gen_share_id election_id trustee_index =
    new election_id TransactionType.key_gen_share (some (trustee_index ∷ replicate 15 0))

unfoldable pub key_gen_public_key_id : Identifier → ℕ → Identifier
unfolding new
key_gen_public_key_id election_id trustee_index =
    new election_id TransactionType.key_gen_public_key (some (trustee_index ∷ replicate 15 0))

unfoldable pub encryption_key_id : Identifier → Identifier
unfolding new
encryption_key_id election_id = new election_id TransactionType.encryption_key none

-- contest index, batch, mix index, trustee index, and six null bytes
unfoldable pub mix_id : Identifier → ℕ → ℕ → ℕ → ℕ → Identifier
unfolding new
mix_id election_id contest_index batch mix_index trustee_index =
    new election_id TransactionType.mix (
      some (
        u32_to_be_bytes contest_index
        ++ (u32_to_be_bytes batch ++ (mix_index ∷ trustee_index ∷ replicate 6 0))))

-- `build_unique_info` of decryption.rs
unfoldable pub build_unique_info : Identifier → ℕ → ℕ → ℕ → List ℕ
build_unique_info upstream_id contest_index upstream_index trustee_index =
    u32_to_be_bytes contest_index
    ++ (as_u8 upstream_id.transaction_type
        ∷ (if type_eq upstream_id.transaction_type TransactionType.mix
            then take 8 (drop 4 upstream_id.unique_info)
              ++ (u16_to_be_bytes upstream_index ++ (trustee_index ∷ []))
            else if type_eq upstream_id.transaction_type TransactionType.vote
            then take 10 upstream_id.unique_info ++ (trustee_index ∷ [])
            else replicate 11 0))

unfoldable pub partial_decryption_id : Identifier → Identifier → ℕ → ℕ → ℕ → Identifier
unfolding new build_unique_info
partial_decryption_id election_id upstream_id contest_index upstream_index trustee_index =
    new election_id TransactionType.partial_decryption
      (some (build_unique_info upstream_id contest_index upstream_index trustee_index))

unfoldable pub decryption_id : Identifier → Identifier → ℕ → ℕ → Identifier
unfolding new build_unique_info
decryption_id election_id upstream_id contest_index upstream_index =
    new election_id TransactionType.decryption
      (some (build_unique_info upstream_id contest_index upstream_index 0))

module _ (x : External) where
  open x use {PublicKey, key_bytes}

  unfoldable pub vote_id : Identifier → PublicKey → Identifier
  unfolding new
  vote_id election_id public_key =
      new election_id TransactionType.vote (some (take 16 (key_bytes public_key)))

module _ {x : External} where
  open x use {
    PublicKey, EncryptionKey, X25519PublicKey, KeygenCommitment, PubkeyProof, ShuffleProof,
    Ciphertext, DecryptShare,
  }

  unfoldable pub new_key_gen_commitment :
      Identifier
      → ℕ
      → PublicKey
      → X25519PublicKey
      → KeygenCommitment
      → KeyGenCommitmentTransaction x
  new_key_gen_commitment election_id trustee_index trustee_public_key x25519_public_key commitment =
      record {
        id = key_gen_commitment_id election_id trustee_index;
        election = election_id;
        trustee_index = trustee_index;
        trustee_public_key = trustee_public_key;
        x25519_public_key = x25519_public_key;
        commitment = commitment;
      }

  unfoldable pub new_key_gen_share :
      Identifier → ℕ → PublicKey → List (ℕ × EncryptedShare) → KeyGenShareTransaction x
  new_key_gen_share election_id trustee_index trustee_public_key shares = record {
    id = key_gen_share_id election_id trustee_index;
    election = election_id;
    trustee_index = trustee_index;
    trustee_public_key = trustee_public_key;
    shares = shares;
  }

  unfoldable pub new_key_gen_public_key :
      Identifier → ℕ → PublicKey → EncryptionKey → PubkeyProof → KeyGenPublicKeyTransaction x
  new_key_gen_public_key election_id trustee_index trustee_public_key public_key public_key_proof =
      record {
        id = key_gen_public_key_id election_id trustee_index;
        election = election_id;
        trustee_index = trustee_index;
        trustee_public_key = trustee_public_key;
        public_key = public_key;
        public_key_proof = public_key_proof;
      }

  unfoldable pub new_encryption_key :
      Identifier → PublicKey → EncryptionKey → EncryptionKeyTransaction x
  new_encryption_key election_id authority_public_key encryption_key = record {
    id = encryption_key_id election_id;
    election = election_id;
    authority_public_key = authority_public_key;
    encryption_key = encryption_key;
  }

  -- `VoteTransaction::new`, with the fresh key pair's public key
  unfoldable pub new_vote :
      Identifier → String → List (EncryptedVote x) → PublicKey → VoteTransaction x
  new_vote election_id ballot_id encrypted_votes public_key = record {
    id = vote_id x election_id public_key;
    election = election_id;
    ballot_id = ballot_id;
    encrypted_votes = encrypted_votes;
    anonymous_key = public_key;
    authentication = [];
  }

  unfoldable pub new_voting_end : Identifier → PublicKey → VotingEndTransaction x
  new_voting_end election authority_public_key = record {
    id = new election TransactionType.voting_end none;
    election = election;
    authority_public_key = authority_public_key;
  }

  unfoldable pub new_mix :
      Identifier
      → Option Identifier
      → Trustee x
      → ℕ
      → ℕ
      → ℕ
      → List Identifier
      → List (List Ciphertext)
      → ShuffleProof
      → MixTransaction x
  new_mix election_id prev_mix_id trustee mix_index contest_index batch vote_ids mixed proof =
      record {
        id = mix_id election_id contest_index batch mix_index trustee.index;
        election_id = election_id;
        prev_mix_id = prev_mix_id;
        trustee_index = trustee.index;
        trustee_public_key = trustee.public_key;
        mix_index = mix_index;
        contest_index = contest_index;
        batch = batch;
        vote_ids = vote_ids;
        mixed_ciphertexts = mixed;
        proof = proof;
      }

  unfoldable pub new_partial_decryption :
      Identifier
      → Identifier
      → ℕ
      → ℕ
      → ℕ
      → PublicKey
      → List DecryptShare
      → PartialDecryptionTransaction x
  new_partial_decryption election_id upstream_id upstream_index trustee_index contest_index key
        shares =
      record {
        id =
            partial_decryption_id election_id upstream_id contest_index upstream_index
              trustee_index;
        election_id = election_id;
        upstream_id = upstream_id;
        upstream_index = upstream_index;
        contest_index = contest_index;
        trustee_index = trustee_index;
        trustee_public_key = key;
        partial_decryption = shares;
      }

  unfoldable pub new_decryption :
      Identifier → Identifier → ℕ → ℕ → List ℕ → List Selection → DecryptionTransaction x
  new_decryption election_id upstream_id contest_index upstream_index trustees decrypted_vote =
      record {
        id = decryption_id election_id upstream_id contest_index upstream_index;
        election_id = election_id;
        upstream_id = upstream_id;
        upstream_index = upstream_index;
        contest_index = contest_index;
        trustees = trustees;
        decrypted_vote = decrypted_vote;
      }
