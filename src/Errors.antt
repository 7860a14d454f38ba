-- ===== src/Errors.antt =====
-- cryptoballot/src/error.rs and `TransactionNotFound` of store.rs: what the operations return when
-- they fail. A library error that the code only passes on or prints is a variant without a payload.
use cryptoballot.Prelude.{ℕ}
use cryptoballot.External.{External}
use cryptoballot.Identifier.{Identifier, TransactionType}

pub record TransactionNotFound : Type 0 where
  pub id : Identifier
  pub tx_type : TransactionType

module _ (x : External) where
  open x use {CryptoError, DecodeError}

  pub data ValidationError : Type 0 where
    identifier_bad_composition : ValidationError
    authority_public_key_mismatch : ValidationError
    trustee_public_key_mismatch : ℕ → ValidationError
    mismatched_encryption_key : ℕ → ValidationError
    invalid_trustee_threshold : ValidationError
    invalid_auth_threshold : ValidationError
    invalid_public_key : ValidationError
    election_mismatch : ValidationError
    ballot_does_not_exist : ValidationError
    auth_does_not_exist : ValidationError
    trustee_does_not_exist : ℕ → ValidationError
    missing_key_gen_public_key_transaction : ℕ → ValidationError
    wrong_number_of_public_key_transactions : ValidationError
    trustee_share_missing : ℕ → ValidationError
    trustee_missing : ℕ → ValidationError
    wrong_number_of_shares : ValidationError
    auth_failed : ValidationError
    encryption_key_transaction_does_not_exist : ValidationError
    secret_recovery_failed : ValidationError
    vote_decryption_failed : CryptoError → ValidationError
    vote_decryption_mismatch : ValidationError
    auth_signature_verification_failed : ValidationError
    not_enough_shares : ℕ → ℕ → ValidationError
    transaction_not_found : TransactionNotFound → ValidationError
    missing_voting_end_transaction : ValidationError
    signature_error : ValidationError
    share_decryption_error : ValidationError
    partial_decryption_proof_failed : ValidationError
    mismatched_transaction_type : ValidationError
    voting_has_ended : ValidationError
    shuffle_verification_failed : ValidationError
    no_mixnet_config : ValidationError
    out_of_order_mix : ValidationError
    missing_prev_mix_transaction : ValidationError
    invalid_prev_mix_transaction : ValidationError
    mix_vote_ids_not_sorted : ValidationError
    mix_wrong_number_of_votes : ValidationError
    mix_votes_not_accounted_for : ValidationError
    invalid_upstream_id : ValidationError
    invalid_upstream_index : ValidationError
    invalid_upstream_contest_index : ValidationError
    wrong_mix_selected : ValidationError
    voted_in_wrong_contest : ValidationError
    vote_anonymous_key_collision : ValidationError
    vote_decoding_error : DecodeError → ValidationError

  pub data Error : Type 0 where
    signature_error : Error
    rsa_error : Error
    mismatched_public_keys : Error
    secret_recovery_failed : Error
    identifier_bad_hex : Error
    identifier_bad_len : Error
    cbor_deserialization : Error
    json_deserialization : Error
    deserialization_unknown_format : Error
    share_decryption_error : Error
    decryption_error : Error
    shuffle_error : CryptoError → Error
    invalid_x25519_public_key : Error
    validation_error : ValidationError → Error
    transaction_not_found : TransactionNotFound → Error
    unexpected_transaction_type : Error
    cannot_find_contest : ℕ → Error
    vote_encoding_error : Error
