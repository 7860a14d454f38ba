-- ===== src/Validate/Upstream.antt =====
-- `encrypted_vote_from_upstream_tx` of cryptoballot/src/decryption.rs: the ciphertexts that a
-- decryption is about, from the vote or from the mix that it names.
pub mod Laws
use cryptoballot.Prelude.{
  ℕ, zero, suc, ◌+◌, ◌-◌, ◌%◌, Bool, true, false, not, ◌&&◌, List, [], ◌∷◌, Option, none, some,
  String, str_eq, map, Result, ok, err, panic, ◌>>=◌, ◌>>◌, require, unwind, ok_or, map_err,
  and_then, length, ◌==◌, ltb, leb, find, get_elem?, if◌then◌else◌,
}
use cryptoballot.External.{External, Selection}
use cryptoballot.Errors.{
  ValidationError, identifier_bad_composition, trustee_does_not_exist,
  missing_voting_end_transaction, trustee_public_key_mismatch, partial_decryption_proof_failed,
  not_enough_shares, vote_decryption_mismatch, vote_decryption_failed, vote_decoding_error,
  invalid_upstream_id, invalid_upstream_index, invalid_upstream_contest_index,
}
use cryptoballot.Identifier.{Identifier, TransactionType, id_eq, new}
use cryptoballot.Election.{MixConfig, Trustee, ElectionTransaction, get_full_trustees, get_trustee}
use cryptoballot.Transaction.{
  Signed, EncryptedVote, KeyGenPublicKeyTransaction, PartialDecryptionTransaction,
  DecryptionTransaction,
}
use cryptoballot.Transaction.Convert.{convert_all, signed_key_gen_public_key}
use cryptoballot.Transaction.Ids.{key_gen_public_key_id, partial_decryption_id, decryption_id}
use cryptoballot.Store.{
  Store, get_election, get_multiple, get_keygen_public_key, get_vote, get_mix,
  get_partial_decryption,
}
use cryptoballot.Validate.{found, is_some}

-- `Vec::swap_remove`, as the element that it returns; out of range it panics
unfoldable pub swap_remove : {A : Type 0} → List A → ℕ → Option A
swap_remove xs i = get_elem? xs i

module _ {x : External} where
  open x use {Ciphertext}

  -- the selections of a vote for the contest, the first that is found
  unfoldable pub find_contest :
      ℕ → List (EncryptedVote x) → Result (ValidationError x) (List Ciphertext)
  find_contest contest_index [] = err invalid_upstream_contest_index
  find_contest contest_index (e ∷ rest) =
      if e.contest_index == contest_index then ok e.selections else find_contest contest_index rest

  unfoldable pub vote_ciphertexts :
      Store x → Identifier → ℕ → ℕ → Option MixConfig → Result (ValidationError x) (List Ciphertext)
  unfolding find_contest
  vote_ciphertexts s upstream_id upstream_index contest_index mix_config = do
    require (not (is_some mix_config)) invalid_upstream_id
    require (upstream_index == 0) invalid_upstream_index
    vote ← found (get_vote s upstream_id)
    find_contest contest_index vote.tx.encrypted_votes

  -- the number of ciphertexts is cut to 16 bits before the index is compared with it
  unfoldable pub mix_ciphertexts :
      Store x → Identifier → ℕ → ℕ → Option MixConfig → Result (ValidationError x) (List Ciphertext)
  unfolding swap_remove
  mix_ciphertexts s upstream_id upstream_index contest_index mix_config = do
    mix ← found (get_mix s upstream_id)
    require (mix.tx.contest_index == contest_index) invalid_upstream_contest_index
    require (is_some mix_config) invalid_upstream_id
    require (ltb upstream_index (length mix.tx.mixed_ciphertexts % 65536)) invalid_upstream_index
    unwind (swap_remove mix.tx.mixed_ciphertexts upstream_index)

  -- the match on `upstream_id.transaction_type`
  unfoldable pub upstream_ciphertexts :
      TransactionType
      → Store x
      → Identifier
      → ℕ
      → ℕ
      → Option MixConfig
      → Result (ValidationError x) (List Ciphertext)
  unfolding vote_ciphertexts mix_ciphertexts
  upstream_ciphertexts TransactionType.vote s id index contest config =
      vote_ciphertexts s id index contest config
  upstream_ciphertexts TransactionType.mix s id index contest config =
      mix_ciphertexts s id index contest config
  upstream_ciphertexts _ s id index contest config = err invalid_upstream_id

  unfoldable pub encrypted_vote_from_upstream_tx :
      Store x → Identifier → ℕ → ℕ → Option MixConfig → Result (ValidationError x) (List Ciphertext)
  unfolding upstream_ciphertexts
  encrypted_vote_from_upstream_tx s upstream_id =
      upstream_ciphertexts upstream_id.transaction_type s upstream_id
