-- ===== src/Validate/Decryption.antt =====
-- `validate_tx` of the two transactions of cryptoballot/src/decryption.rs.
pub mod Laws
pub mod Partial
use cryptoballot.Prelude.{
  ℕ, zero, suc, ◌+◌, ◌-◌, ◌%◌, Bool, true, false, not, ◌&&◌, List, [], ◌∷◌, Option, none, some,
  String, str_eq, map, Result, ok, err, panic, ◌>>=◌, ◌>>◌, require, unwind, ok_or, map_err,
  and_then, length, ◌==◌, ltb, leb, find, get_elem?, if◌then◌else◌,
}
use cryptoballot.External.{External, Selection}
use cryptoballot.Errors.{
  ValidationError, identifier_bad_composition, trustee_does_not_exist,
  missing_voting_end_transaction, trustee_public_key_mismatch, partial_decryption_proof_failed,
  not_enough_shares, vote_decryption_mismatch, vote_decryption_failed, vote_decoding_error,
  invalid_upstream_id, invalid_upstream_index, invalid_upstream_contest_index,
}
use cryptoballot.Identifier.{Identifier, TransactionType, id_eq, new}
use cryptoballot.Election.{MixConfig, Trustee, ElectionTransaction, get_full_trustees, get_trustee}
use cryptoballot.Transaction.{
  Signed, EncryptedVote, KeyGenPublicKeyTransaction, PartialDecryptionTransaction,
  DecryptionTransaction,
}
use cryptoballot.Transaction.Convert.{convert_all, signed_key_gen_public_key}
use cryptoballot.Transaction.Ids.{key_gen_public_key_id, partial_decryption_id, decryption_id}
use cryptoballot.Store.{
  Store, get_election, get_multiple, get_keygen_public_key, get_vote, get_mix,
  get_partial_decryption,
}
use cryptoballot.Validate.{found, is_some}
use cryptoballot.Validate.Upstream.{encrypted_vote_from_upstream_tx}
use cryptoballot.Validate.Decrypt.{decrypt_vote}

-- the derived `PartialEq` of `Selection`
unfoldable pub selection_eq : Selection → Selection → Bool
selection_eq a b =
    (if a.write_in then b.write_in else not b.write_in)
    && (a.score == b.score && str_eq a.selection b.selection)

unfoldable pub selections_eq : List Selection → List Selection → Bool
unfolding selection_eq
selections_eq [] [] = true
selections_eq [] (b ∷ bs) = false
selections_eq (a ∷ xs) [] = false
selections_eq (a ∷ xs) (b ∷ bs) = selection_eq a b && selections_eq xs bs

module _ {x : External} where
  open x use {Ciphertext, DecryptShare, PubkeyProof, share_verify}

  -- the loop over the proofs; the index is in range where the lengths agree
  unfoldable pub check_proofs :
      PubkeyProof → List Ciphertext → ℕ → List DecryptShare → Result (ValidationError x) Unit
  check_proofs proof encrypted_vote i [] = ok tt
  check_proofs proof encrypted_vote i (partial ∷ rest) = do
    ciphertext ← unwind (get_elem? encrypted_vote i)
    require (share_verify partial proof ciphertext) partial_decryption_proof_failed
    check_proofs proof encrypted_vote (suc i) rest

  unfoldable pub validate_partial_decryption :
      Store x → PartialDecryptionTransaction x → Result (ValidationError x) Unit
  unfolding check_proofs
  validate_partial_decryption s t = do
    election ← found (get_election s t.election_id)
    trustee ←
        ok_or
          (find (λ e. e.index == t.trustee_index && x.key_eq e.public_key t.trustee_public_key)
            (get_full_trustees election.tx))
          (trustee_does_not_exist t.trustee_index)
    require
        (id_eq
          (partial_decryption_id t.election_id t.upstream_id t.contest_index t.upstream_index
            trustee.index)
          t.id)
        identifier_bad_composition
    require (is_some (s.get_transaction (new t.election_id TransactionType.voting_end none)))
        missing_voting_end_transaction
    encrypted_vote ←
        encrypted_vote_from_upstream_tx s t.upstream_id t.upstream_index t.contest_index
          election.tx.mix_config
    public_key ←
        found (get_keygen_public_key s (key_gen_public_key_id t.election_id t.trustee_index))
    require
        (t.trustee_index == public_key.tx.trustee_index
          && x.key_eq t.trustee_public_key public_key.tx.trustee_public_key)
        (trustee_public_key_mismatch t.trustee_index)
    require (length encrypted_vote == length t.partial_decryption) partial_decryption_proof_failed
    check_proofs public_key.tx.public_key_proof encrypted_vote 0 t.partial_decryption

  -- the loop that fetches the partial decryptions of the listed trustees
  unfoldable pub fetch_partials :
      Store x
      → ElectionTransaction x
      → DecryptionTransaction x
      → List ℕ
      → Result (ValidationError x) (List (PartialDecryptionTransaction x))
  fetch_partials s e t [] = ok []
  fetch_partials s e t (trustee_index ∷ rest) = do
    trustee ← ok_or (get_trustee e trustee_index) (trustee_does_not_exist trustee_index)
    partial ← found (
        get_partial_decryption s (
          partial_decryption_id t.election_id t.upstream_id t.contest_index t.upstream_index
            trustee.index))
    partials ← fetch_partials s e t rest
    ok (partial.tx ∷ partials)

  unfoldable pub validate_decryption :
      Store x → DecryptionTransaction x → Result (ValidationError x) Unit
  unfolding selections_eq
  validate_decryption s t = do
    require
        (id_eq (decryption_id t.election_id t.upstream_id t.contest_index t.upstream_index) t.id)
        identifier_bad_composition
    election ← found (get_election s t.election_id)
    encrypted_vote ←
        encrypted_vote_from_upstream_tx s t.upstream_id t.upstream_index t.contest_index
          election.tx.mix_config
    txs ← unwind (get_multiple s t.election_id TransactionType.key_gen_public_key)
    pubkeys ← unwind (convert_all signed_key_gen_public_key txs)
    partials ← fetch_partials s election.tx t t.trustees
    require (leb election.tx.trustees_threshold (length partials))
        (not_enough_shares election.tx.trustees_threshold (length partials))
    decrypted_vote ←
        decrypt_vote encrypted_vote election.tx.trustees_threshold election.tx.trustees
          (map (λ p. p.tx) pubkeys) partials
    require (selections_eq decrypted_vote t.decrypted_vote) vote_decryption_mismatch
