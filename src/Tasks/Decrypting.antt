-- ===== src/Tasks/Decrypting.antt =====
-- The task of the decryption: `process_partial_decryption` of cryptoballot_server/src/tasks.rs.
pub mod Laws
pub mod Inputs
pub mod Accepted
use cryptoballot.Prelude.{
  ℕ, List, [], ◌∷◌, ◌++◌, Option, none, some, Result, ok, err, ◌>>=◌, unwind, ok_or, map_err, ◌==◌,
  leb, if◌then◌else◌, length, take, find, map,
}
use cryptoballot.External.{External}
use cryptoballot.Errors.{Error, cannot_find_contest, unexpected_transaction_type}
use cryptoballot.Identifier.{Identifier, TransactionType}
use cryptoballot.Election.{ElectionTransaction, get_full_trustees}
use cryptoballot.Transaction.{
  Cbor, Signed, SignedTransaction, EncryptedVote, PartialDecryptionTransaction,
}
use cryptoballot.Transaction.Convert.{
  convert_all, inner_partial_decryption, inner_key_gen_public_key,
}
use cryptoballot.Transaction.Ids.{new_decryption}
use cryptoballot.Store.{Store, get_election, get_vote, get_mix}
use cryptoballot.Validate.Decrypt.{decrypt_vote}
use cryptoballot.Validate.Upstream.{swap_remove}
use cryptoballot.Validate.Traits.{decryption_trait}
use cryptoballot.Validate.Signed.{sign_tx}
use cryptoballot.Tasks.{trustee_from_election, if_trustee, looked_up, read_all}

-- `unique_info[15] = byte`, on the sixteen bytes
abbrev pub with_last : List ℕ → ℕ → List ℕ
with_last unique_info byte = take 15 unique_info ++ (byte ∷ [])

-- the ends of the range of the partial decryptions that differ from this one in the trustee only
unfoldable pub partials_bound : Identifier → Identifier → ℕ → Identifier
partials_bound election_id partial_id byte = record election_id {
  transaction_type = TransactionType.partial_decryption;
  unique_info = with_last partial_id.unique_info byte;
}

module _ {x : External} where
  open x use {Ciphertext}

  -- the selections of a vote for the contest, up to the `break`
  unfoldable pub selections_for : ℕ → List (EncryptedVote x) → Result (Error x) (List Ciphertext)
  selections_for contest_index votes =
      ok_or (find (λ v. v.contest_index == contest_index) votes) (cannot_find_contest contest_index)
      >>= λ v. ok v.selections

  -- the match on `upstream_id.transaction_type`
  unfoldable pub upstream_of :
      TransactionType
      → Store x
      → PartialDecryptionTransaction x
      → Result (Error x) (List Ciphertext)
  unfolding selections_for
  upstream_of TransactionType.vote s p = looked_up (get_vote s p.upstream_id) >>= λ vote.
      selections_for p.contest_index vote.tx.encrypted_votes
  upstream_of TransactionType.mix s p = looked_up (get_mix s p.upstream_id) >>= λ mix.
      unwind (swap_remove mix.tx.mixed_ciphertexts p.upstream_index)
  upstream_of _ s p = err unexpected_transaction_type

module _ {x : External} (b : Cbor x) where
  open x use {SecretKey, public_of}

  -- the decryption that is made once there are enough partial decryptions
  unfoldable pub make_decryption :
      SecretKey
      → Store x
      → ElectionTransaction x
      → PartialDecryptionTransaction x
      → List (SignedTransaction x)
      → Result (Error x) (List (SignedTransaction x))
  unfolding upstream_of
  make_decryption secret s election p txs = do
    partial_txs ← unwind (convert_all inner_partial_decryption txs)
    ciphertexts ← upstream_of p.upstream_id.transaction_type s p
    pubkeys ←
        unwind (read_all s inner_key_gen_public_key election.id TransactionType.key_gen_public_key)
    decrypted ← map_err Error.validation_error (
        decrypt_vote ciphertexts election.trustees_threshold (get_full_trustees election) pubkeys
          partial_txs)
    signed ← sign_tx b decryption_trait secret (
        new_decryption election.id p.upstream_id p.contest_index p.upstream_index
          (map (λ t. t.trustee_index) partial_txs) decrypted)
    ok (SignedTransaction.decryption signed ∷ [])

  unfoldable pub process_partial_decryption :
      SecretKey
      → Store x
      → PartialDecryptionTransaction x
      → Result (Error x) (List (SignedTransaction x))
  unfolding make_decryption partials_bound
  process_partial_decryption secret s p = do
    election ← looked_up (get_election s p.election_id)
    if_trustee (trustee_from_election election.tx (public_of secret)) λ trustee.
        unwind
          (s.range (partials_bound election.tx.id p.id 0) (partials_bound election.tx.id p.id 255))
        >>= λ txs.
            if leb election.tx.trustees_threshold (length txs)
            then make_decryption secret s election.tx p txs
            else ok []
