-- ===== src/Tests/Runs.antt =====
-- The runs of the sample election that the theorems are applied to.
use cryptoballot.Prelude.{◌≡◌, refl, none, some, ok, [], ◌∷◌}
use cryptoballot.Identifier.{TransactionType, new, Identifier}
use cryptoballot.Store.Mem.{as_store}
use cryptoballot.Validate.Keygen.{
  validate_key_gen_commitment, validate_key_gen_share, validate_key_gen_public_key,
  validate_encryption_key,
}
use cryptoballot.Validate.Vote.{validate_vote, check_collision}
use cryptoballot.Validate.Mix.{validate_mix}
use cryptoballot.Validate.Upstream.{encrypted_vote_from_upstream_tx}
use cryptoballot.Validate.Decryption.{validate_partial_decryption, validate_decryption}
use cryptoballot.Transaction.{SignedTransaction}
use cryptoballot.Transaction.Ids.{vote_id, mix_id}
use cryptoballot.Tests.Toy.{toy}
use cryptoballot.Tests.Sample.{
  vote, voting_end, encryption_key, share, first_mix, second_mix, partial, decryption, key_store,
  open_store, voted_store, mixed_store, counted_store, mix_config, election_id, signed,
  first_mix_id,
}

pub share_valid : validate_key_gen_share (as_store key_store) share ≡ ok tt
unfolding validate_key_gen_share cryptoballot.Store.get_election
    cryptoballot.Store.Mem.get_transaction cryptoballot.BTreeMap.get cryptoballot.Store.Mem.set_all
    cryptoballot.BTreeMap.insert cryptoballot.Bytes.lex_cmp cryptoballot.Identifier.Text.to_string
    cryptoballot.Tests.Hex.encode cryptoballot.Identifier.to_array cryptoballot.Transaction.tx_id
    cryptoballot.Transaction.Ids.key_gen_public_key_id cryptoballot.Election.build_id
    cryptoballot.Bytes.bytes_eq cryptoballot.Transaction.Convert.signed_election
    cryptoballot.Election.trustee_exists cryptoballot.Validate.Keygen.check_shares
share_valid = refl

pub encryption_key_valid : validate_encryption_key (as_store key_store) encryption_key ≡ ok tt
unfolding validate_encryption_key cryptoballot.Store.get_election
    cryptoballot.Store.Mem.get_transaction cryptoballot.BTreeMap.get cryptoballot.Store.Mem.set_all
    cryptoballot.BTreeMap.insert cryptoballot.Bytes.lex_cmp cryptoballot.Identifier.Text.to_string
    cryptoballot.Tests.Hex.encode cryptoballot.Identifier.to_array cryptoballot.Transaction.tx_id
    cryptoballot.Transaction.Ids.key_gen_public_key_id cryptoballot.Election.build_id
    cryptoballot.Bytes.bytes_eq cryptoballot.Transaction.Convert.signed_election
    cryptoballot.Store.get_multiple cryptoballot.Identifier.start cryptoballot.Identifier.end
    cryptoballot.Store.Mem.range cryptoballot.BTreeMap.range
    cryptoballot.Transaction.Convert.convert_all
    cryptoballot.Transaction.Convert.signed_key_gen_public_key
    cryptoballot.Validate.Keygen.check_trustees cryptoballot.Validate.Keygen.check_keys
encryption_key_valid = refl

pub vote_valid : validate_vote (as_store (open_store mix_config)) vote ≡ ok tt
unfolding validate_vote cryptoballot.Identifier.id_eq cryptoballot.Bytes.bytes_eq
    cryptoballot.Transaction.Ids.vote_id cryptoballot.Election.build_id
    cryptoballot.Store.get_election cryptoballot.Store.Mem.get_transaction cryptoballot.BTreeMap.get
    cryptoballot.Store.Mem.set_all cryptoballot.BTreeMap.insert cryptoballot.Bytes.lex_cmp
    cryptoballot.Identifier.Text.to_string cryptoballot.Tests.Hex.encode
    cryptoballot.Identifier.to_array cryptoballot.Transaction.tx_id
    cryptoballot.Transaction.Ids.key_gen_public_key_id
    cryptoballot.Transaction.Ids.encryption_key_id cryptoballot.Transaction.Convert.signed_election
    check_collision cryptoballot.Identifier.start cryptoballot.Store.Mem.range
    cryptoballot.BTreeMap.range cryptoballot.Validate.Vote.check_authentications
    cryptoballot.Election.get_authenticator cryptoballot.Validate.Vote.verify
    cryptoballot.Election.get_ballot cryptoballot.Validate.Vote.check_contests
vote_valid = refl

pub voting_ended :
    (as_store (voted_store mix_config)).get_transaction
      (new election_id TransactionType.voting_end none)
    ≡ some (SignedTransaction.voting_end (signed voting_end))
unfolding new cryptoballot.Store.Mem.get_transaction cryptoballot.BTreeMap.get
    cryptoballot.Store.Mem.set_all cryptoballot.BTreeMap.insert cryptoballot.Bytes.lex_cmp
    cryptoballot.Identifier.Text.to_string cryptoballot.Tests.Hex.encode
    cryptoballot.Identifier.to_array cryptoballot.Transaction.tx_id
    cryptoballot.Transaction.Ids.key_gen_public_key_id cryptoballot.Election.build_id
    cryptoballot.Transaction.Ids.encryption_key_id vote_id cryptoballot.Bytes.bytes_eq
voting_ended = refl

pub collision_free : check_collision (as_store (open_store mix_config)) vote ≡ ok tt
unfolding check_collision cryptoballot.Identifier.start cryptoballot.Store.Mem.range
    cryptoballot.BTreeMap.range cryptoballot.Bytes.lex_cmp cryptoballot.Identifier.Text.to_string
    cryptoballot.Tests.Hex.encode cryptoballot.Identifier.to_array cryptoballot.Election.build_id
    cryptoballot.Store.Mem.set_all cryptoballot.BTreeMap.insert cryptoballot.Transaction.tx_id
    cryptoballot.Transaction.Ids.key_gen_public_key_id
    cryptoballot.Transaction.Ids.encryption_key_id
collision_free = refl

pub first_mix_valid : validate_mix (as_store mixed_store) first_mix ≡ ok tt
unfolding validate_mix cryptoballot.Identifier.id_eq cryptoballot.Bytes.bytes_eq
    cryptoballot.Transaction.Ids.mix_id cryptoballot.Election.build_id
    cryptoballot.Store.get_election cryptoballot.Store.Mem.get_transaction cryptoballot.BTreeMap.get
    cryptoballot.Store.Mem.set_all cryptoballot.BTreeMap.insert cryptoballot.Bytes.lex_cmp
    cryptoballot.Identifier.Text.to_string cryptoballot.Tests.Hex.encode
    cryptoballot.Identifier.to_array cryptoballot.Transaction.tx_id
    cryptoballot.Transaction.Ids.key_gen_public_key_id
    cryptoballot.Transaction.Ids.encryption_key_id cryptoballot.Transaction.Ids.vote_id
    cryptoballot.Transaction.Convert.signed_election cryptoballot.Election.trustee_exists
    cryptoballot.Validate.Mix.mix_input cryptoballot.Identifier.start cryptoballot.Identifier.end
    cryptoballot.Store.Mem.range cryptoballot.BTreeMap.range
    cryptoballot.Transaction.Convert.inner_vote
    cryptoballot.Transaction.Convert.inner_encryption_key cryptoballot.Validate.Mix.verify_mix
first_mix_valid = refl

pub first_mix_stored :
    (as_store mixed_store).get_transaction first_mix_id
    ≡ some (SignedTransaction.mix (signed first_mix))
unfolding mix_id cryptoballot.Store.Mem.get_transaction cryptoballot.BTreeMap.get
    cryptoballot.Store.Mem.set_all cryptoballot.BTreeMap.insert cryptoballot.Bytes.lex_cmp
    cryptoballot.Identifier.Text.to_string cryptoballot.Tests.Hex.encode
    cryptoballot.Identifier.to_array cryptoballot.Transaction.tx_id
    cryptoballot.Transaction.Ids.key_gen_public_key_id cryptoballot.Election.build_id
    cryptoballot.Transaction.Ids.encryption_key_id vote_id cryptoballot.Bytes.bytes_eq
first_mix_stored = refl

pub second_mix_valid : validate_mix (as_store mixed_store) second_mix ≡ ok tt
unfolding validate_mix cryptoballot.Identifier.id_eq cryptoballot.Bytes.bytes_eq
    cryptoballot.Transaction.Ids.mix_id cryptoballot.Election.build_id
    cryptoballot.Store.get_election cryptoballot.Store.Mem.get_transaction cryptoballot.BTreeMap.get
    cryptoballot.Store.Mem.set_all cryptoballot.BTreeMap.insert cryptoballot.Bytes.lex_cmp
    cryptoballot.Identifier.Text.to_string cryptoballot.Tests.Hex.encode
    cryptoballot.Identifier.to_array cryptoballot.Transaction.tx_id
    cryptoballot.Transaction.Ids.key_gen_public_key_id
    cryptoballot.Transaction.Ids.encryption_key_id cryptoballot.Transaction.Ids.vote_id
    cryptoballot.Transaction.Convert.signed_election cryptoballot.Election.trustee_exists
    cryptoballot.Validate.Mix.mix_input cryptoballot.Transaction.Convert.inner_mix
    cryptoballot.Transaction.Convert.inner_encryption_key cryptoballot.Validate.Mix.verify_mix
second_mix_valid = refl

pub upstream_found :
    encrypted_vote_from_upstream_tx
      (as_store (voted_store none))
      (vote_id toy election_id 4)
      0
      0
      none
    ≡ ok ((1 ∷ 2 ∷ []) ∷ [])
unfolding encrypted_vote_from_upstream_tx vote_id cryptoballot.Store.get_vote
    cryptoballot.Store.Mem.get_transaction cryptoballot.BTreeMap.get cryptoballot.Store.Mem.set_all
    cryptoballot.BTreeMap.insert cryptoballot.Bytes.lex_cmp cryptoballot.Identifier.Text.to_string
    cryptoballot.Tests.Hex.encode cryptoballot.Identifier.to_array cryptoballot.Transaction.tx_id
    cryptoballot.Transaction.Ids.key_gen_public_key_id cryptoballot.Election.build_id
    cryptoballot.Transaction.Ids.encryption_key_id cryptoballot.Bytes.bytes_eq
    cryptoballot.Transaction.Convert.signed_vote
upstream_found = refl

pub partial_valid : validate_partial_decryption (as_store (voted_store none)) (partial 1) ≡ ok tt
unfolding validate_partial_decryption cryptoballot.Store.get_election
    cryptoballot.Store.Mem.get_transaction cryptoballot.BTreeMap.get cryptoballot.Store.Mem.set_all
    cryptoballot.BTreeMap.insert cryptoballot.Bytes.lex_cmp cryptoballot.Identifier.Text.to_string
    cryptoballot.Tests.Hex.encode cryptoballot.Identifier.to_array cryptoballot.Transaction.tx_id
    cryptoballot.Transaction.Ids.key_gen_public_key_id cryptoballot.Election.build_id
    cryptoballot.Transaction.Ids.encryption_key_id cryptoballot.Transaction.Ids.vote_id
    cryptoballot.Bytes.bytes_eq cryptoballot.Transaction.Convert.signed_election
    cryptoballot.Election.get_full_trustees cryptoballot.Identifier.id_eq
    cryptoballot.Transaction.Ids.partial_decryption_id encrypted_vote_from_upstream_tx
    cryptoballot.Store.get_vote cryptoballot.Transaction.Convert.signed_vote
    cryptoballot.Store.get_keygen_public_key
    cryptoballot.Transaction.Convert.signed_key_gen_public_key
partial_valid = refl

pub decryption_valid : validate_decryption (as_store counted_store) decryption ≡ ok tt
unfolding validate_decryption cryptoballot.Identifier.id_eq cryptoballot.Bytes.bytes_eq
    cryptoballot.Transaction.Ids.decryption_id cryptoballot.Election.build_id
    cryptoballot.Transaction.Ids.vote_id cryptoballot.Store.get_election
    cryptoballot.Store.Mem.get_transaction cryptoballot.BTreeMap.get cryptoballot.Store.Mem.set_all
    cryptoballot.BTreeMap.insert cryptoballot.Bytes.lex_cmp cryptoballot.Identifier.Text.to_string
    cryptoballot.Tests.Hex.encode cryptoballot.Identifier.to_array cryptoballot.Transaction.tx_id
    cryptoballot.Transaction.Ids.key_gen_public_key_id
    cryptoballot.Transaction.Ids.encryption_key_id
    cryptoballot.Transaction.Ids.partial_decryption_id
    cryptoballot.Transaction.Convert.signed_election encrypted_vote_from_upstream_tx
    cryptoballot.Store.get_vote cryptoballot.Transaction.Convert.signed_vote
    cryptoballot.Store.get_multiple cryptoballot.Identifier.start cryptoballot.Identifier.end
    cryptoballot.Store.Mem.range cryptoballot.BTreeMap.range
    cryptoballot.Transaction.Convert.convert_all
    cryptoballot.Transaction.Convert.signed_key_gen_public_key
    cryptoballot.Validate.Decryption.fetch_partials cryptoballot.Election.get_trustee
    cryptoballot.Store.get_partial_decryption
    cryptoballot.Transaction.Convert.signed_partial_decryption
    cryptoballot.Validate.Decrypt.decrypt_vote
decryption_valid = refl
