-- ===== src/Tests/Votes.antt =====
-- The theorems on elections, keys, votes and signatures, at the sample election.
use cryptoballot.Prelude.{
  ◌%◌, ap, length, ◌∷◌, drop, take, arith, ◌≡◌, ◌≢◌, ◌↔◌, refl, ok, err, replicate,
}
use cryptoballot.Errors.{invalid_auth_threshold}
use cryptoballot.Identifier.{IsWellFormed}
use cryptoballot.Election.{ElectionTransaction, Authenticator, build_id}
use cryptoballot.Transaction.{SignedTransaction, transaction_type, tx_id}
use cryptoballot.Store.Mem.{as_store, set}
use cryptoballot.Validate.Election.{validate_election}
use cryptoballot.Validate.Election.Laws.{validate_election_cut}
use cryptoballot.Validate.Keygen.Complete.{IsAcceptedEncryptionKey, validate_encryption_key_sound}
use cryptoballot.Validate.Vote.{validate_vote, check_collision}
use cryptoballot.Validate.Vote.Laws.{IsAcceptedVote, validate_vote_sound}
use cryptoballot.Validate.Vote.Collision.{collision_id, check_collision_missed}
use cryptoballot.Validate.Vote.Unauthenticated.{unauthenticated, validate_vote-unauthenticated}
use cryptoballot.Validate.Signed.{validate, verify_any, validate_tx, unsigned}
use cryptoballot.Validate.Signed.Laws.{validate_iff}
use cryptoballot.Transaction.Ids.{vote_id}
use cryptoballot.Tests.Toy.{toy, toy_cbor, length-replicate}
use cryptoballot.Tests.Sample.{
  authenticator, election_with, mix_config, signed, encryption_key, vote, key_store, open_store,
}
use cryptoballot.Tests.Runs.{encryption_key_valid, vote_valid, collision_free}
use cryptoballot.Tests.Identifiers.{vote_tx_id-IsWellFormed}

-- the sample election with 255 authenticators
abbrev full : ElectionTransaction toy
full = record (election_with mix_config) { authenticators = replicate 255 authenticator }

full_length : length full.authenticators % 256 ≡ 255
full_length = ap (λ n. n % 256) (length-replicate {A = Authenticator toy} 255 authenticator)

full_valid : validate_election full ≡ ok tt
unfolding validate_election build_id cryptoballot.Identifier.id_eq cryptoballot.Bytes.bytes_eq
full_valid = refl

validate_election_cut_example :
    validate_election (record full { authenticators = authenticator ∷ full.authenticators })
    ≡ err invalid_auth_threshold
validate_election_cut_example =
    validate_election_cut full authenticator full_length (omega arith) full_valid

validate_encryption_key_sound_example : IsAcceptedEncryptionKey (as_store key_store) encryption_key
validate_encryption_key_sound_example =
    validate_encryption_key_sound (as_store key_store) encryption_key encryption_key_valid

validate_vote_sound_example : IsAcceptedVote (as_store (open_store mix_config)) vote
validate_vote_sound_example = validate_vote_sound (as_store (open_store mix_config)) vote vote_valid

-- another vote with the key of the sample's: all its ten bytes agree
abbrev other : SignedTransaction toy
other = SignedTransaction.vote (signed vote)

other-IsWellFormed : IsWellFormed (tx_id other)
unfolding tx_id vote_id build_id
other-IsWellFormed = vote_tx_id-IsWellFormed

collision_id-IsWellFormed : IsWellFormed (collision_id vote)
unfolding build_id
collision_id-IsWellFormed = record {
  election_length = refl;
  unique_length = refl;
  election_bytes = omega arith;
  unique_bytes = omega arith;
}

same_start : take 10 (tx_id other).unique_info ≡ replicate 10 4
unfolding tx_id vote_id
same_start = refl

other_end : drop 10 (tx_id other).unique_info ≢ replicate 6 0
unfolding tx_id vote_id
other_end h = cc h

check_collision_missed_example :
    check_collision (as_store (set (open_store mix_config) other)) vote ≡ ok tt
check_collision_missed_example =
    check_collision_missed (open_store mix_config) vote other other-IsWellFormed
      collision_id-IsWellFormed same_start other_end collision_free

validate_iff_example : (validate toy_cbor (as_store (open_store mix_config)) other ≡ ok tt) ↔ (
    ((tx_id other).transaction_type ≡ transaction_type other)
    × ((verify_any toy_cbor other ≡ ok tt)
        × (validate_tx (as_store (open_store mix_config)) (unsigned other) ≡ ok tt)))
validate_iff_example = validate_iff toy_cbor (as_store (open_store mix_config)) other

validate_vote-unauthenticated_example :
    validate_vote (as_store (open_store mix_config)) (unauthenticated vote) ≡ ok tt
validate_vote-unauthenticated_example =
    validate_vote-unauthenticated (as_store (open_store mix_config)) vote vote_valid
