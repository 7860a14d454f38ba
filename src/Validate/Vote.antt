-- ===== src/Validate/Vote.antt =====
-- `validate_tx` of cryptoballot/src/vote.rs, and `Authenticator::verify` of authn.rs.
pub mod Laws
pub mod Unauthenticated
pub mod Collision
use cryptoballot.Prelude.{
  ℕ, Bool, true, false, not, ◌&&◌, List, [], ◌∷◌, Option, none, some, String, str_eq, Result, ok,
  err, ◌>>=◌, ◌>>◌, require, unwind, ok_or, map_err, length, ◌==◌, ltb, any, take, if◌then◌else◌,
}
use cryptoballot.External.{External}
use cryptoballot.Errors.{
  ValidationError, identifier_bad_composition, vote_anonymous_key_collision,
  encryption_key_transaction_does_not_exist, voting_has_ended, auth_does_not_exist, auth_failed,
  ballot_does_not_exist, voted_in_wrong_contest, auth_signature_verification_failed,
}
use cryptoballot.Identifier.{Identifier, TransactionType, id_eq, new, start}
use cryptoballot.Election.{
  Authenticator, Authentication, Ballot, ElectionTransaction, get_authenticator, get_ballot,
}
use cryptoballot.Transaction.{EncryptedVote, VoteTransaction}
use cryptoballot.Transaction.Ids.{vote_id}
use cryptoballot.Store.{Store, get_election}
use cryptoballot.Validate.{found, is_some}

-- `IndexMap::get`
unfoldable pub get_public_key : {K : Type 0} → List (String × K) → String → Option K
get_public_key [] ballot_id = none
get_public_key ((k, key) ∷ m) ballot_id =
    if str_eq k ballot_id then some key else get_public_key m ballot_id

module _ {x : External} where
  open x use {PublicKey, key_bytes, hash_message, pack, blind_verify}

  -- `Authenticator::verify`, with `AuthPackage::digest`, which panics if the hash fails
  unfoldable pub verify :
      Authenticator x → Identifier → String → PublicKey → List ℕ → Result (ValidationError x) Unit
  unfolding get_public_key
  verify a election_id ballot_id anonymous_key signature = do
    public_key ← ok_or (get_public_key a.public_keys ballot_id) ballot_does_not_exist
    digest ← unwind (hash_message public_key (pack election_id ballot_id anonymous_key))
    require (blind_verify public_key digest signature) auth_signature_verification_failed

  unfoldable pub check_authentications :
      ElectionTransaction x
      → VoteTransaction x
      → List (Authentication x)
      → Result (ValidationError x) Unit
  check_authentications e v [] = ok tt
  check_authentications e v (authn ∷ rest) = do
    authenticator ← ok_or (get_authenticator e authn.authenticator) auth_does_not_exist
    map_err (λ _. auth_failed)
        (verify authenticator e.id v.ballot_id v.anonymous_key authn.signature)
    check_authentications e v rest

  unfoldable pub check_contests :
      Ballot x → List (EncryptedVote x) → Result (ValidationError x) Unit
  check_contests ballot [] = ok tt
  check_contests ballot (encrypted_vote ∷ rest) = do
    require (any (λ c. c == encrypted_vote.contest_index) ballot.contests) voted_in_wrong_contest
    check_contests ballot rest

  -- the test for a collision of the first ten bytes; both ends of its range are made by `start`
  unfoldable pub check_collision : Store x → VoteTransaction x → Result (ValidationError x) Unit
  check_collision s v = do
    let mask = take 10 (key_bytes v.anonymous_key)
    start_collision ← unwind (start v.election TransactionType.vote (some mask))
    end_collision ← unwind (start v.election TransactionType.vote (some mask))
    collisions ← unwind (s.range start_collision end_collision)
    require (not (ltb 0 (length collisions))) vote_anonymous_key_collision

  unfoldable pub validate_vote : Store x → VoteTransaction x → Result (ValidationError x) Unit
  validate_vote s v = do
    require (id_eq (vote_id x v.election v.anonymous_key) v.id) identifier_bad_composition
    election ← found (get_election s v.election)
    check_collision s v
    require (is_some (s.get_transaction (new v.election TransactionType.encryption_key none)))
        encryption_key_transaction_does_not_exist
    require (not (is_some (s.get_transaction (new v.election TransactionType.voting_end none))))
        voting_has_ended
    check_authentications election.tx v v.authentication
    ballot ← ok_or (get_ballot election.tx v.ballot_id) ballot_does_not_exist
    check_contests ballot v.encrypted_votes
