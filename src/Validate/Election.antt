-- ===== src/Validate/Election.antt =====
-- `validate_tx` of cryptoballot/src/election.rs and of voting_end.rs.
pub mod Laws
use cryptoballot.Prelude.{
  ℕ, ◌%◌, Bool, true, false, Result, ok, err, ◌>>=◌, ◌>>◌, require, leb, length,
}
use cryptoballot.External.{External}
use cryptoballot.Errors.{
  ValidationError, identifier_bad_composition, invalid_trustee_threshold, invalid_auth_threshold,
  authority_public_key_mismatch,
}
use cryptoballot.Identifier.{id_eq}
use cryptoballot.Election.{ElectionTransaction, build_id}
use cryptoballot.Transaction.{VotingEndTransaction}
use cryptoballot.Store.{Store, get_election}
use cryptoballot.Validate.{found}

module _ {x : External} where
  open x use {key_eq}

  -- the number of authenticators is cut to a byte before it is compared
  unfoldable pub validate_election : ElectionTransaction x → Result (ValidationError x) Unit
  validate_election e = do
    require (id_eq (build_id e.id.election_id) e.id) identifier_bad_composition
    require (leb e.trustees_threshold (length e.trustees)) invalid_trustee_threshold
    require (leb e.authenticators_threshold (length e.authenticators % 256)) invalid_auth_threshold

  unfoldable pub validate_voting_end :
      Store x → VotingEndTransaction x → Result (ValidationError x) Unit
  validate_voting_end s t = do
    election ← found (get_election s t.election)
    require (key_eq t.authority_public_key election.tx.authority_public)
        authority_public_key_mismatch
