-- ===== src/Validate/Election/Laws.antt =====
-- What the validation of an election and of the end of voting accepts (election.rs, voting_end.rs).
use cryptoballot.Prelude.{suc, ◌∷◌, ◌<◌, ◌≤◌, ◌%◌, ◌≡◌, ◌↔◌, arith, ok, err, length, >>=-eq-ok}
use cryptoballot.External.{External}
use cryptoballot.Errors.{invalid_auth_threshold}
use cryptoballot.Identifier.Order.{id_eq_iff}
use cryptoballot.Election.{ElectionTransaction, Authenticator, build_id}
use cryptoballot.Transaction.{Signed, VotingEndTransaction}
use cryptoballot.Store.{Store, get_election}
use cryptoballot.Validate.{found, found-eq-ok}
use cryptoballot.Validate.Election.{validate_election, validate_voting_end}

module _ {x : External} where
  open x use {key_eq_iff}

  -- An election with fewer than 256 authenticators is accepted exactly when its identifier is composed
  -- for an election and neither threshold is above the number that it counts.
  pub validate_election_iff :
      (e : ElectionTransaction x)
      → length e.authenticators < 256
      → (validate_election e ≡ ok tt) ↔ (
          (build_id e.id.election_id ≡ e.id)
          × (e.trustees_threshold ≤ length e.trustees)
          × (e.authenticators_threshold ≤ length e.authenticators))
  unfolding validate_election
  validate_election_iff e h = ground (arith, id_eq_iff (build_id e.id.election_id) e.id)

  -- An accepted election with a positive threshold, whose number of authenticators is 255 modulo 256, is
  -- refused for its threshold as soon as one more authenticator is added.
  pub validate_election_cut :
      (e : ElectionTransaction x) (a : Authenticator x)
      → length e.authenticators % 256 ≡ 255
      → 0 < e.authenticators_threshold
      → validate_election e ≡ ok tt
      → validate_election (record e { authenticators = a ∷ e.authenticators })
        ≡ err invalid_auth_threshold
  unfolding validate_election
  validate_election_cut e a full positive h =
      let wraps : suc (length e.authenticators) % 256 ≡ 0 = omega arith in ground (arith, h, wraps)

  -- The end of voting is accepted exactly when the store has the election, and the transaction names
  -- the public key of its authority.
  pub validate_voting_end_iff :
      (s : Store x) (t : VotingEndTransaction x)
      → (validate_voting_end s t ≡ ok tt) ↔ (
          (e : Signed x (ElectionTransaction x)) × (get_election s t.election ≡ ok e)
          × (t.authority_public_key ≡ e.tx.authority_public))
  unfolding validate_voting_end
  validate_voting_end_iff s t = (
    (λ h.
        let (e, there, k) = >>=-eq-ok (found (get_election s t.election)) _ h in
        (
          e,
          found-eq-ok _ there,
          ground (arith, key_eq_iff t.authority_public_key e.tx.authority_public),
        )),
    λ (e, there, same). ground (arith, key_eq_iff t.authority_public_key e.tx.authority_public),
  )
