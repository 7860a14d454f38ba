-- ===== src/Validate/Vote/Unauthenticated.antt =====
-- The number of authentications that a vote needs (vote.rs).
use cryptoballot.Prelude.{none, not, ◌≡◌, refl, ◌∙◌, [], ok, require-eq-ok, >>-eq-ok}
use cryptoballot.External.{External}
use cryptoballot.Identifier.{TransactionType, id_eq, new}
use cryptoballot.Transaction.Ids.{vote_id}
use cryptoballot.Transaction.{VoteTransaction}
use cryptoballot.Store.{Store, get_election}
use cryptoballot.Validate.{is_some, found-bind}
use cryptoballot.Validate.Vote.{
  ElectionTransaction, validate_vote, check_collision, check_authentications,
}

module _ {x : External} where
  abbrev pub unauthenticated : VoteTransaction x → VoteTransaction x
  unauthenticated v = record v { authentication = [] }

  check_collision-unauthenticated :
      (s : Store x) (v : VoteTransaction x)
      → check_collision s (unauthenticated v) ≡ check_collision s v
  unfolding check_collision
  check_collision-unauthenticated s v = refl

  check_authentications-nil :
      (e : ElectionTransaction x) (v : VoteTransaction x)
      → check_authentications e (unauthenticated v) [] ≡ ok tt
  unfolding check_authentications
  check_authentications-nil e v = refl

  -- A vote that is accepted stays accepted when all its authentications are taken out, whatever the
  -- threshold of the election.
  pub validate_vote-unauthenticated :
      (s : Store x) (v : VoteTransaction x)
      → validate_vote s v ≡ ok tt
      → validate_vote s (unauthenticated v) ≡ ok tt
  unfolding validate_vote
  validate_vote-unauthenticated s v h =
      let (composed, k1) =
        require-eq-ok (id_eq (vote_id x v.election v.anonymous_key) v.id) _ _ h in
      let (e, there, k2) = found-bind (get_election s v.election) _ k1 in
      let (tested, k3) = >>-eq-ok (check_collision s v) _ k2 in
      let (key, k4) =
        require-eq-ok
          (is_some (s.get_transaction (new v.election TransactionType.encryption_key none))) _ _
          k3 in
      let (open_, k5) =
        require-eq-ok
          (not (is_some (s.get_transaction (new v.election TransactionType.voting_end none)))) _ _
          k4 in
      let (_, k6) = >>-eq-ok (check_authentications e.tx v v.authentication) _ k5 in
      let free = check_collision-unauthenticated s v ∙ tested in
      let none_left = check_authentications-nil e.tx v in
      rw (composed, there, free, key, open_, none_left) k6
