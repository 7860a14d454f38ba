-- ===== src/Validate/Vote/Laws.antt =====
-- What the validation of a vote accepts (vote.rs).
use mathlib.Core.Path.{subst}
use cryptoballot.Prelude.{
  find-In, ==_iff, ◌==◌, eq_iff, map_err-eq-ok, sym, ok_or-eq-ok, map_err, ok_or, >>-eq-ok,
  >>=-eq-ok, require-eq-ok, ℕ, ◌≡◌, ◌≢◌, List, [], ◌∷◌, arith, ok, In, All, some, none,
}
use cryptoballot.External.{External}
use cryptoballot.Identifier.{TransactionType, new}
use cryptoballot.Identifier.Order.{id_eq_iff}
use cryptoballot.Election.{
  Authenticator, Authentication, Ballot, ElectionTransaction, get_authenticator, get_ballot,
}
use cryptoballot.Transaction.{Signed, SignedTransaction, EncryptedVote, VoteTransaction}
use cryptoballot.Transaction.Ids.{vote_id}
use cryptoballot.Store.{Store, get_election}
use cryptoballot.Validate.{is_some-eq-true, found-bind}
use cryptoballot.Validate.Keygen.Laws.{any-In}
use cryptoballot.Validate.Vote.{
  verify, check_authentications, check_contests, check_collision, validate_vote,
}

module _ {x : External} where
  open x use {uuid_eq_iff}

  -- One of the election's authenticators has signed the vote's anonymous key for its ballot.
  abbrev pub IsAuthenticated : ElectionTransaction x → VoteTransaction x → Authentication x → Type 0
  IsAuthenticated e v a =
      (au : Authenticator x) × In au e.authenticators
      × (a.authenticator ≡ au.id)
      × (verify au e.id v.ballot_id v.anonymous_key a.signature ≡ ok tt)

  check_authentications-All :
      (e : ElectionTransaction x) (v : VoteTransaction x) (auths : List (Authentication x))
      → check_authentications e v auths ≡ ok tt
      → All (IsAuthenticated e v) auths
  unfolding check_authentications get_authenticator
  check_authentications-All e v [] h = tt
  check_authentications-All e v (a ∷ auths) h =
      let (au, there, k) = >>=-eq-ok (ok_or (get_authenticator e a.authenticator) _) _ h in
      let (verified, k2) =
        >>-eq-ok (map_err _ (verify au e.id v.ballot_id v.anonymous_key a.signature)) _ k in
      let (i, same) = find-In _ e.authenticators (ok_or-eq-ok _ _ there) in
      (
        (au, i, (uuid_eq_iff _ _).0 same, map_err-eq-ok _ _ verified),
        check_authentications-All e v auths k2,
      )

  check_contests-All :
      (ballot : Ballot x) (vs : List (EncryptedVote x))
      → check_contests ballot vs ≡ ok tt
      → All (λ v. In v.contest_index ballot.contests) vs
  unfolding check_contests
  check_contests-All ballot [] h = tt
  check_contests-All ballot (v ∷ vs) h =
      let (p, k) = require-eq-ok _ _ _ h in
      let (c, i, e) = any-In (λ (c : ℕ). c == v.contest_index) ballot.contests p in
      (subst (λ n. In n ballot.contests) ((==_iff _ _).0 e) i, check_contests-All ballot vs k)

  abbrev pub IsAcceptedVote : Store x → VoteTransaction x → Type 0
  IsAcceptedVote s v =
      (e : Signed x (ElectionTransaction x)) × (ballot : Ballot x) × (v.id
        ≡ vote_id x v.election v.anonymous_key)
      × (get_election s v.election ≡ ok e)
      × ((k : SignedTransaction x) × (s.get_transaction
              (new v.election TransactionType.encryption_key none)
            ≡ some k))
      × (s.get_transaction (new v.election TransactionType.voting_end none) ≡ none)
      × All (IsAuthenticated e.tx v) v.authentication
      × In ballot e.tx.ballots
      × (ballot.id ≡ v.ballot_id)
      × All (λ c. In c.contest_index ballot.contests) v.encrypted_votes

  -- An accepted vote: its identifier is composed from its election and its anonymous key; the store has
  -- the election, its encryption key and no end of voting; each of its authentications is one of the
  -- election's authenticators' for the ballot; the ballot is the election's; and every contest voted in
  -- is on the ballot.
  pub validate_vote_sound :
      (s : Store x) (v : VoteTransaction x) → validate_vote s v ≡ ok tt → IsAcceptedVote s v
  unfolding validate_vote get_ballot
  validate_vote_sound s v h =
      let (composed, k1) = require-eq-ok _ _ _ h in
      let (e, there, k2) = found-bind (get_election s v.election) _ k1 in
      let (_, k3) = >>-eq-ok (check_collision s v) _ k2 in
      let (key, k4) = require-eq-ok _ _ _ k3 in
      let (open_, k5) = require-eq-ok _ _ _ k4 in
      let (authn, k6) = >>-eq-ok (check_authentications e.tx v v.authentication) _ k5 in
      let (ballot, found_ballot, k7) = >>=-eq-ok (ok_or (get_ballot e.tx v.ballot_id) _) _ k6 in
      let (i, same) = find-In _ e.tx.ballots (ok_or-eq-ok _ _ found_ballot) in
      (
        e,
        ballot,
        sym ((id_eq_iff _ _).0 composed),
        there,
        is_some-eq-true _ key,
        ground arith,
        check_authentications-All e.tx v v.authentication authn,
        i,
        (eq_iff _ _).0 same,
        check_contests-All ballot v.encrypted_votes k7,
      )

  -- Once the store has the end of voting of its election, no vote is accepted.
  pub validate_vote_ended :
      (s : Store x) (v : VoteTransaction x) (t : SignedTransaction x)
      → s.get_transaction (new v.election TransactionType.voting_end none) ≡ some t
      → validate_vote s v ≢ ok tt
  validate_vote_ended s v t h k =
      let (_, _, _, _, _, closed, _, _, _, _) = validate_vote_sound s v k in cc (h, closed)
