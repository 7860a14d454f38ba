-- ===== src/Sawtooth/Laws.antt =====
-- The transactions that the Sawtooth processor applies (cryptoballot_sawtooth_tp/src/handler.rs).
use mathlib.Core.Path.{subst}
use cryptoballot.Validate.Vote.{validate_vote, check_collision}
use cryptoballot.Validate.Signed.{validate_tx, unsigned}
use cryptoballot.Validate.Signed.Laws.{validate_iff}
use cryptoballot.Identifier.{TransactionType, start}
use cryptoballot.Prelude.{refl, none, unwind, unwind-eq-ok}
use cryptoballot.Store.{get_election}
use cryptoballot.Validate.{found-bind}
use cryptoballot.Identifier.{Identifier}
use cryptoballot.Prelude.{
  ◌≢◌, some-injective, sym, ◌∙◌, take, ℕ, ◌≡◌, Bool, true, List, Option, some, ok, ◌||◌, not,
  require-eq-ok, >>=-eq-ok, >>-eq-ok, ok_or, ok_or-eq-ok, map_err, map_err-eq-ok,
}
use cryptoballot.External.{External}
use cryptoballot.Transaction.{VoteTransaction, Signed, Cbor, SignedTransaction, tx_id}
use cryptoballot.Validate.{is_some}
use cryptoballot.Validate.Signed.{unsigned, validate_tx, validate}
use cryptoballot.Sawtooth.{
  Store, TransactionContext, cb_state, is_election, validate_transaction, apply, set_state,
}

module _ {x : External} (b : Cbor x) (c : TransactionContext) (prefix : List ℕ)
    (to_bytes : SignedTransaction x → List ℕ)
    (from_bytes : List ℕ → Option (SignedTransaction x)) where
  open c use {Context}

  abbrev pub Applied : Bool → List ℕ → Context → Context → Type 0
  Applied has_header payload context context' =
      (t : SignedTransaction x) × (has_header ≡ true)
      × (from_bytes payload ≡ some t)
      × ((is_election t
            || not (
                is_some
                  ((cb_state b c prefix to_bytes from_bytes context).get_transaction (tx_id t))))
          ≡ true)
      × (validate b (cb_state b c prefix to_bytes from_bytes context) t ≡ ok tt)
      × (set_state b c prefix to_bytes from_bytes context t ≡ ok context')

  -- A transaction that is applied came with a header; its payload unpacks to one that is valid in the
  -- state, and setting it gives the new state; and unless it is an election, the lookup at its identifier
  -- finds none, which is also its answer to an entry that cannot be read.
  pub apply_sound :
      (has_header : Bool) (payload : List ℕ) (context context' : Context)
      → apply b c prefix to_bytes from_bytes has_header payload context ≡ ok context'
      → Applied has_header payload context context'
  unfolding apply validate_transaction
  apply_sound has_header payload context context' h =
      let (header, k) = require-eq-ok _ _ _ h in
      let (t, parsed, k2) = >>=-eq-ok (ok_or (from_bytes payload) _) _ k in
      let (valid, k3) =
        >>-eq-ok (map_err _ (validate_transaction b c prefix to_bytes from_bytes t context)) _ k2 in
      let (free, k4) = require-eq-ok _ _ _ (map_err-eq-ok _ _ valid) in
      (t, header, ok_or-eq-ok _ _ parsed, free, map_err-eq-ok _ _ k4, k3)

  check_collision_range :
      (s : Store x) (v : VoteTransaction x)
      → ((lo hi : Identifier) → s.range lo hi ≡ none)
      → check_collision s v ≢ ok tt
  unfolding check_collision
  check_collision_range s v todo h =
      let mask = take 10 (x.key_bytes v.anonymous_key) in
      let (lo, _, k) = >>=-eq-ok (unwind (start v.election TransactionType.vote (some mask))) _ h in
      let (hi, _, k2) =
        >>=-eq-ok (unwind (start v.election TransactionType.vote (some mask))) _ k in
      let (all, listed, _) = >>=-eq-ok (unwind (s.range lo hi)) _ k2 in
      let p = unwind-eq-ok (s.range lo hi) listed in let q = todo lo hi in cc (p, q)

  validate_vote_range :
      (s : Store x) (v : VoteTransaction x)
      → ((lo hi : Identifier) → s.range lo hi ≡ none)
      → validate_vote s v ≢ ok tt
  unfolding validate_vote
  validate_vote_range s v todo h =
      let (_, k) = require-eq-ok _ _ _ h in
      let (_, _, k2) = found-bind (get_election s v.election) _ k in
      let (tested, _) = >>-eq-ok (check_collision s v) _ k2 in check_collision_range s v todo tested

  -- No vote is ever applied: where the other tests pass, the collision test calls `range`, which panics.
  pub apply-vote :
      (has_header : Bool) (payload : List ℕ) (context context' : Context)
      (v : Signed x (VoteTransaction x))
      → from_bytes payload ≡ some (SignedTransaction.vote v)
      → apply b c prefix to_bytes from_bytes has_header payload context ≢ ok context'
  unfolding validate_tx unsigned
  apply-vote has_header payload context context' v parsed h =
      let (t, _, parsed', _, valid, _) = apply_sound has_header payload context context' h in
      let same = some-injective (sym parsed' ∙ parsed) in
      let state = cb_state b c prefix to_bytes from_bytes context in
      let (_, (_, inside)) =
        (validate_iff b state (SignedTransaction.vote v)).0
          (subst (λ u. validate b state u ≡ ok tt) same valid) in
      validate_vote_range state v.tx (λ lo hi. refl) inside
