-- ===== src/Cli/E2e.antt =====
-- The audit of an election: cryptoballot_cli/src/command_e2e.rs. What `exit(1)` ends is an error; the
-- transactions are those that the server answers for the prefix.
pub mod Laws
use cryptoballot.Prelude.{
  ℕ, List, [], ◌∷◌, ◌++◌, Option, none, some, String, map, Result, ok, ◌>>=◌, ◌>>◌, require, ok_or,
  map_err, and_then, get_elem?,
}
use cryptoballot.External.{External, Selection}
use cryptoballot.Errors.{ValidationError}
use cryptoballot.Identifier.{Identifier, TransactionType, type_eq}
use cryptoballot.Transaction.{Cbor, SignedTransaction, transaction_type, tx_id}
use cryptoballot.Transaction.Convert.{inner_decryption, convert_all}
use cryptoballot.Store.{get_multiple}
use cryptoballot.Store.Mem.{MemStore, empty, set, as_store}
use cryptoballot.Validate.Signed.{validate}
use cryptoballot.Tally.{Tallystick}

pub data E2eError (x : External) : Type 0 where
  no_transactions : E2eError x
  not_election : E2eError x
  invalid : Identifier → ValidationError x → E2eError x

module _ {x : External} (b : Cbor x) where
  -- the loop over the transactions
  unfoldable pub validate_all :
      MemStore x → List (SignedTransaction x) → Result (E2eError x) (MemStore x)
  validate_all s [] = ok s
  validate_all s (tx ∷ txs) = do
    map_err (invalid (tx_id tx)) (validate b (as_store s) tx)
    validate_all (set s tx) txs

  -- up to "Election verified OK": the id of the election, and the store
  unfoldable pub command_e2e :
      List (SignedTransaction x) → Result (E2eError x) (Identifier × MemStore x)
  unfolding validate_all
  command_e2e txs = do
    first ← ok_or (get_elem? txs 0) no_transactions
    require (type_eq (transaction_type first) TransactionType.election) not_election
    store ← validate_all empty txs
    ok (tx_id first, store)

module _ {x : External} where
  -- the votes that the three options read
  unfoldable pub decrypted_votes : MemStore x → Identifier → Option (List (List Selection))
  decrypted_votes s election_id =
      and_then (get_multiple (as_store s) election_id TransactionType.decryption) λ votes.
        and_then (convert_all inner_decryption votes) λ txs. some (map (λ t. t.decrypted_vote) txs)

-- the lines that print-votes prints
unfoldable pub lines_of : List (List Selection) → List (ℕ × String)
lines_of [] = []
lines_of (vote ∷ votes) = map (λ s. (s.score, s.selection)) vote ++ lines_of votes

module _ {x : External} where
  unfoldable pub print_votes : MemStore x → Identifier → Option (List (ℕ × String))
  unfolding lines_of
  print_votes s election_id =
      and_then (decrypted_votes s election_id) λ votes. some (lines_of votes)

module _ (t : Tallystick) where
  open t use {plurality, plurality_new, plurality_add}

  -- `tally.add(vote[0].selection.clone())` for each vote
  unfoldable pub add_first : plurality.Tally → List (List Selection) → Option plurality.Tally
  add_first counted [] = some counted
  add_first counted (vote ∷ votes) =
      and_then (get_elem? vote 0) λ s. add_first (plurality_add counted s.selection) votes

  module _ {x : External} where
    unfoldable pub print_tally : MemStore x → Identifier → Option (List (String × t.Decimal))
    unfolding add_first
    print_tally s election_id = and_then (decrypted_votes s election_id) λ votes.
        and_then (add_first (plurality_new 1) votes) λ counted. some (plurality.totals counted)

    -- `into_unranked` is the list of the winners in the order of tallystick
    unfoldable pub print_results :
        (t.Winners → List String) → MemStore x → Identifier → Option String
    unfolding add_first
    print_results into_unranked s election_id = and_then (decrypted_votes s election_id) λ votes.
        and_then (add_first (plurality_new 1) votes)
          λ counted. get_elem? (into_unranked (plurality.winners counted)) 0
