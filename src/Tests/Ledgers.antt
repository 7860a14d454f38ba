-- ===== src/Tests/Ledgers.antt =====
-- The theorems on the two ledgers, at ledgers that hold the sample election.
use cryptoballot.Prelude.{
  map, ℕ, ◌≡◌, ◌≢◌, ◌↔◌, refl, true, List, [], ◌∷◌, Option, none, some, inr, ok, if◌then◌else◌,
}
use cryptoballot.Bytes.{bytes_eq}
use cryptoballot.BTreeMap.{get, insert}
use cryptoballot.BTreeMap.Laws.{get-insert}
use cryptoballot.Transaction.{VoteTransaction, VoteTransaction, SignedTransaction, Signed}
use cryptoballot.Validate.Signed.{validate}
use cryptoballot.Exonum.{Envelope, MapIndex, schema, verify_and_store}
use cryptoballot.Exonum.Laws.{call, stop, verify_and_store_iff, Run-get}
use cryptoballot.Sawtooth.{TransactionContext, apply}
use cryptoballot.Sawtooth.Laws.{apply-vote}
use cryptoballot.Tests.Toy.{toy, toy_cbor}
use cryptoballot.Tests.Sample.{election_with, mix_config, vote}

-- an ordered map; no test reads a range of it
abbrev pub map_index : MapIndex
map_index = record {
  Map = List (List ℕ × Envelope);
  get = get;
  put = insert;
  iter_from = λ start m. m;
  values = map (λ e. e.1);
  get-put = get-insert;
}

-- the signature of the sample's authority
abbrev pub election_tx : SignedTransaction toy
election_tx = SignedTransaction.election (record { tx = election_with mix_config; sig = (9, []) })

abbrev pub vote_tx : Signed toy (VoteTransaction toy)
vote_tx = record { tx = vote; sig = (4, []) }

-- two transactions, as one byte each
abbrev pub to_bytes : SignedTransaction toy → List ℕ
to_bytes (SignedTransaction.election e) = 1 ∷ []
to_bytes _ = 2 ∷ []

abbrev pub from_bytes : List ℕ → Option (SignedTransaction toy)
from_bytes bs =
    if bytes_eq bs (1 ∷ [])
    then some election_tx
    else (if bytes_eq bs (2 ∷ []) then some (SignedTransaction.vote vote_tx) else none)

abbrev pub first : Envelope
first = record { pub_key = []; id = 7 ∷ []; payload = 1 ∷ [] }

abbrev second : Envelope
second = record { pub_key = []; id = 8 ∷ []; payload = 1 ∷ [] }

abbrev pub state : Envelope → List (List ℕ × Envelope)
state e = (e.id, e) ∷ []

pub first_accepted :
    verify_and_store toy_cbor map_index to_bytes from_bytes [] first ≡ ok (state first)
unfolding verify_and_store get bytes_eq validate cryptoballot.Transaction.tx_id
    cryptoballot.Election.build_id cryptoballot.Transaction.transaction_type
    cryptoballot.Validate.Election.validate_election cryptoballot.Identifier.id_eq insert
first_accepted = refl

-- the same transaction once more, under another id
second_accepted :
    verify_and_store toy_cbor map_index to_bytes from_bytes (state first) second
    ≡ ok ((7 ∷ [], first) ∷ (8 ∷ [], second) ∷ [])
unfolding verify_and_store get bytes_eq validate cryptoballot.Transaction.tx_id
    cryptoballot.Election.build_id cryptoballot.Transaction.transaction_type
    cryptoballot.Validate.Election.validate_election cryptoballot.Identifier.id_eq insert
    cryptoballot.Bytes.lex_cmp
second_accepted = refl

verify_and_store_iff_example :
    (verify_and_store toy_cbor map_index to_bytes from_bytes [] first ≡ ok (state first)) ↔ (
      (t : SignedTransaction toy) × (map_index.get (7 ∷ []) [] ≡ none)
      × (from_bytes (1 ∷ []) ≡ some t)
      × (validate toy_cbor (schema toy_cbor map_index to_bytes from_bytes []) t ≡ ok tt)
      × (map_index.put (7 ∷ []) first [] ≡ state first))
verify_and_store_iff_example =
    verify_and_store_iff toy_cbor map_index to_bytes from_bytes [] (state first) first

first_stored : map_index.get (7 ∷ []) (state first) ≡ some first
unfolding get bytes_eq
first_stored = refl

vote_parsed : from_bytes (2 ∷ []) ≡ some (SignedTransaction.vote vote_tx)
unfolding bytes_eq
vote_parsed = refl

Run-get_example : map_index.get (7 ∷ []) ((7 ∷ [], first) ∷ (8 ∷ [], second) ∷ []) ≡ some first
Run-get_example =
    Run-get toy_cbor map_index to_bytes from_bytes {m = state first} (7 ∷ []) first
      (call second second_accepted stop) first_stored

abbrev pub context : TransactionContext
context = record {
  Context = List (List ℕ × List ℕ);
  ContextError = Unit {0};
  get_state_entry = λ state address. inr (get address state);
  set_state_entry = λ state address bytes. inr (insert address bytes state);
}

apply-vote_example : apply toy_cbor context [] to_bytes from_bytes true (2 ∷ []) [] ≢ ok []
apply-vote_example =
    apply-vote toy_cbor context [] to_bytes from_bytes true (2 ∷ []) [] [] vote_tx vote_parsed
