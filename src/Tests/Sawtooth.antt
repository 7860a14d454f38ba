-- ===== src/Tests/Sawtooth.antt =====
-- The theorem on what stays in the state of the Sawtooth processor: a state with a vote, to which the
-- election is applied.
use mathlib.Core.Path.{subst}
use cryptoballot.Prelude.{
  arith, Bool, true, false, ℕ, ◌≡◌, ◌≢◌, ◌⊎◌, refl, sym, ap, ◌∙◌, List, [], ◌∷◌, some, ok, inr, inl,
  Bool-cases, some-injective, if◌then◌else◌,
}
use cryptoballot.Bytes.{bytes_eq}
use cryptoballot.BTreeMap.{insert, get}
use cryptoballot.BTreeMap.Laws.{get-insert}
use cryptoballot.Identifier.{Identifier, IsWellFormed, TransactionType}
use cryptoballot.Transaction.{SignedTransaction, tx_id}
use cryptoballot.Sawtooth.{cb_address, get_state, apply}
use cryptoballot.Sawtooth.Runs.{stop, request, Run-get_state}
use cryptoballot.Tests.Toy.{toy, toy_cbor}
use cryptoballot.Tests.Sample.{election_id}
use cryptoballot.Tests.Identifiers.{election_id-IsWellFormed, vote_tx_id, vote_tx_id-IsWellFormed}
use cryptoballot.Tests.Ledgers.{context, to_bytes, from_bytes, election_tx, vote_tx}

abbrev address : Identifier → List ℕ
address = cb_address toy_cbor context [] to_bytes from_bytes

abbrev before : List (List ℕ × List ℕ)
before = (address vote_tx_id, 2 ∷ []) ∷ []

abbrev after : List (List ℕ × List ℕ)
after = insert (address election_id) (1 ∷ []) before

inr_of_if :
    {A B : Type 0} (c : Bool) (a b : B)
    → ◌≡◌ {A = A ⊎ B} (inr (if c then a else b)) (if c then inr a else inr b)
inr_of_if true a b = refl
inr_of_if false a b = refl

get-set :
    (s s' : context.Context) (a j bs : List ℕ)
    → context.set_state_entry s a bs ≡ inr s'
    → context.get_state_entry s' j
      ≡ (if bytes_eq a j then inr (some bs) else context.get_state_entry s j)
get-set s s' a j bs h =
    let same : insert a bs s ≡ s' = cc in
    ap (λ m. inr (get j m)) (sym same)
    ∙ ap inr (get-insert a j bs s)
    ∙ inr_of_if (bytes_eq a j) (some bs) (get j s)

vote-IsWellFormed : IsWellFormed (tx_id (SignedTransaction.vote vote_tx))
unfolding tx_id cryptoballot.Transaction.Ids.vote_id cryptoballot.Election.build_id
vote-IsWellFormed = vote_tx_id-IsWellFormed

election-IsWellFormed : IsWellFormed (tx_id election_tx)
unfolding tx_id
election-IsWellFormed = election_id-IsWellFormed

from_bytes-IsWellFormed :
    (bs : List ℕ) (t : SignedTransaction toy) → from_bytes bs ≡ some t → IsWellFormed (tx_id t)
from_bytes-IsWellFormed bs t h = elim (Bool-cases (bytes_eq bs (1 ∷ []))) [
  | inl e ↦
      let same : election_tx ≡ t = some-injective (sym (rw e refl) ∙ h) in
      subst (λ u. IsWellFormed (tx_id u)) same election-IsWellFormed
  | inr e ↦ elim (Bool-cases (bytes_eq bs (2 ∷ []))) [
    | inl f ↦
        let same : SignedTransaction.vote vote_tx ≡ t = some-injective (sym (rw (e, f) refl) ∙ h) in
        subst (λ u. IsWellFormed (tx_id u)) same vote-IsWellFormed
    | inr f ↦ absurd (ground (arith, e, f, h))
  ]
]

vote_kind : vote_tx_id.transaction_type ≢ TransactionType.election
vote_kind h = cc h

applied : apply toy_cbor context [] to_bytes from_bytes true (1 ∷ []) before ≡ ok after
unfolding apply bytes_eq cryptoballot.Validate.Signed.validate tx_id cryptoballot.Election.build_id
    cryptoballot.Transaction.transaction_type cryptoballot.Validate.Election.validate_election
    cryptoballot.Identifier.id_eq cryptoballot.Sawtooth.set_state
applied = refl

there :
    get_state toy_cbor context [] to_bytes from_bytes before vote_tx_id
    ≡ ok (some (SignedTransaction.vote vote_tx))
unfolding get_state get bytes_eq cb_address cryptoballot.Identifier.Text.to_string
    cryptoballot.Tests.Hex.encode cryptoballot.Identifier.to_array
there = refl

Run-get_state_example :
    get_state toy_cbor context [] to_bytes from_bytes after vote_tx_id
    ≡ ok (some (SignedTransaction.vote vote_tx))
Run-get_state_example =
    Run-get_state toy_cbor context [] to_bytes from_bytes get-set from_bytes-IsWellFormed vote_tx_id
      (SignedTransaction.vote vote_tx) vote_tx_id-IsWellFormed vote_kind
      (request true (1 ∷ []) applied stop) there
