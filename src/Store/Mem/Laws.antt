-- ===== src/Store/Mem/Laws.antt =====
-- `set`, lookups and the bounds of ranges of the `MemStore` of cryptoballot/src/store.rs.
use cryptoballot.Prelude.{
  ℕ, ◌≡◌, ◌↔◌, refl, ap, true, List, [], ◌∷◌, some, arith, if◌then◌else◌, In, inl, inr, replicate,
}
use cryptoballot.Bytes.Order.{
  bytes_eq_iff, lex_cmp-zeros, lex_cmp-ones, lex_cmp-swap, eq_of_lex_cmp, lex_cmp_refl,
}
use cryptoballot.External.{External}
use cryptoballot.Identifier.{Identifier, IsWellFormed, TransactionType, id_eq, cmp}
use cryptoballot.Identifier.Order.{id_eq_iff, as_u8-injective}
use cryptoballot.Identifier.Text.{to_string}
use cryptoballot.Identifier.Text.RoundTrip.{to_string-injective}
use cryptoballot.BTreeMap.{cmp_le}
use cryptoballot.BTreeMap.Laws.{get-insert, insert-Ascends, All-insert}
use cryptoballot.Transaction.{SignedTransaction, tx_id}
use cryptoballot.Store.Mem.{MemStore, IsValid, IsFiled, empty, set, get_transaction, values}

-- The least and the greatest identifier of an election and a type.
abbrev pub lowest : Identifier → TransactionType → Identifier
lowest e t = record {
  election_id = e.election_id;
  transaction_type = t;
  unique_info = replicate 16 0;
}

abbrev pub highest : Identifier → TransactionType → Identifier
highest e t = record {
  election_id = e.election_id;
  transaction_type = t;
  unique_info = replicate 16 255;
}

pub lowest-IsWellFormed :
    (e : Identifier) (t : TransactionType) → IsWellFormed e → IsWellFormed (lowest e t)
lowest-IsWellFormed e t w = record {
  election_length = w.election_length;
  unique_length = refl;
  election_bytes = w.election_bytes;
  unique_bytes = omega arith;
}

pub highest-IsWellFormed :
    (e : Identifier) (t : TransactionType) → IsWellFormed e → IsWellFormed (highest e t)
highest-IsWellFormed e t w = record {
  election_length = w.election_length;
  unique_length = refl;
  election_bytes = w.election_bytes;
  unique_bytes = omega arith;
}

-- An identifier lies between the two exactly when it has the election and the type.
pub cmp_bounds :
    (e id : Identifier) (t : TransactionType)
    → IsWellFormed id
    → ((cmp_le (cmp (lowest e t) id) ≡ true) × (cmp_le (cmp id (highest e t)) ≡ true))
      ↔ ((id.election_id ≡ e.election_id) × (id.transaction_type ≡ t))
unfolding cmp
cmp_bounds e id t w = ground (
  arith,
  lex_cmp-zeros 16 id.unique_info w.unique_length,
  lex_cmp-ones 16 id.unique_info w.unique_length w.unique_bytes,
  lex_cmp-swap e.election_id id.election_id,
  eq_of_lex_cmp e.election_id id.election_id,
  lex_cmp_refl e.election_id,
  as_u8-injective id.transaction_type t,
)

module _ {x : External} where
  pub empty-IsValid : IsValid (empty {x = x})
  empty-IsValid = record { ascends = tt; filed = tt }

  -- Setting a transaction with a well-formed identifier keeps the store valid.
  pub set-IsValid :
      (s : MemStore x) (tx : SignedTransaction x)
      → IsValid s
      → IsWellFormed (tx_id tx)
      → IsValid (set s tx)
  unfolding set
  set-IsValid s tx v w = record {
    ascends = insert-Ascends (to_string x (tx_id tx)) tx s.inner v.ascends;
    filed = All-insert IsFiled (to_string x (tx_id tx)) tx s.inner (w, refl) v.filed;
  }

  -- A lookup after `set` returns the new transaction at its identifier, and the old one elsewhere.
  pub get_transaction-set :
      (s : MemStore x) (tx : SignedTransaction x) (id : Identifier)
      → IsWellFormed (tx_id tx)
      → IsWellFormed id
      → get_transaction (set s tx) id
        ≡ (if id_eq (tx_id tx) id then some tx else get_transaction s id)
  unfolding set get_transaction
  get_transaction-set s tx id v w = ground (
    arith,
    get-insert (to_string x (tx_id tx)) (to_string x id) tx s.inner,
    bytes_eq_iff (to_string x (tx_id tx)) (to_string x id),
    id_eq_iff (tx_id tx) id,
    to_string-injective x (tx_id tx) id v w,
  )

  pub In-values :
      (tx : SignedTransaction x) (m : List (List ℕ × SignedTransaction x))
      → In tx (values m)
      → (k : List ℕ) × In (k, tx) m
  unfolding values
  In-values tx [] h = absurd h
  In-values tx ((k, t) ∷ m) (inl e) = (k, inl (ap (λ u. (k, u)) e))
  In-values tx ((k, t) ∷ m) (inr h) = let (j, i) = In-values tx m h in (j, inr i)

  pub values-In :
      (k : List ℕ) (tx : SignedTransaction x) (m : List (List ℕ × SignedTransaction x))
      → In (k, tx) m
      → In tx (values m)
  unfolding values
  values-In k tx [] h = absurd h
  values-In k tx ((j, t) ∷ m) (inl e) = inl (ap (λ p. p.1) e)
  values-In k tx ((j, t) ∷ m) (inr h) = inr (values-In k tx m h)
