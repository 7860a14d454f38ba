-- ===== src/Store/Mem.antt =====
-- `MemStore` of cryptoballot/src/store.rs: a map from the hexadecimal identifiers.
pub mod Laws
pub mod Multiple
pub mod Typed
use cryptoballot.Prelude.{ℕ, ◌≡◌, List, [], ◌∷◌, Option, none, some, map, All, and_then}
use cryptoballot.External.{External}
use cryptoballot.Identifier.{Identifier, IsWellFormed}
use cryptoballot.Identifier.Text.{to_string}
use cryptoballot.BTreeMap
use cryptoballot.BTreeMap.{Ascends}
use cryptoballot.Transaction.{SignedTransaction, tx_id}
use cryptoballot.Store.{Store}

module _ (x : External) where
  pub record MemStore : Type 0 where
    pub inner : List (List ℕ × SignedTransaction x)

module _ {x : External} where
  -- `MemStore::default`
  abbrev pub empty : MemStore x
  empty = record { inner = [] }

  unfoldable pub set : MemStore x → SignedTransaction x → MemStore x
  set s tx = record { inner = BTreeMap.insert (to_string x (tx_id tx)) tx s.inner }

  unfoldable pub get_transaction : MemStore x → Identifier → Option (SignedTransaction x)
  get_transaction s id = BTreeMap.get (to_string x id) s.inner

  -- the entries without their keys
  unfoldable pub values : List (List ℕ × SignedTransaction x) → List (SignedTransaction x)
  values [] = []
  values ((k, tx) ∷ m) = tx ∷ values m

  unfoldable pub range : MemStore x → Identifier → Identifier → Option (List (SignedTransaction x))
  unfolding values
  range s start end_inclusive =
      and_then (BTreeMap.range (to_string x start) (to_string x end_inclusive) s.inner)
        λ m. some (values m)

  -- `From<Vec<SignedTransaction>>`
  unfoldable pub set_all : MemStore x → List (SignedTransaction x) → MemStore x
  unfolding set
  set_all s [] = s
  set_all s (tx ∷ txs) = set_all (set s tx) txs

  -- `impl Store for MemStore`
  abbrev pub as_store : MemStore x → Store x
  as_store s = record { get_transaction = get_transaction s; range = range s }

  -- Every entry stands under the identifier of its transaction.
  abbrev pub IsFiled : List ℕ × SignedTransaction x → Type 0
  IsFiled (k, tx) = IsWellFormed (tx_id tx) × (k ≡ to_string x (tx_id tx))

  pub record IsValid (s : MemStore x) : Type 0 where
    pub ascends : Ascends s.inner
    pub filed : All IsFiled s.inner
