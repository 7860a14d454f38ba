-- ===== src/Validate/Stored.antt =====
-- Stores in memory (cryptoballot/src/store.rs) that take a transaction only after `validate` has
-- accepted it (transaction.rs).
use cryptoballot.Prelude.{◌≡◌, List, ok, some}
use cryptoballot.External.{External}
use cryptoballot.Identifier.{Identifier, IsWellFormed, TransactionType}
use cryptoballot.Transaction.{Cbor, SignedTransaction, tx_id}
use cryptoballot.Store.{get_multiple}
use cryptoballot.Store.Mem.{MemStore, IsValid, empty, set, as_store}
use cryptoballot.Store.Mem.Laws.{empty-IsValid, set-IsValid}
use cryptoballot.Store.Mem.Typed.{IsTyped, set-IsTyped, Converts, get_multiple-Converts}
use cryptoballot.Validate.Signed.{validate}
use cryptoballot.Validate.Signed.Laws.{validate_iff}

module _ {x : External} (b : Cbor x) where
  -- A validated transaction is set in a filled store; that its identifier is well-formed is what the
  -- Rust type promises.
  pub data IsFilled : MemStore x → Type 0 where
    nothing : IsFilled empty
    add :
        {s : MemStore x} (t : SignedTransaction x)
        → IsFilled s
        → IsWellFormed (tx_id t)
        → validate b (as_store s) t ≡ ok tt
        → IsFilled (set s t)

  IsFilled-IsValid : {s : MemStore x} → IsFilled s → IsValid s
  IsFilled-IsValid nothing = empty-IsValid
  IsFilled-IsValid (add {s = s} t f w h) = set-IsValid s t (IsFilled-IsValid f) w

  IsFilled-IsTyped : {s : MemStore x} → IsFilled s → IsTyped s
  IsFilled-IsTyped nothing = tt
  IsFilled-IsTyped (add {s = s} t f w h) =
      set-IsTyped s t (IsFilled-IsTyped f) ((validate_iff b (as_store s) t).0 h).0

  -- In a store that is filled with validated transactions only, what `get_multiple` returns for a
  -- well-formed election and a type converts to transactions of that type: neither the conversion to
  -- signed transactions nor the one to their contents panics, and both keep every transaction, in order.
  pub get_multiple-convert_all :
      {s : MemStore x} (e : Identifier) (k : TransactionType)
      → IsFilled s
      → IsWellFormed e
      → (ts : List (SignedTransaction x)) × (get_multiple (as_store s) e k ≡ some ts)
        × Converts k ts
  get_multiple-convert_all {s = s} e k f w =
      get_multiple-Converts s e k (IsFilled-IsValid f) (IsFilled-IsTyped f) w
