-- ===== src/Store/Mem/Typed.antt =====
-- The conversions of what `get_multiple` of cryptoballot/src/store.rs returns.
use mathlib.Core.Path.{subst}
use cryptoballot.Prelude.{
  All-In, ℕ, All, ◌≡◌, refl, ap, sym, ◌∙◌, List, [], ◌∷◌, some, In, inl, inr, map,
}
use cryptoballot.External.{External}
use cryptoballot.Identifier.{Identifier, IsWellFormed, TransactionType}
use cryptoballot.Transaction.{Signed, SignedTransaction, transaction_type, tx_id}
use cryptoballot.Transaction.Convert.{convert_all}
use cryptoballot.Transaction.Kinds.{Tx, from_signed, into_signed, into_tx}
use cryptoballot.Transaction.Kinds.Laws.{IsConverted, transaction_type-IsConverted}
use cryptoballot.BTreeMap.Laws.{All-insert}
use cryptoballot.Identifier.Text.{to_string}
use cryptoballot.BTreeMap.Range.{get-In}
use cryptoballot.Store.{get_multiple}
use cryptoballot.Store.Mem.{MemStore, IsValid, get_transaction, set, as_store}
use cryptoballot.Store.Mem.Multiple.{get_multiple_exact}

module _ {x : External} where
  -- Each transaction of the store stands under an identifier of its own type.
  abbrev pub HasOwnType : List ℕ × SignedTransaction x → Type 0
  HasOwnType (k, t) = (tx_id t).transaction_type ≡ transaction_type t

  abbrev pub IsTyped : MemStore x → Type 0
  IsTyped s = All HasOwnType s.inner

  pub set-IsTyped :
      (s : MemStore x) (t : SignedTransaction x)
      → IsTyped s
      → (tx_id t).transaction_type ≡ transaction_type t
      → IsTyped (set s t)
  unfolding set
  set-IsTyped s t typed own = All-insert HasOwnType (to_string x (tx_id t)) t s.inner own typed

  -- A list that converts as a whole: `signed` holds the transactions, `inner` their contents.
  abbrev pub Converts : TransactionType → List (SignedTransaction x) → Type 0
  Converts k ts =
      (ss : List (Signed x (Tx x k))) × (map (from_signed k) ss ≡ ts)
      × (convert_all (into_signed k) ts ≡ some ss)
      × (convert_all (into_tx k) ts ≡ some (map (λ s. s.tx) ss))

  IsConverted-at :
      (k : TransactionType) (t : SignedTransaction x)
      → transaction_type t ≡ k
      → (s : Signed x (Tx x k)) × IsConverted k t s
  IsConverted-at k t e =
      subst (λ j. (s : Signed x (Tx x j)) × IsConverted j t s) e (transaction_type-IsConverted t)

  convert_all-Converts :
      (k : TransactionType) (ts : List (SignedTransaction x))
      → ((t : SignedTransaction x) → In t ts → transaction_type t ≡ k)
      → Converts k ts
  unfolding convert_all
  convert_all-Converts k [] of = ([], refl, refl, refl)
  convert_all-Converts k (t ∷ ts) of =
      let (s, c) = IsConverted-at k t (of t (inl refl)) in
      let (ss, same, signed, inner) = convert_all-Converts k ts (λ u i. of u (inr i)) in
      (
        s ∷ ss,
        ap (λ r. r ∷ map (from_signed k) ss) c.same ∙ ap (λ r. t ∷ r) same,
        rw (c.signed, signed) refl,
        rw (c.inner, inner) refl,
      )

  -- In a valid store whose transactions stand under identifiers of their own types, what `get_multiple`
  -- returns for a well-formed election and a type converts to transactions of that type: neither the
  -- conversion to signed transactions nor the one to their contents panics, and nothing is lost.
  pub get_multiple-Converts :
      (s : MemStore x) (e : Identifier) (k : TransactionType)
      → IsValid s
      → IsTyped s
      → IsWellFormed e
      → (ts : List (SignedTransaction x)) × (get_multiple (as_store s) e k ≡ some ts)
        × Converts k ts
  unfolding get_transaction
  get_multiple-Converts s e k v typed w =
      let (ts, found, which, ascends) = get_multiple_exact s e k w v in
      (
        ts,
        found,
        convert_all-Converts k ts λ t i.
            let (there, here, kind) = (which t).0 i in
            let stored = get-In (to_string x (tx_id t)) t s.inner there in
            sym (All-In HasOwnType s.inner typed (to_string x (tx_id t), t) stored) ∙ kind,
      )
