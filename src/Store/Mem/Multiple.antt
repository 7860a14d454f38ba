-- ===== src/Store/Mem/Multiple.antt =====
-- `get_multiple` of cryptoballot/src/store.rs over a `MemStore`.
use Prim.Native.Nat.{Ordering}
use cryptoballot.Prelude.{
  ℕ, ◌≡◌, ◌↔◌, refl, ap, sym, ◌∙◌, true, List, [], ◌∷◌, some, arith, All, In, All-In,
}
use cryptoballot.Bytes.{lex_cmp}
use cryptoballot.Bytes.Order.{lex_cmp_refl}
use cryptoballot.External.{External}
use cryptoballot.Identifier.{Identifier, IsWellFormed, TransactionType, cmp, start, end}
use cryptoballot.Identifier.Text.{to_string}
use cryptoballot.Identifier.Text.RoundTrip.{lex_cmp-to_string}
use cryptoballot.BTreeMap
use cryptoballot.BTreeMap.{Ascends, cmp_le, between}
use cryptoballot.BTreeMap.Range.{
  In-between, between-In, get-In, In-get, between-Ascends, between-All,
}
use cryptoballot.Transaction.{SignedTransaction, tx_id}
use cryptoballot.Store.{get_multiple}
use cryptoballot.Store.Mem.{MemStore, IsValid, IsFiled, get_transaction, values, range, as_store}
use cryptoballot.Store.Mem.Laws.{
  lowest, highest, lowest-IsWellFormed, highest-IsWellFormed, cmp_bounds, In-values, values-In,
}

cmp-lowest-highest :
    (e : Identifier) (t : TransactionType) → cmp_le (cmp (lowest e t) (highest e t)) ≡ true
unfolding cmp lex_cmp
cmp-lowest-highest e t = ground (arith, lex_cmp_refl e.election_id)

module _ {x : External} where
  -- The identifiers of the transactions ascend strictly.
  abbrev pub IdsAscend : List (SignedTransaction x) → Type 0
  IdsAscend [] = Unit
  IdsAscend (t ∷ ts) = All (λ u. cmp (tx_id t) (tx_id u) ≡ Ordering.lt) ts × IdsAscend ts

  values-above :
      (t : SignedTransaction x) (m : List (List ℕ × SignedTransaction x))
      → IsWellFormed (tx_id t)
      → All IsFiled m
      → All (λ e. lex_cmp (to_string x (tx_id t)) e.0 ≡ Ordering.lt) m
      → All (λ u. cmp (tx_id t) (tx_id u) ≡ Ordering.lt) (values m)
  unfolding values
  values-above t [] w f a = tt
  values-above t ((k, u) ∷ m) w ((v, e), f) (p, a) =
      (sym (lex_cmp-to_string x (tx_id t) (tx_id u) w v) ∙ cc (e, p), values-above t m w f a)

  values-IdsAscend :
      (m : List (List ℕ × SignedTransaction x)) → Ascends m → All IsFiled m → IdsAscend (values m)
  unfolding values
  values-IdsAscend [] a f = tt
  values-IdsAscend ((k, t) ∷ m) (above, a) ((w, e), f) =
      (values-above t m w f (rw (← e) above), values-IdsAscend m a f)

  -- `get_multiple` returns the stored transactions of the election and the type, each once, in order.
  abbrev pub ReturnsAll : MemStore x → Identifier → TransactionType → Type 0
  ReturnsAll s e t =
      (txs : List (SignedTransaction x)) × (get_multiple (as_store s) e t ≡ some txs)
      × ((tx : SignedTransaction x)
          → In tx txs ↔ (
              (get_transaction s (tx_id tx) ≡ some tx)
              × ((tx_id tx).election_id ≡ e.election_id)
              × ((tx_id tx).transaction_type ≡ t)))
      × IdsAscend txs

  module _ (s : MemStore x) (e : Identifier) (t : TransactionType) (w : IsWellFormed e) where
    abbrev entries : List (List ℕ × SignedTransaction x)
    entries = between (to_string x (lowest e t)) (to_string x (highest e t)) s.inner

    get_multiple-eq-values : get_multiple (as_store s) e t ≡ some (values entries)
    unfolding get_multiple start end range BTreeMap.range
    get_multiple-eq-values =
        rw
          (lex_cmp-to_string x (lowest e t) (highest e t) (lowest-IsWellFormed e t w)
            (highest-IsWellFormed e t w))
          (rw (cmp-lowest-highest e t) refl)

    In-entries :
        IsValid s
        → (tx : SignedTransaction x) → In tx (values entries)
        → (get_transaction s (tx_id tx) ≡ some tx)
          × ((tx_id tx).election_id ≡ e.election_id)
          × ((tx_id tx).transaction_type ≡ t)
    unfolding get_transaction
    In-entries v tx h =
        let (k, i) = In-values tx entries h in
        let (j, lo, hi) = In-between _ _ k tx s.inner i in
        let (wf, filed) = All-In IsFiled s.inner v.filed (k, tx) j in
        let low = lex_cmp-to_string x (lowest e t) (tx_id tx) (lowest-IsWellFormed e t w) wf in
        let high = lex_cmp-to_string x (tx_id tx) (highest e t) wf (highest-IsWellFormed e t w) in
        let (p, q) = (cmp_bounds e (tx_id tx) t wf).0 (
          ap cmp_le (sym low ∙ ap (lex_cmp (to_string x (lowest e t))) (sym filed)) ∙ lo,
          ap cmp_le (sym high ∙ ap (λ u. lex_cmp u (to_string x (highest e t))) (sym filed)) ∙ hi,
        ) in
        (ap (λ u. BTreeMap.get u s.inner) (sym filed) ∙ In-get k tx s.inner v.ascends j, p, q)

    entries-In :
        IsValid s
        → (tx : SignedTransaction x) → get_transaction s (tx_id tx) ≡ some tx
        → (tx_id tx).election_id ≡ e.election_id
        → (tx_id tx).transaction_type ≡ t
        → In tx (values entries)
    unfolding get_transaction
    entries-In v tx h p q =
        let j = get-In (to_string x (tx_id tx)) tx s.inner h in
        let (wf, filed) = All-In IsFiled s.inner v.filed (to_string x (tx_id tx), tx) j in
        let low = lex_cmp-to_string x (lowest e t) (tx_id tx) (lowest-IsWellFormed e t w) wf in
        let high = lex_cmp-to_string x (tx_id tx) (highest e t) wf (highest-IsWellFormed e t w) in
        let (lo, hi) = (cmp_bounds e (tx_id tx) t wf).1 (p, q) in
        values-In _ tx entries
          (between-In _ _ _ tx s.inner j (ap cmp_le low ∙ lo) (ap cmp_le high ∙ hi))

    -- From a valid store and a well-formed election id, `get_multiple` returns a list: it holds a
    -- transaction exactly when the store returns it at its identifier and that has the election and the
    -- type, and the identifiers in it ascend strictly.
    pub get_multiple_exact : IsValid s → ReturnsAll s e t
    get_multiple_exact v = (
      values entries,
      get_multiple-eq-values,
      λ tx. (In-entries v tx, λ h. entries-In v tx h.0 h.1 h.2),
      values-IdsAscend entries (between-Ascends _ _ s.inner v.ascends)
          (between-All IsFiled _ _ s.inner v.filed),
    )
