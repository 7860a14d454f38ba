-- ===== src/Sawtooth/Runs.antt =====
-- What stays in the state of the Sawtooth processor (cryptoballot_sawtooth_tp/src/handler.rs).
use cryptoballot.Prelude.{
  ℕ, ◌≡◌, ◌≢◌, refl, sym, ap, ◌∙◌, Bool, true, false, not, ◌||◌, List, [], ◌∷◌, ◌++◌, Option, some,
  ok, inl, inr, arith, Bool-cases, if◌then◌else◌, from_sum-eq-ok,
}
use cryptoballot.Bytes.{bytes_eq}
use cryptoballot.Bytes.Order.{bytes_eq_iff}
use cryptoballot.External.{External}
use cryptoballot.Identifier.{Identifier, IsWellFormed, TransactionType}
use cryptoballot.Identifier.Text.{to_string}
use cryptoballot.Identifier.Text.RoundTrip.{to_string-injective}
use cryptoballot.Transaction.{Cbor, SignedTransaction, tx_id, transaction_type}
use cryptoballot.Validate.{is_some}
use cryptoballot.Validate.Signed.Laws.{validate_iff}
use cryptoballot.Sawtooth.{
  TransactionContext, cb_address, get_state, set_state, cb_state, is_election, apply,
}
use cryptoballot.Sawtooth.Laws.{apply_sound}

append-injective : (front xs ys : List ℕ) → front ++ xs ≡ front ++ ys → xs ≡ ys
append-injective [] xs ys h = h
append-injective (a ∷ front) xs ys h = append-injective front xs ys cc

is_election-transaction_type :
    {x : External} (t : SignedTransaction x)
    → is_election t ≡ true
    → transaction_type t ≡ TransactionType.election
unfolding transaction_type
is_election-transaction_type (SignedTransaction.election e) h = refl
is_election-transaction_type _ h = absurd cc

-- `get-set` is what the state of a Sawtooth transaction does: an entry that is set is read back, and no
-- other entry changes. That parsed identifiers are well-formed is what their Rust types promise.
module _ {x : External} (b : Cbor x) (c : TransactionContext) (prefix : List ℕ)
    (to_bytes : SignedTransaction x → List ℕ) (from_bytes : List ℕ → Option (SignedTransaction x))
    (get-set : (s s' : c.Context) (a j bs : List ℕ)
      → c.set_state_entry s a bs ≡ inr s'
      → c.get_state_entry s' j ≡ (if bytes_eq a j then inr (some bs) else c.get_state_entry s j))
    (from_bytes-IsWellFormed : (bs : List ℕ) (t : SignedTransaction x)
      → from_bytes bs ≡ some t
      → IsWellFormed (tx_id t)) where
  open c use {Context}

  -- A sequence of requests that are applied.
  pub data Run : Context → Context → Type 0 where
    stop : {s : Context} → Run s s
    request :
        {s s' s'' : Context} (has_header : Bool) (payload : List ℕ)
        → apply b c prefix to_bytes from_bytes has_header payload s ≡ ok s'
        → Run s' s''
        → Run s s''

  -- Setting at another address leaves what is read.
  set_state-get_state :
      (s s' : Context) (u : SignedTransaction x) (id : Identifier)
      → set_state b c prefix to_bytes from_bytes s u ≡ ok s'
      → bytes_eq
          (cb_address b c prefix to_bytes from_bytes (tx_id u))
          (cb_address b c prefix to_bytes from_bytes id)
        ≡ false
      → get_state b c prefix to_bytes from_bytes s' id
        ≡ get_state b c prefix to_bytes from_bytes s id
  unfolding set_state get_state
  set_state-get_state s s' u id h other =
      let there =
        get-set s s' (cb_address b c prefix to_bytes from_bytes (tx_id u))
          (cb_address b c prefix to_bytes from_bytes id) (to_bytes u) (from_sum-eq-ok _ _ h) in
      rw (there, other) refl

  -- A request that is not for an election is refused where the state has a transaction.
  taken :
      (s : Context) (u t : SignedTransaction x) (id : Identifier)
      → tx_id u ≡ id
      → (tx_id u).transaction_type ≡ transaction_type u
      → id.transaction_type ≢ TransactionType.election
      → get_state b c prefix to_bytes from_bytes s id ≡ ok (some t)
      → (is_election u
          || not (is_some ((cb_state b c prefix to_bytes from_bytes s).get_transaction (tx_id u))))
        ≢ true
  taken s u t id same typed kind there free = elim (Bool-cases (is_election u)) [
    | inl e ↦ kind (
        ap (λ (i : Identifier). i.transaction_type) (sym same)
        ∙ typed
        ∙ is_election-transaction_type u e)
    | inr e ↦
        let here : get_state b c prefix to_bytes from_bytes s (tx_id u) ≡ ok (some t) =
          ap (get_state b c prefix to_bytes from_bytes s) same ∙ there in
        absurd (ground (arith, e, here, free))
  ]

  kept :
      (s s' : Context) (has_header : Bool) (payload : List ℕ) (id : Identifier)
      (t : SignedTransaction x)
      → IsWellFormed id
      → id.transaction_type ≢ TransactionType.election
      → apply b c prefix to_bytes from_bytes has_header payload s ≡ ok s'
      → get_state b c prefix to_bytes from_bytes s id ≡ ok (some t)
      → get_state b c prefix to_bytes from_bytes s' id ≡ ok (some t)
  unfolding cb_address
  kept s s' has_header payload id t w kind h there =
      let (u, _, parsed, free, valid, stored) =
        apply_sound b c prefix to_bytes from_bytes has_header payload s s' h in
      elim (Bool-cases (
        bytes_eq (cb_address b c prefix to_bytes from_bytes (tx_id u))
          (cb_address b c prefix to_bytes from_bytes id))) [
            | inl e ↦
                let texts =
                  append-injective prefix (to_string x (tx_id u)) (to_string x id)
                    ((bytes_eq_iff _ _).0 e) in
                let same =
                  to_string-injective x (tx_id u) id (from_bytes-IsWellFormed payload u parsed) w
                    texts in
                absurd (
                  taken s u t id same
                    ((validate_iff b (cb_state b c prefix to_bytes from_bytes s) u).0 valid).0 kind
                    there free)
            | inr e ↦ set_state-get_state s s' u id stored e ∙ there
          ]

  -- In a context that reads back what is set and changes no other entry, and for payloads whose
  -- identifiers are well-formed: once a transaction can be read from the state at a well-formed
  -- identifier that is not an election's, no sequence of applied requests replaces or removes it.
  pub Run-get_state :
      {s s' : Context} (id : Identifier) (t : SignedTransaction x)
      → IsWellFormed id
      → id.transaction_type ≢ TransactionType.election
      → Run s s'
      → get_state b c prefix to_bytes from_bytes s id ≡ ok (some t)
      → get_state b c prefix to_bytes from_bytes s' id ≡ ok (some t)
  Run-get_state id t w kind stop there = there
  Run-get_state id t w kind (request {s = s} {s' = s'} has_header payload h rest) there =
      Run-get_state id t w kind rest (kept s s' has_header payload id t w kind h there)
