-- ===== src/Cli/E2e/Laws.antt =====
-- What the audit of an election (cryptoballot_cli/src/command_e2e.rs) promises when it ends well, and
-- when what it prints afterwards panics.
use mathlib.Core.Path.{subst}
use cryptoballot.Prelude.{
  ◌++◌, ℕ, ◌≡◌, ◌↔◌, refl, sym, ap, ◌∙◌, List, [], ◌∷◌, none, some, map, String, ok, inl, arith,
  All, In, get_elem?, map_err, >>=-eq-ok, >>-eq-ok, require-eq-ok, map_err-eq-ok, ok-injective,
}
use cryptoballot.External.{External, Selection}
use cryptoballot.Identifier.Order.{type_eq_iff}
use cryptoballot.Identifier.{Identifier, IsWellFormed, TransactionType, type_eq}
use cryptoballot.Transaction.{Cbor, SignedTransaction, transaction_type, tx_id}
use cryptoballot.Transaction.Kinds.{into_tx}
use cryptoballot.Store.Mem.{MemStore, empty, set, set_all, as_store}
use cryptoballot.Validate.Signed.{validate}
use cryptoballot.Validate.Stored.{IsFilled, nothing, add, get_multiple-convert_all}
use cryptoballot.Tally.{Tallystick}
use cryptoballot.Cli.E2e.{
  E2eError, validate_all, command_e2e, decrypted_votes, lines_of, print_votes, add_first,
  print_tally,
}

module _ {x : External} (b : Cbor x) where
  abbrev pub AreWellFormed : List (SignedTransaction x) → Type 0
  AreWellFormed = All (λ t. IsWellFormed (tx_id t))

  validate_all-IsFilled :
      (s : MemStore x) (txs : List (SignedTransaction x)) {s' : MemStore x}
      → IsFilled b s
      → AreWellFormed txs
      → validate_all b s txs ≡ ok s'
      → IsFilled b s'
  unfolding validate_all
  validate_all-IsFilled s [] f w h = subst (IsFilled b) (ok-injective h) f
  validate_all-IsFilled s (t ∷ txs) f (w, ws) h =
      let (valid, k) =
        >>-eq-ok (map_err (E2eError.invalid (tx_id t)) (validate b (as_store s) t)) _ h in
      validate_all-IsFilled (set s t) txs (add t f w (map_err-eq-ok _ _ valid)) ws k

  validate_all-set_all :
      (s : MemStore x) (txs : List (SignedTransaction x)) {s' : MemStore x}
      → validate_all b s txs ≡ ok s'
      → s' ≡ set_all s txs
  unfolding validate_all set_all
  validate_all-set_all s [] h = sym (ok-injective h)
  validate_all-set_all s (t ∷ txs) h =
      let (valid, k) =
        >>-eq-ok (map_err (E2eError.invalid (tx_id t)) (validate b (as_store s) t)) _ h in
      validate_all-set_all (set s t) txs k

  -- Each of the transactions is valid in the store that setting those before it makes.
  abbrev pub AreValidInTurn : MemStore x → List (SignedTransaction x) → Type 0
  AreValidInTurn s txs =
      (before : List (SignedTransaction x)) (t : SignedTransaction x)
      (after : List (SignedTransaction x))
      → txs ≡ before ++ (t ∷ after)
      → validate b (as_store (set_all s before)) t ≡ ok tt

  validate_all-AreValidInTurn :
      (s : MemStore x) (txs : List (SignedTransaction x)) {s' : MemStore x}
      → validate_all b s txs ≡ ok s'
      → AreValidInTurn s txs
  unfolding validate_all set_all
  validate_all-AreValidInTurn s [] h [] t after e = absurd cc
  validate_all-AreValidInTurn s [] h (c ∷ before) t after e = absurd cc
  validate_all-AreValidInTurn s (u ∷ txs) h [] t after e =
      let (valid, k) =
        >>-eq-ok (map_err (E2eError.invalid (tx_id u)) (validate b (as_store s) u)) _ h in
      let same : u ≡ t = cc in
      subst (λ w. validate b (as_store s) w ≡ ok tt) same (map_err-eq-ok _ _ valid)
  validate_all-AreValidInTurn s (u ∷ txs) h (c ∷ before) t after e =
      let (valid, k) =
        >>-eq-ok (map_err (E2eError.invalid (tx_id u)) (validate b (as_store s) u)) _ h in
      let same : u ≡ c = cc in
      let rest : txs ≡ before ++ (t ∷ after) = cc in
      subst (λ w. validate b (as_store (set_all (set s w) before)) t ≡ ok tt) same
        (validate_all-AreValidInTurn (set s u) txs k before t after rest)

  -- The votes of a filled store can be read.
  IsFilled-decrypted_votes :
      {s : MemStore x} (e : Identifier)
      → IsFilled b s
      → IsWellFormed e
      → (votes : List (List Selection)) × (decrypted_votes s e ≡ some votes)
  unfolding decrypted_votes into_tx
  IsFilled-decrypted_votes {s = s} e f w =
      let (ts, found, converted) = get_multiple-convert_all b e TransactionType.decryption f w in
      let (ss, same, signed, inner) = converted in
      (map (λ t. t.decrypted_vote) (map (λ t. t.tx) ss), rw (found, inner) refl)

  -- When the audit of well-formed transactions ends well, the first of them is an election; each of them
  -- is valid in the store that setting those before it makes, also one that a later transaction with the
  -- same identifier replaces; the store at the end is the one that setting all of them in turn makes; and
  -- printing the election's votes from it does not panic.
  pub command_e2e_sound :
      (txs : List (SignedTransaction x)) (e : Identifier) (s : MemStore x)
      → AreWellFormed txs
      → command_e2e b txs ≡ ok (e, s)
      → ((first : SignedTransaction x) × (get_elem? txs 0 ≡ some first)
          × (tx_id first ≡ e)
          × (transaction_type first ≡ TransactionType.election))
        × AreValidInTurn empty txs
        × (s ≡ set_all empty txs)
        × IsFilled b s
        × ((printed : List (ℕ × String)) × (print_votes s e ≡ some printed))
  unfolding command_e2e print_votes
  command_e2e_sound [] e s w h = absurd cc
  command_e2e_sound (t ∷ txs) e s w h =
      let (is_election, k) =
        require-eq-ok (type_eq (transaction_type t) TransactionType.election) _ _ h in
      let (s', run, k2) = >>=-eq-ok (validate_all b empty (t ∷ txs)) _ k in
      let same : tx_id t ≡ e = ap (λ (p : Identifier × MemStore x). p.0) (ok-injective k2) in
      let stored : s' ≡ s = ap (λ (p : Identifier × MemStore x). p.1) (ok-injective k2) in
      let filled =
        subst (IsFilled b) stored (validate_all-IsFilled empty (t ∷ txs) nothing w run) in
      let (votes, read) = IsFilled-decrypted_votes e filled (subst IsWellFormed same w.0) in
      (
        (t, refl, same, (type_eq_iff _ _).0 is_election),
        validate_all-AreValidInTurn empty (t ∷ txs) run,
        sym stored ∙ validate_all-set_all empty (t ∷ txs) run,
        filled,
        (lines_of votes, rw read refl),
      )

module _ (t : Tallystick) where
  open t use {plurality, plurality_new}

  add_first-eq-none :
      (counted : plurality.Tally) (votes : List (List Selection))
      → (add_first t counted votes ≡ none) ↔ In [] votes
  unfolding add_first
  add_first-eq-none counted [] = ground arith
  add_first-eq-none counted ([] ∷ votes) = ((λ h. inl refl), λ h. refl)
  add_first-eq-none counted ((s ∷ vote) ∷ votes) =
      ground (arith, add_first-eq-none (t.plurality_add counted s.selection) votes)

  -- Printing the tally of a store whose votes can be read panics exactly when one of the votes has no
  -- selection.
  pub print_tally_panics_iff :
      {x : External} (s : MemStore x) (e : Identifier) (votes : List (List Selection))
      → decrypted_votes s e ≡ some votes
      → (print_tally t s e ≡ none) ↔ In [] votes
  unfolding print_tally
  print_tally_panics_iff s e votes read =
      let step = add_first-eq-none (plurality_new 1) votes in
      ((λ h. step.0 (ground (arith, h, read))), λ h. ground (arith, read, step.1 h))
