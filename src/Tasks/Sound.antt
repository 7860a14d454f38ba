-- ===== src/Tasks/Sound.antt =====
-- What the tasks share in the proof that everything a server posts is signed: tasks.rs against
-- `verify_signature` and `validate` of transaction.rs.
use mathlib.Core.Path.{subst}
use cryptoballot.Prelude.{
  ◌≡◌, sym, Bool, true, false, List, [], ◌∷◌, Option, none, some, Result, ok, ◌>>=◌, >>=-eq-ok,
  ok-injective, if◌then◌else◌, All, In, In-map, find-In, refl, ap,
}
use cryptoballot.External.{External}
use cryptoballot.Errors.{Error}
use cryptoballot.Election.{
  Trustee, ElectionTransaction, trustee_exists, get_full_trustees, full_trustee,
}
use cryptoballot.Validate.Keygen.Laws.{HasTrustee-trustee_exists}
use cryptoballot.Transaction.{Cbor, Signed, SignedTransaction, transaction_type, tx_id}
use cryptoballot.Validate.Traits.{CryptoBallotTransaction}
use cryptoballot.Validate.Signed.{sign_tx, verify_signature, verify_any}
use cryptoballot.Validate.Signed.Laws.{sign_tx-verify_signature}
use cryptoballot.Tasks.{if_trustee, trustee_from_election}

-- What a task makes has a property, whenever it succeeds.
module _ {x : External} (P : SignedTransaction x → Type 0) where
  abbrev pub Yields : Result (Error x) (List (SignedTransaction x)) → Type 0
  Yields run = (txs : List (SignedTransaction x)) → run ≡ ok txs → All P txs

  pub Yields-nothing : Yields (ok [])
  Yields-nothing txs h = subst (All P) (ok-injective h) tt

  pub Yields->>= :
      {A : Type 0} (run : Result (Error x) A)
      (rest : A → Result (Error x) (List (SignedTransaction x)))
      → ((a : A) → run ≡ ok a → Yields (rest a))
      → Yields (run >>= rest)
  Yields->>= run rest f txs h = let (a, e, k) = >>=-eq-ok run rest h in f a e txs k

  pub Yields-if_trustee :
      (o : Option (Trustee x)) (task : Trustee x → Result (Error x) (List (SignedTransaction x)))
      → ((t : Trustee x) → o ≡ some t → Yields (task t))
      → Yields (if_trustee o task)
  Yields-if_trustee none task f = Yields-nothing
  Yields-if_trustee (some t) task f = f t refl

  pub Yields-if :
      (test : Bool) (run run' : Result (Error x) (List (SignedTransaction x)))
      → Yields run
      → Yields run'
      → Yields (if test then run else run')
  Yields-if true run run' f g = f
  Yields-if false run run' f g = g

module _ {x : External} (b : Cbor x) where
  open x use {SecretKey}

  -- What a store checks of a transaction before it looks at its contents: its signature, and that its
  -- identifier has its type.
  abbrev pub IsSigned : SignedTransaction x → Type 0
  IsSigned t = (verify_any b t ≡ ok tt) × ((tx_id t).transaction_type ≡ transaction_type t)

  abbrev pub AreSigned : Result (Error x) (List (SignedTransaction x)) → Type 0
  AreSigned = Yields IsSigned

  -- a kind of transaction, and when one of that kind has a property
  abbrev pub Wraps :
      {T : Type 0}
      → (SignedTransaction x → Type 0)
      → CryptoBallotTransaction x T
      → (Signed x T → SignedTransaction x)
      → T
      → Type 0
  Wraps P i wrap tx = (u : Signed x _) → u.tx ≡ tx → verify_signature b i u ≡ ok tt → P (wrap u)

  pub Yields-sign_tx :
      {T : Type 0} (P : SignedTransaction x → Type 0) (i : CryptoBallotTransaction x T)
      (wrap : Signed x T → SignedTransaction x) (secret : SecretKey) (tx : T)
      → Wraps P i wrap tx
      → Yields P (sign_tx b i secret tx >>= λ signed. ok (wrap signed ∷ []))
  Yields-sign_tx P i wrap secret tx w txs h =
      let (u, signed, k) = >>=-eq-ok (sign_tx b i secret tx) _ h in
      let (same, good) = sign_tx-verify_signature b i secret tx u signed in
      subst (All P) (ok-injective k) (w u same good, tt)

module _ {x : External} where
  open x use {PublicKey, SecretKey, key_eq_iff, public_of}

  -- The trustee that a server acts for: it is one of the election, with the server's key.
  pub trustee_from_election_sound :
      (e : ElectionTransaction x) (key : PublicKey) (t : Trustee x)
      → trustee_from_election e key ≡ some t
      → In t (get_full_trustees e) × (t.public_key ≡ key)
  unfolding trustee_from_election
  trustee_from_election_sound e key t h =
      let (i, same) = find-In (λ u. x.key_eq u.public_key key) (get_full_trustees e) h in
      (i, (key_eq_iff _ _).0 same)

  pub trustee_from_election-trustee_exists :
      (e : ElectionTransaction x) (key : PublicKey) (t : Trustee x)
      → trustee_from_election e key ≡ some t
      → trustee_exists e.trustees t.index t.public_key ≡ true
  unfolding get_full_trustees full_trustee
  trustee_from_election-trustee_exists e key t h =
      let (i, same) = trustee_from_election_sound e key t h in
      let (u, j, full) = In-map (full_trustee e) e.trustees t i in
      HasTrustee-trustee_exists e.trustees t.index t.public_key u j
        (ap (λ (v : Trustee x). v.index) (sym full))
        (ap (λ (v : Trustee x). v.public_key) (sym full))

module _ {x : External} (b : Cbor x) where
  open x use {SecretKey, key_eq_iff, public_of}

  -- A server that signs for its own key succeeds, and the signature verifies.
  abbrev pub Signs : {T : Type 0} → CryptoBallotTransaction x T → SecretKey → T → Type 0
  Signs i secret tx =
      (u : Signed x _) × (sign_tx b i secret tx ≡ ok u)
      × (u.tx ≡ tx)
      × (verify_signature b i u ≡ ok tt)

  pub sign_tx_own :
      {T : Type 0} (i : CryptoBallotTransaction x T) (secret : SecretKey) (tx : T)
      → i.public_key tx ≡ some (public_of secret)
      → Signs i secret tx
  unfolding sign_tx
  sign_tx_own i secret tx own =
      let u : Signed x _ = record {
        tx = tx;
        sig = x.sign secret (b.tx_bytes (i.as_transaction tx)) (public_of secret);
      } in
      let same = (key_eq_iff (public_of secret) (public_of secret)).1 refl in
      let signs : sign_tx b i secret tx ≡ ok u = rw (own, same) refl in
      let (kept, good) = sign_tx-verify_signature b i secret tx u signs in (u, signs, kept, good)
