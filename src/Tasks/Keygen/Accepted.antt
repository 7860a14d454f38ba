-- ===== src/Tasks/Keygen/Accepted.antt =====
-- What a trustee's server answers to an election and to the last key shares, against the validation
-- of the stores that it is sent to: tasks.rs and keygen.rs.
use mathlib.Core.Path.{subst}
use cryptoballot.Prelude.{
  ◌≡◌, sym, ap, ◌∙◌, refl, List, [], ◌∷◌, some, ok, ok-injective, length, unwind, map_err-eq-ok,
  All, map_err, ◌==◌,
}
use cryptoballot.External.{External}
use cryptoballot.Errors.{Error}
use cryptoballot.Identifier.{TransactionType, new}
use cryptoballot.Election.{ElectionTransaction, Trustee}
use cryptoballot.Transaction.{
  Cbor, Signed, SignedTransaction, KeyGenCommitmentTransaction, KeyGenShareTransaction,
  KeyGenPublicKeyTransaction, transaction_type, tx_id,
}
use cryptoballot.Transaction.Ids.{
  new_key_gen_commitment, new_key_gen_public_key, key_gen_commitment_id, key_gen_public_key_id,
}
use cryptoballot.Transaction.Convert.{inner_key_gen_commitment, inner_key_gen_share}
use cryptoballot.Store.{Store, get_election}
use cryptoballot.Trustee.{generate_public_key, keygen_commitment, x25519_public_key}
use cryptoballot.Validate.Keygen.{validate_key_gen_commitment, validate_key_gen_public_key}
use cryptoballot.Validate.Traits.{key_gen_commitment_trait, key_gen_public_key_trait}
use cryptoballot.Validate.Signed.{verify_any, validate, validate_tx, unsigned}
use cryptoballot.Validate.Signed.Laws.{validate_iff}
use cryptoballot.Tasks.{
  trustee_from_election, looked_up, read_all, shares_for, x25519_keys_of, commitments_of,
}
use cryptoballot.Tasks.Sound.{
  Yields, trustee_from_election_sound, trustee_from_election-trustee_exists, sign_tx_own,
  Yields-nothing, Yields->>=, Yields-if_trustee, Yields-if, Yields-sign_tx,
}
use cryptoballot.Tasks.Keygen.{process_election, make_public_key, process_keygen_share}

module _ {x : External} (b : Cbor x) where
  open x use {SecretKey, public_of}

  -- Every store with the election accepts the transaction.
  abbrev pub IsAcceptedWith : ElectionTransaction x → SignedTransaction x → Type 0
  IsAcceptedWith e t =
      (s : Store x) (u : Signed x (ElectionTransaction x))
      → get_election s e.id ≡ ok u
      → u.tx ≡ e
      → validate b s t ≡ ok tt

  -- What the server answers: one commitment, which every store with the election accepts.
  abbrev pub Commits : SecretKey → ElectionTransaction x → Type 0
  Commits secret e =
      (u : Signed x (KeyGenCommitmentTransaction x)) × (process_election b secret e
        ≡ ok (SignedTransaction.key_gen_commitment u ∷ []))
      × IsAcceptedWith e (SignedTransaction.key_gen_commitment u)

  -- The server of a trustee answers an election with a commitment, and every store that has the election
  -- accepts it.
  pub process_election-validate :
      (secret : SecretKey) (e : ElectionTransaction x) (trustee : Trustee x)
      → trustee_from_election e (public_of secret) ≡ some trustee
      → Commits secret e
  unfolding process_election verify_any tx_id transaction_type new_key_gen_commitment
      key_gen_commitment_id new validate_tx unsigned validate_key_gen_commitment
  process_election-validate secret e trustee chosen =
      let (i, own) = trustee_from_election_sound e (public_of secret) trustee chosen in
      let t =
        new_key_gen_commitment e.id trustee.index trustee.public_key
          (x25519_public_key x secret e.id) (keygen_commitment trustee secret e.id) in
      let (u, signs, same, good) = sign_tx_own b key_gen_commitment_trait secret t (ap some own) in
      (
        u,
        rw (chosen, signs) refl,
        λ s el there elected. (validate_iff b s (SignedTransaction.key_gen_commitment u)).1 (
          ap (λ (v : KeyGenCommitmentTransaction x). v.id.transaction_type) same,
          (
            good,
            rw
                (
                  same,
                  there,
                  elected,
                  trustee_from_election-trustee_exists e (public_of secret) trustee chosen,
                )
                refl,
          ),
        ),
      )

  make_public_key-validate :
      (secret : SecretKey) (s : Store x) (e : ElectionTransaction x) (trustee : Trustee x)
      (share_txs : List (KeyGenShareTransaction x))
      → trustee_from_election e (public_of secret) ≡ some trustee
      → Yields (IsAcceptedWith e) (make_public_key b secret s e trustee share_txs)
  unfolding make_public_key verify_any tx_id transaction_type new_key_gen_public_key
      key_gen_public_key_id new validate_tx unsigned validate_key_gen_public_key
  make_public_key-validate secret s e trustee share_txs chosen =
      let P = IsAcceptedWith e in
      let exists = trustee_from_election-trustee_exists e (public_of secret) trustee chosen in
      Yields->>= P
        (unwind (read_all s inner_key_gen_commitment e.id TransactionType.key_gen_commitment)) _
        λ commits got. Yields->>= P (unwind (shares_for trustee.index share_txs)) _ λ shares got2.
          Yields->>= P
            (map_err Error.validation_error (
              generate_public_key trustee secret (x25519_keys_of commits) (commitments_of commits)
                shares e.id))
            _
            λ made got3.
              Yields-sign_tx b P key_gen_public_key_trait SignedTransaction.key_gen_public_key
                secret (new_key_gen_public_key e.id trustee.index trustee.public_key made.0 made.1)
                λ u same good. λ s' el there elected.
                  (validate_iff b s' (SignedTransaction.key_gen_public_key u)).1 (
                    ap (λ (v : KeyGenPublicKeyTransaction x). v.id.transaction_type) same,
                    (good, rw (same, there, elected, exists) refl),
                  )

  -- Whatever public key a server posts in answer to the key shares is accepted by every store that has
  -- the election that its own store has.
  pub process_keygen_share-validate :
      (secret : SecretKey) (s : Store x) (t : KeyGenShareTransaction x)
      (el : Signed x (ElectionTransaction x)) (txs : List (SignedTransaction x))
      → get_election s t.election ≡ ok el
      → process_keygen_share b secret s t ≡ ok txs
      → All (IsAcceptedWith el.tx) txs
  unfolding process_keygen_share
  process_keygen_share-validate secret s t el txs known h =
      let P = IsAcceptedWith el.tx in
      Yields->>= P (looked_up (get_election s t.election)) _
        (λ e got.
          let same : e ≡ el = ok-injective (sym (map_err-eq-ok _ _ got) ∙ known) in
          Yields-if_trustee P (trustee_from_election e.tx (public_of secret)) _ λ trustee chosen.
            Yields->>= P
              (unwind (read_all s inner_key_gen_share e.tx.id TransactionType.key_gen_share)) _
              λ share_txs read.
                Yields-if P (length share_txs == length e.tx.trustees) _ _
                  (subst
                    (λ (u : Signed x (ElectionTransaction x)).
                      Yields (IsAcceptedWith u.tx)
                        (make_public_key b secret s e.tx trustee share_txs))
                    same (make_public_key-validate secret s e.tx trustee share_txs chosen))
                  (Yields-nothing P))
        txs h
