-- ===== src/Validate/Keygen/Complete.antt =====
-- What the validation of key shares and of the encryption key requires of all trustees together
-- (keygen.rs).
use cryptoballot.Prelude.{
  >>-eq-ok, ℕ, ◌≡◌, true, List, [], ◌∷◌, arith, ok, length, ◌==◌, In, unwind, require-eq-ok,
  >>=-eq-ok, unwind-eq-ok, ==_iff, some, All, All-In,
}
use cryptoballot.External.{External}
use cryptoballot.Identifier.{TransactionType}
use cryptoballot.Election.{Trustee, ElectionTransaction}
use cryptoballot.Transaction.{
  Signed, EncryptedShare, SignedTransaction, KeyGenShareTransaction, KeyGenPublicKeyTransaction,
  EncryptionKeyTransaction,
}
use cryptoballot.Transaction.Convert.{convert_all, signed_key_gen_public_key}
use cryptoballot.Store.{Store, get_election, get_multiple}
use cryptoballot.Validate.{found-bind}
use cryptoballot.Validate.Keygen.{
  contains_key, check_shares, validate_key_gen_share, check_trustees, check_keys,
  validate_encryption_key,
}
use cryptoballot.Validate.Keygen.Laws.{any-In, HasTrustee, trustee_exists-HasTrustee}

-- The map has a share for the index.
abbrev pub HasShare : List (ℕ × EncryptedShare) → ℕ → Type 0
HasShare m k = (c : EncryptedShare) × In (k, c) m

contains_key-HasShare :
    (m : List (ℕ × EncryptedShare)) (k : ℕ) → contains_key m k ≡ true → HasShare m k
unfolding contains_key
contains_key-HasShare m k h =
    let (p, i, e) = any-In (λ (p : ℕ × EncryptedShare). p.0 == k) m h in
    (p.1, rw (← (==_iff p.0 k).0 e) i)

module _ {x : External} where
  open x use {PublicKey, EncryptionKey, key_eq_iff, encryption_key_eq_iff}

  check_shares-All :
      (t : KeyGenShareTransaction x) (ts : List (Trustee x))
      → check_shares t ts ≡ ok tt
      → All (λ u. HasShare t.shares u.index) ts
  unfolding check_shares
  check_shares-All t [] h = tt
  check_shares-All t (u ∷ ts) h =
      let (p, k) = require-eq-ok _ _ _ h in
      (contains_key-HasShare t.shares u.index p, check_shares-All t ts k)

  abbrev pub IsAcceptedShare : Store x → KeyGenShareTransaction x → Type 0
  IsAcceptedShare s t =
      (e : Signed x (ElectionTransaction x)) × (get_election s t.election ≡ ok e)
      × HasTrustee e.tx.trustees t.trustee_index t.trustee_public_key
      × (length t.shares ≡ length e.tx.trustees)
      × All (λ u. HasShare t.shares u.index) e.tx.trustees

  -- An accepted share transaction is from a trustee of its election, and has a share for every trustee
  -- and as many shares as there are trustees.
  pub validate_key_gen_share_sound :
      (s : Store x) (t : KeyGenShareTransaction x)
      → validate_key_gen_share s t ≡ ok tt
      → IsAcceptedShare s t
  unfolding validate_key_gen_share
  validate_key_gen_share_sound s t h =
      let (e, there, k) = found-bind (get_election s t.election) _ h in
      let (p, k2) = require-eq-ok _ _ _ k in
      let (q, k3) = require-eq-ok _ _ _ k2 in
      (e, there, trustee_exists-HasTrustee _ _ _ p, (==_iff _ _).0 q, check_shares-All t _ k3)

  -- A transaction of the list posts the key for the trustee.
  abbrev pub Posts :
      List (Signed x (KeyGenPublicKeyTransaction x)) → EncryptionKey → Trustee x → Type 0
  Posts pk_txs key u =
      (p : Signed x (KeyGenPublicKeyTransaction x)) × In p pk_txs
      × (p.tx.trustee_index ≡ u.index)
      × (p.tx.trustee_public_key ≡ u.public_key)
      × (p.tx.public_key ≡ key)

  check_keys-All :
      (key : EncryptionKey) (ps : List (Signed x (KeyGenPublicKeyTransaction x)))
      → check_keys key ps ≡ ok tt
      → All (λ p. p.tx.public_key ≡ key) ps
  unfolding check_keys
  check_keys-All key [] h = tt
  check_keys-All key (p ∷ ps) h =
      let (q, k) = require-eq-ok _ _ _ h in
      ((encryption_key_eq_iff _ _).0 q, check_keys-All key ps k)

  check_trustees-All :
      (key : EncryptionKey) (ps : List (Signed x (KeyGenPublicKeyTransaction x)))
      (ts : List (Trustee x))
      → All (λ p. p.tx.public_key ≡ key) ps
      → check_trustees ps ts ≡ ok tt
      → All (Posts ps key) ts
  unfolding check_trustees
  check_trustees-All key ps [] a h = tt
  check_trustees-All key ps (u ∷ ts) a h =
      let (q, k) = require-eq-ok _ _ _ h in
      let (p, i, m) = any-In _ ps q in
      (
        (
          p,
          i,
          ground arith,
          ground (arith, key_eq_iff p.tx.trustee_public_key u.public_key),
          All-In (λ p. p.tx.public_key ≡ key) ps a p i,
        ),
        check_trustees-All key ps ts a k,
      )

  abbrev pub IsAcceptedEncryptionKey : Store x → EncryptionKeyTransaction x → Type 0
  IsAcceptedEncryptionKey s t =
      (e : Signed x (ElectionTransaction x)) × (txs : List (SignedTransaction x)) × (pk_txs : List
        (Signed x (KeyGenPublicKeyTransaction x)))
      × (get_election s t.election ≡ ok e)
      × (t.authority_public_key ≡ e.tx.authority_public)
      × (get_multiple s t.election TransactionType.key_gen_public_key ≡ some txs)
      × (convert_all signed_key_gen_public_key txs ≡ some pk_txs)
      × (length pk_txs ≡ length e.tx.trustees)
      × All (Posts pk_txs t.encryption_key) e.tx.trustees
      × All (λ p. p.tx.public_key ≡ t.encryption_key) pk_txs

  -- An accepted encryption key transaction names the public key of the authority of its election; the
  -- store has as many public key transactions as the election has trustees; every trustee has posted the
  -- encryption key; and all those transactions hold that key.
  pub validate_encryption_key_sound :
      (s : Store x) (t : EncryptionKeyTransaction x)
      → validate_encryption_key s t ≡ ok tt
      → IsAcceptedEncryptionKey s t
  unfolding validate_encryption_key
  validate_encryption_key_sound s t h =
      let (e, there, k) = found-bind (get_election s t.election) _ h in
      let (authority, k2) = require-eq-ok _ _ _ k in
      let (txs, stored, k3) = >>=-eq-ok (unwind (get_multiple s t.election _)) _ k2 in
      let (pk_txs, converted, k4) = >>=-eq-ok (unwind (convert_all _ txs)) _ k3 in
      let (counted, k5) = require-eq-ok _ _ _ k4 in
      let (posted, k6) = >>-eq-ok (check_trustees pk_txs e.tx.trustees) _ k5 in
      let keys = check_keys-All t.encryption_key pk_txs k6 in
      (
        e,
        txs,
        pk_txs,
        there,
        (key_eq_iff _ _).0 authority,
        unwind-eq-ok _ stored,
        unwind-eq-ok _ converted,
        (==_iff _ _).0 counted,
        check_trustees-All t.encryption_key pk_txs e.tx.trustees keys posted,
        keys,
      )
