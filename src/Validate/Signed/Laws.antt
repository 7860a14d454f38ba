-- ===== src/Validate/Signed/Laws.antt =====
-- Signatures and validation (transaction.rs).
use cryptoballot.Prelude.{
  Result, ok-injective, if◌then◌else◌, sym, >>-eq-ok, require-eq-ok, ℕ, ◌≡◌, ◌↔◌, refl, Bool, true,
  false, List, Option, some, none, ok, err,
}
use cryptoballot.External.{External}
use cryptoballot.Identifier.Order.{type_eq_iff}
use cryptoballot.Transaction.{Cbor, Signed, SignedTransaction, transaction_type, tx_id}
use cryptoballot.Store.{Store}
use cryptoballot.Validate.Traits.{
  voting_end_trait, CryptoBallotTransaction, partial_decryption_trait,
}
use cryptoballot.Validate.Signed.{
  Error, decryption_trait, mismatched_public_keys, mix_trait, vote_trait, encryption_key_trait,
  key_gen_public_key_trait, key_gen_share_trait, key_gen_commitment_trait, election_trait, sign_tx,
  verify_signature, validate_signed, validate_kind, validate, verify_any, validate_tx, unsigned,
  check_signature, may_sign,
}

module _ {x : External} (b : Cbor x) where
  open x use {PublicKey, SecretKey, Signature, public_of, sign, verify, key_eq_iff, verify-sign}
  open b use {tx_bytes}

  check_signature-sign :
      (secret : SecretKey) (m : List ℕ) (key : Option PublicKey)
      → may_sign b (public_of secret) key ≡ true
      → check_signature b key m (sign secret m (public_of secret)) ≡ ok tt
  check_signature-sign secret m none h = refl
  check_signature-sign secret m (some key) h =
      let same = (key_eq_iff _ _).0 h in let good = verify-sign secret m in rw (sym same, good)

  signed_by :
      {T : Type 0} (i : CryptoBallotTransaction x T) (secret : SecretKey) (tx : T) (s : Signed x T)
      (may : Bool)
      → may_sign b (public_of secret) (i.public_key tx) ≡ may
      → if◌then◌else◌ {A = Result (Error x) (Signed x T)} may
          (ok (record {
            tx = tx;
            sig = sign secret (tx_bytes (i.as_transaction tx)) (public_of secret);
          }))
          (err mismatched_public_keys)
        ≡ ok s
      → (s.tx ≡ tx) × (verify_signature b i s ≡ ok tt)
  unfolding verify_signature
  signed_by i secret tx s true h k =
      let e = ok-injective k in
      rw (sym e, check_signature-sign secret (tx_bytes (i.as_transaction tx)) _ h) (refl, refl)
  signed_by i secret tx s false h k = cc

  -- What is signed keeps the transaction, and its signature verifies, for every kind of transaction.
  pub sign_tx-verify_signature :
      {T : Type 0} (i : CryptoBallotTransaction x T) (secret : SecretKey) (tx : T) (s : Signed x T)
      → sign_tx b i secret tx ≡ ok s
      → (s.tx ≡ tx) × (verify_signature b i s ≡ ok tt)
  unfolding sign_tx
  sign_tx-verify_signature i secret tx s h = signed_by i secret tx s _ refl h

  validate_signed_iff :
      {T : Type 0} (i : CryptoBallotTransaction x T) (s : Store x) (t : Signed x T)
      → (validate_signed b i s t ≡ ok tt)
        ↔ ((verify_signature b i t ≡ ok tt) × (i.validate_tx s t.tx ≡ ok tt))
  unfolding validate_signed
  validate_signed_iff i s t = (λ h. >>-eq-ok _ _ h, λ (p, q). rw (p, q))

  validate_kind_iff :
      (s : Store x) (t : SignedTransaction x)
      → (validate_kind b s t ≡ ok tt)
        ↔ ((verify_any b t ≡ ok tt) × (validate_tx s (unsigned t) ≡ ok tt))
  unfolding validate_kind verify_any validate_tx unsigned
  validate_kind_iff s (SignedTransaction.election t) = validate_signed_iff election_trait s t
  validate_kind_iff s (SignedTransaction.key_gen_commitment t) =
      validate_signed_iff key_gen_commitment_trait s t
  validate_kind_iff s (SignedTransaction.key_gen_share t) =
      validate_signed_iff key_gen_share_trait s t
  validate_kind_iff s (SignedTransaction.key_gen_public_key t) =
      validate_signed_iff key_gen_public_key_trait s t
  validate_kind_iff s (SignedTransaction.encryption_key t) =
      validate_signed_iff encryption_key_trait s t
  validate_kind_iff s (SignedTransaction.vote t) = validate_signed_iff vote_trait s t
  validate_kind_iff s (SignedTransaction.voting_end t) = validate_signed_iff voting_end_trait s t
  validate_kind_iff s (SignedTransaction.mix t) = validate_signed_iff mix_trait s t
  validate_kind_iff s (SignedTransaction.partial_decryption t) =
      validate_signed_iff partial_decryption_trait s t
  validate_kind_iff s (SignedTransaction.decryption t) = validate_signed_iff decryption_trait s t

  -- A signed transaction is accepted exactly when its identifier has its type, its signature verifies,
  -- and the transaction inside is valid in the store.
  pub validate_iff :
      (s : Store x) (t : SignedTransaction x)
      → (validate b s t ≡ ok tt) ↔ (
          ((tx_id t).transaction_type ≡ transaction_type t)
          × ((verify_any b t ≡ ok tt) × (validate_tx s (unsigned t) ≡ ok tt)))
  unfolding validate
  validate_iff s t = (
    λ h. let (p, q) = require-eq-ok _ _ _ h in ((type_eq_iff _ _).0 p, (validate_kind_iff s t).0 q),
    λ (p, q). let p' = (type_eq_iff _ _).1 p in let q' = (validate_kind_iff s t).1 q in rw (p', q'),
  )
