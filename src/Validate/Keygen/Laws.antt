-- ===== src/Validate/Keygen/Laws.antt =====
-- What the validation of the key generation transactions accepts (keygen.rs).
use cryptoballot.Prelude.{
  ℕ, ◌≡◌, ◌↔◌, refl, Bool, true, ◌&&◌, List, [], ◌∷◌, arith, ok, ◌==◌, any, inl, inr, In,
  Bool-cases,
}
use cryptoballot.External.{External}
use cryptoballot.Identifier.{Identifier}
use cryptoballot.Election.{Trustee, ElectionTransaction, trustee_exists}
use cryptoballot.Transaction.{
  Signed, KeyGenCommitmentTransaction, KeyGenShareTransaction, KeyGenPublicKeyTransaction,
  EncryptionKeyTransaction, VotingEndTransaction,
}
use cryptoballot.Store.{Store, get_election}
use cryptoballot.Validate.{found-bind}
use cryptoballot.Validate.Election.{validate_voting_end}
use cryptoballot.Validate.Keygen.{
  validate_key_gen_commitment, check_shares, validate_key_gen_share, validate_key_gen_public_key,
  validate_encryption_key,
}

pub any-In :
    {A : Type 0} (p : A → Bool) (xs : List A) → any p xs ≡ true → (a : A) × In a xs × (p a ≡ true)
any-In p [] h = cc
any-In p (x ∷ xs) h = elim (Bool-cases (p x)) [
  | inl e ↦ (x, inl refl, e)
  | inr e ↦ let (a, i, q) = any-In p xs (ground arith) in (a, inr i, q)
]

module _ {x : External} where
  open x use {PublicKey, EncryptionKey, key_eq, key_eq_iff, encryption_key_eq_iff}

  -- A trustee of the list with the index and the key.
  abbrev pub HasTrustee : List (Trustee x) → ℕ → PublicKey → Type 0
  HasTrustee ts index key = (t : Trustee x) × In t ts × (t.index ≡ index) × (t.public_key ≡ key)

  pub trustee_exists-HasTrustee :
      (ts : List (Trustee x)) (index : ℕ) (key : PublicKey)
      → trustee_exists ts index key ≡ true
      → HasTrustee ts index key
  unfolding trustee_exists
  trustee_exists-HasTrustee [] index key h = cc
  trustee_exists-HasTrustee (t ∷ ts) index key h =
      elim (Bool-cases (t.index == index && key_eq t.public_key key)) [
        | inl e ↦ (t, inl refl, ground arith, ground (arith, key_eq_iff t.public_key key))
        | inr e ↦
            let (u, i, p, q) = trustee_exists-HasTrustee ts index key (ground arith) in
            (u, inr i, p, q)
      ]

  pub HasTrustee-trustee_exists :
      (ts : List (Trustee x)) (index : ℕ) (key : PublicKey) (t : Trustee x)
      → In t ts
      → t.index ≡ index
      → t.public_key ≡ key
      → trustee_exists ts index key ≡ true
  unfolding trustee_exists
  HasTrustee-trustee_exists [] index key t i p q = absurd i
  HasTrustee-trustee_exists (u ∷ ts) index key t (inl e) p q =
      ground (arith, key_eq_iff u.public_key key)
  HasTrustee-trustee_exists (u ∷ ts) index key t (inr i) p q =
      ground (arith, HasTrustee-trustee_exists ts index key t i p q)

  -- A commitment is accepted exactly when the store has its election, and that has a trustee with the
  -- index and the public key of the transaction.
  pub validate_key_gen_commitment_iff :
      (s : Store x) (t : KeyGenCommitmentTransaction x)
      → (validate_key_gen_commitment s t ≡ ok tt) ↔ (
          (e : Signed x (ElectionTransaction x)) × (get_election s t.election ≡ ok e)
          × HasTrustee e.tx.trustees t.trustee_index t.trustee_public_key)
  unfolding validate_key_gen_commitment
  validate_key_gen_commitment_iff s t = (
    (λ h.
        let (e, there, k) = found-bind (get_election s t.election) _ h in
        (e, there, trustee_exists-HasTrustee _ _ _ (ground arith))),
    λ (e, there, (trustee, i, p, q)).
        ground (arith, HasTrustee-trustee_exists e.tx.trustees _ _ trustee i p q),
  )

  check_shares_ignores_id :
      (id : Identifier) (t : KeyGenShareTransaction x) (ts : List (Trustee x))
      → check_shares (record t { id = id }) ts ≡ check_shares t ts
  unfolding check_shares
  check_shares_ignores_id id t [] = refl
  check_shares_ignores_id id t (u ∷ ts) = rw (check_shares_ignores_id id t ts)

  -- The identifiers of the key generation transactions and of the end of voting are not looked at: with
  -- any other identifier the result is the same.
  pub validate_ignores_id :
      (s : Store x) (id : Identifier) (c : KeyGenCommitmentTransaction x)
      (h : KeyGenShareTransaction x) (p : KeyGenPublicKeyTransaction x)
      (k : EncryptionKeyTransaction x) (v : VotingEndTransaction x)
      → (validate_key_gen_commitment s (record c { id = id }) ≡ validate_key_gen_commitment s c)
        × (validate_key_gen_share s (record h { id = id }) ≡ validate_key_gen_share s h)
        × (validate_key_gen_public_key s (record p { id = id }) ≡ validate_key_gen_public_key s p)
        × (validate_encryption_key s (record k { id = id }) ≡ validate_encryption_key s k)
        × (validate_voting_end s (record v { id = id }) ≡ validate_voting_end s v)
  unfolding validate_key_gen_commitment validate_key_gen_share validate_key_gen_public_key
      validate_encryption_key validate_voting_end
  validate_ignores_id s id c h p k v = (refl, simp (check_shares_ignores_id id h), refl, refl, refl)
