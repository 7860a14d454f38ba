-- ===== src/Trustee/Shares.antt =====
-- The shares that the trustees send to each other (trustee.rs): who can read them, and when reading
-- one panics.
use mathlib.Core.Path.{subst}
use cryptoballot.Prelude.{
  Bool, true, false, ℕ, ◌≡◌, refl, sym, ap, ◌∙◌, List, [], ◌∷◌, ◌++◌, Option, none, some, ok, false,
  and_then-eq-some, expect, expect-eq-some, inr, arith, length-append, take-append, drop-append,
  if◌then◌else◌, Bool-cases, inl, ==_iff, some-injective, ◌==◌, ltb, length,
}
use cryptoballot.External.{External}
use cryptoballot.Identifier.{Identifier, to_array}
use cryptoballot.Election.{Trustee}
use cryptoballot.Transaction.{EncryptedShare}
use cryptoballot.Bytes.{IsBytes}
use cryptoballot.Trustee.{
  deserialize, serialize, encode_hex, from_hex, index_insert, index_get, last_key, new_share,
  decrypt, x25519_secret_key, x25519_public_key, shared_secret, generator, receive_commitments,
  encrypt_shares, generate_shares, decrypt_shares,
}

module _ {V : Type 0} where
  pub index_get-index_insert_same :
      (k : ℕ) (v : V) (m : List (ℕ × V)) → index_get k (index_insert k v m) ≡ some v
  unfolding index_get index_insert
  index_get-index_insert_same k v [] = ground arith
  index_get-index_insert_same k v ((l, w) ∷ m) = ground (arith, index_get-index_insert_same k v m)

  pub index_get-index_insert_other :
      (k l : ℕ) (v : V) (m : List (ℕ × V))
      → (l == k) ≡ false
      → index_get k (index_insert l v m) ≡ index_get k m
  unfolding index_get index_insert
  index_get-index_insert_other k l v [] h = ground (arith, h)
  index_get-index_insert_other k l v ((l', w) ∷ m) h =
      ground (arith, h, index_get-index_insert_other k l v m h)

module _ (x : External) where
  open x use {Rng, Scalar, SecretKey, X25519PublicKey, ThresholdGenerator}

  -- A share is read back under the secret that it was encrypted under.
  pub decrypt-new_share :
      (rng : Rng) (secret : List ℕ) (share : Scalar)
      → decrypt {x = x} (new_share x rng secret share).1 secret ≡ ok share
  unfolding decrypt new_share
  decrypt-new_share rng secret share =
      let nonce = (x.gen_nonce rng).1 in
      let sealed = x.aes_encrypt secret nonce (x.scalar_bytes share) in
      let long = length-append nonce sealed in
      let twelve = x.length-gen_nonce rng in
      let enough : ltb (length (nonce ++ sealed)) 12 ≡ false = ground (arith, long, twelve) in
      rw (
        enough,
        take-append 12 nonce sealed twelve,
        drop-append 12 nonce sealed twelve,
        x.aes_decrypt-aes_encrypt secret nonce (x.scalar_bytes share),
        x.scalar_from-scalar_bytes share,
      )

  -- A share of bytes is read back from either of its serialised forms.
  pub deserialize-serialize :
      (human_readable : Bool) (share : EncryptedShare)
      → IsBytes share.bytes
      → deserialize x (serialize x human_readable share) ≡ some share
  unfolding deserialize serialize encode_hex from_hex
  deserialize-serialize true share w = rw (x.decode-encode share.bytes w) refl
  deserialize-serialize false share w = refl

  -- Two trustees of an election derive the same secret from each other's public keys.
  pub shared_secret-x25519_public_key :
      (a b : SecretKey) (election_id : Identifier)
      → shared_secret x a election_id (x25519_public_key x b election_id)
        ≡ shared_secret x b election_id (x25519_public_key x a election_id)
  unfolding shared_secret x25519_public_key
  shared_secret-x25519_public_key a b election_id =
      ap (λ d. x.hkdf_expand (to_array election_id) d "cryptoballot_trustee_shared_secret")
        (x.diffie_hellman_comm (x25519_secret_key x a election_id)
          (x25519_secret_key x b election_id))

  -- What the map holds for a trustee, once the key that was found last for it is known: the trustee's
  -- polynomial share, under the secret shared with that key.
  abbrev pub Holds :
      ThresholdGenerator
      → SecretKey
      → Identifier
      → ℕ
      → Option X25519PublicKey
      → List (ℕ × EncryptedShare)
      → Type 0
  Holds g sk election_id j none shares = Unit
  Holds g sk election_id j (some key) shares =
      (rng : Rng) × (share : Scalar) × (x.get_polynomial_share g j ≡ inr share)
      × (index_get j shares ≡ some (new_share x rng (shared_secret x sk election_id key) share).1)

  Holds-index_insert_other :
      (g : ThresholdGenerator) (sk : SecretKey) (election_id : Identifier) (j index : ℕ)
      (found : Option X25519PublicKey) (sealed : EncryptedShare)
      (shares : List (ℕ × EncryptedShare))
      → (index == j) ≡ false
      → Holds g sk election_id j found shares
      → Holds g sk election_id j found (index_insert index sealed shares)
  Holds-index_insert_other g sk election_id j index none sealed shares other holds = tt
  Holds-index_insert_other g sk election_id j index (some key) sealed shares other
        (rng, share, made, there) =
      (rng, share, made, index_get-index_insert_other j index sealed shares other ∙ there)

  Holds-index_insert :
      (g : ThresholdGenerator) (sk : SecretKey) (election_id : Identifier) (j index : ℕ)
      (found : Option X25519PublicKey) (key : X25519PublicKey) (rng : Rng) (share : Scalar)
      (shares : List (ℕ × EncryptedShare))
      → x.get_polynomial_share g index ≡ inr share
      → Holds g sk election_id j found shares
      → Holds g sk election_id j
          (if index == j then some key else found)
          (index_insert index (new_share x rng (shared_secret x sk election_id key) share).1 shares)
  Holds-index_insert g sk election_id j index found key rng share shares made holds =
      elim (Bool-cases (index == j)) [
        | inl same ↦
            let e = (==_iff index j).0 same in
            let sealed = (new_share x rng (shared_secret x sk election_id key) share).1 in
            rw (same) (
              rng,
              share,
              ap (λ i. x.get_polynomial_share g i) (sym e) ∙ made,
              subst (λ i. index_get i (index_insert index sealed shares) ≡ some sealed) e
                  (index_get-index_insert_same index sealed shares),
            )
        | inr other ↦ rw (other) (
            Holds-index_insert_other g sk election_id j index found
              (new_share x rng (shared_secret x sk election_id key) share).1 shares other holds)
      ]

  encrypt_shares_sound :
      (g : ThresholdGenerator) (sk : SecretKey) (election_id : Identifier) (j : ℕ)
      (found : Option X25519PublicKey) (rng : Rng) (shares : List (ℕ × EncryptedShare))
      (keys : List (ℕ × X25519PublicKey)) (result : Rng × List (ℕ × EncryptedShare))
      → encrypt_shares x g sk election_id rng shares keys ≡ some result
      → Holds g sk election_id j found shares
      → Holds g sk election_id j (last_key j found keys) result.1
  unfolding encrypt_shares last_key
  encrypt_shares_sound g sk election_id j found rng shares [] result h holds =
      subst (λ r. Holds g sk election_id j found r.1) (some-injective h) holds
  encrypt_shares_sound g sk election_id j found rng shares ((index, key) ∷ keys) result h holds =
      let (share, got, rest) = and_then-eq-some (expect (x.get_polynomial_share g index)) _ h in
      let made = new_share x rng (shared_secret x sk election_id key) share in
      encrypt_shares_sound g sk election_id j (if index == j then some key else found) made.0
        (index_insert index made.1 shares) keys result rest
        (Holds-index_insert g sk election_id j index found key rng share shares
          (expect-eq-some _ got) holds)

module _ {x : External} where
  open x use {Rng, Scalar, SecretKey, X25519PublicKey, ThresholdGenerator, KeygenCommitment}

  -- What the recipient reads: the sender's polynomial share for the recipient's index, made by the
  -- sender's generator once it has the commitments.
  abbrev pub IsSent :
      Trustee x
      → SecretKey
      → SecretKey
      → ℕ
      → Identifier
      → List (ℕ × KeygenCommitment)
      → List (ℕ × EncryptedShare)
      → List (ℕ × X25519PublicKey)
      → Type 0
  IsSent t sk receiver j election_id commitments shares keys =
      (g : ThresholdGenerator) × (share : Scalar) × (sealed : EncryptedShare) × (receive_commitments
          x (generator t sk election_id) commitments
        ≡ some g)
      × (x.get_polynomial_share g j ≡ inr share)
      × (index_get j shares ≡ some sealed)
      × (decrypt_shares {x = x} receiver ((t.index, sealed) ∷ []) keys election_id
          ≡ ok ((t.index, share) ∷ []))

  -- The shares that a trustee makes reach their recipients: when the public keys name a trustee's own
  -- key last for its index, and the recipient finds the sender's own key last for the sender's index,
  -- the recipient decrypts what the map holds for it to the polynomial share that the sender made for
  -- it.
  pub generate_shares-decrypt_shares :
      (rng : Rng) (t : Trustee x) (sk receiver : SecretKey) (j : ℕ)
      (keys keys' : List (ℕ × X25519PublicKey)) (election_id : Identifier)
      (commitments : List (ℕ × KeygenCommitment)) (result : Rng × List (ℕ × EncryptedShare))
      → generate_shares rng t sk keys election_id commitments ≡ some result
      → last_key j none keys ≡ some (x25519_public_key x receiver election_id)
      → last_key t.index none keys' ≡ some (x25519_public_key x sk election_id)
      → IsSent t sk receiver j election_id commitments result.1 keys'
  unfolding generate_shares decrypt_shares
  generate_shares-decrypt_shares rng t sk receiver j keys keys' election_id commitments result h own
        own' =
      let (g, ready, made) =
        and_then-eq-some (receive_commitments x (generator t sk election_id) commitments) _ h in
      let (rng', share, got, there) =
        subst (λ o. Holds x g sk election_id j o result.1) own
          (encrypt_shares_sound x g sk election_id j none rng [] keys result made tt) in
      let secret = shared_secret x sk election_id (x25519_public_key x receiver election_id) in
      let sealed = (new_share x rng' secret share).1 in
      let read : decrypt {x = x} sealed
            (shared_secret x receiver election_id (x25519_public_key x sk election_id))
          ≡ ok share =
        ap (λ k. decrypt {x = x} sealed k)
          (sym (shared_secret-x25519_public_key x sk receiver election_id))
        ∙ decrypt-new_share x rng' secret share in
      (g, share, sealed, ready, got, there, rw (own', read) refl)
