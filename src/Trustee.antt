-- ===== src/Trustee.antt =====
-- `Trustee` and `EncryptedShare` of cryptoballot/src/trustee.rs: what a trustee derives from its
-- secret key, the shares that the trustees send to each other, and what becomes of them. `none` is a
-- panic where the source can only panic.
pub mod Shares
pub mod Threshold
use cryptoballot.Prelude.{
  Bool, ℕ, List, [], ◌∷◌, ◌++◌, Option, none, some, Result, ok, err, panic, ◌>>=◌, unwind, ok_or,
  and_then, expect, take, drop, length, ◌==◌, ltb, if◌then◌else◌,
}
use cryptoballot.External.{External}
use cryptoballot.Errors.{ValidationError, trustee_missing, share_decryption_error}
use cryptoballot.Identifier.{Identifier, to_array}
use cryptoballot.Election.{Trustee}
use cryptoballot.Transaction.{EncryptedShare}

-- what the serialisers of serde are given for a share, and give back
pub data SerdeValue : Type 0 where
  text raw : List ℕ → SerdeValue

-- `IndexMap::insert`: a key that is there keeps its place
unfoldable pub index_insert : {V : Type 0} → ℕ → V → List (ℕ × V) → List (ℕ × V)
index_insert k v [] = (k, v) ∷ []
index_insert k v ((l, w) ∷ m) =
    let rest = index_insert k v m in if l == k then (k, v) ∷ m else (l, w) ∷ rest

-- `IndexMap::get`
unfoldable pub index_get : {V : Type 0} → ℕ → List (ℕ × V) → Option V
index_get k [] = none
index_get k ((l, w) ∷ m) = if l == k then some w else index_get k m

-- the loop of `decrypt_shares` that looks for a public key, in which the last match stays
unfoldable pub last_key : {V : Type 0} → ℕ → Option V → List (ℕ × V) → Option V
last_key sender found [] = found
last_key sender found ((index, key) ∷ keys) =
    last_key sender (if index == sender then some key else found) keys

module _ (x : External) where
  open x use {
    SecretKey, Rng, Scalar, ThresholdGenerator, KeygenCommitment, X25519PublicKey, X25519Secret,
    secret_bytes,
  }

  -- `EncryptedShare::new`
  unfoldable pub new_share : Rng → List ℕ → Scalar → Rng × EncryptedShare
  new_share rng shared_secret share =
      let drawn = x.gen_nonce rng in
      (
        drawn.0,
        record { bytes = drawn.1 ++ x.aes_encrypt shared_secret drawn.1 (x.scalar_bytes share) },
      )

  -- the key of a trustee for one election
  unfoldable pub x25519_secret_key : SecretKey → Identifier → X25519Secret
  x25519_secret_key sk election_id = x.x25519_secret (
      x.hkdf_expand (to_array election_id) (secret_bytes sk)
        "cryptoballot_trustee_x25519_secret_key")

  unfoldable pub x25519_public_key : SecretKey → Identifier → X25519PublicKey
  x25519_public_key sk election_id = x.x25519_public (x25519_secret_key sk election_id)

  unfoldable pub shared_secret : SecretKey → Identifier → X25519PublicKey → List ℕ
  shared_secret sk election_id sender =
      x.hkdf_expand (to_array election_id)
        (x.diffie_hellman (x25519_secret_key sk election_id) sender)
        "cryptoballot_trustee_shared_secret"

  -- the loops over the commitments and the shares
  unfoldable pub receive_commitments :
      ThresholdGenerator → List (ℕ × KeygenCommitment) → Option ThresholdGenerator
  receive_commitments g [] = some g
  receive_commitments g ((index, commitment) ∷ rest) =
      and_then (expect (x.receive_commitment g index commitment))
        (λ g'. receive_commitments g' rest)

  unfoldable pub receive_shares : ThresholdGenerator → List (ℕ × Scalar) → Option ThresholdGenerator
  receive_shares g [] = some g
  receive_shares g ((index, share) ∷ rest) =
      and_then (expect (x.receive_share g index share)) (λ g'. receive_shares g' rest)

  -- the loop of `generate_shares` over the public keys
  unfoldable pub encrypt_shares :
      ThresholdGenerator
      → SecretKey
      → Identifier
      → Rng
      → List (ℕ × EncryptedShare)
      → List (ℕ × X25519PublicKey)
      → Option (Rng × List (ℕ × EncryptedShare))
  unfolding index_insert
  encrypt_shares g sk election_id rng shares [] = some (rng, shares)
  encrypt_shares g sk election_id rng shares ((index, public_key) ∷ rest) =
      and_then (expect (x.get_polynomial_share g index)) (λ share.
        let made = new_share rng (shared_secret sk election_id public_key) share in
        encrypt_shares g sk election_id made.0 (index_insert index made.1 shares) rest)

  -- `ToHex` and `FromHex` of a share
  unfoldable pub encode_hex : EncryptedShare → List ℕ
  encode_hex share = x.encode share.bytes

  unfoldable pub from_hex : List ℕ → Option EncryptedShare
  from_hex hex = and_then (x.decode hex) λ bytes. some (record { bytes = bytes })

  -- `Serialize` and `Deserialize`: a text in a human-readable format, or else the bytes
  unfoldable pub serialize : Bool → EncryptedShare → SerdeValue
  unfolding encode_hex
  serialize human_readable share =
      if human_readable then text (encode_hex share) else raw share.bytes

  unfoldable pub deserialize : SerdeValue → Option EncryptedShare
  unfolding from_hex
  deserialize (text hex) = from_hex hex
  deserialize (raw bytes) = some (record { bytes = bytes })

module _ {x : External} where
  open x use {
    SecretKey, Rng, Scalar, ThresholdGenerator, ThresholdParty, KeygenCommitment, PubkeyProof,
    EncryptionKey, Ciphertext, DecryptShare, X25519PublicKey, secret_bytes, public_of,
  }

  -- `EncryptedShare::decrypt`, which panics on fewer bytes than the nonce has
  unfoldable pub decrypt : EncryptedShare → List ℕ → Result (ValidationError x) Scalar
  decrypt share shared_secret =
      if ltb (length share.bytes) 12
      then panic
      else (ok_or (x.aes_decrypt shared_secret (take 12 share.bytes) (drop 12 share.bytes))
            share_decryption_error
          >>= λ plaintext. ok_or (x.scalar_from plaintext) share_decryption_error)

  -- `Trustee::new`, with the fresh key pair
  unfoldable pub new_trustee : ℕ → ℕ → ℕ → SecretKey → Option (Trustee x × SecretKey)
  new_trustee index num_trustees threshold secret =
      if index == 0
      then none
      else some (
        record {
          public_key = public_of secret;
          index = index;
          num_trustees = num_trustees;
          threshold = threshold;
        },
        secret,
      )

  unfoldable pub generator : Trustee x → SecretKey → Identifier → ThresholdGenerator
  generator t sk election_id =
      x.generator_new
        (x.chacha_from_seed
          (x.hkdf_expand (to_array election_id) (secret_bytes sk) "cryptoballot_trustee_generator"))
        t.index t.threshold t.num_trustees

  unfoldable pub keygen_commitment : Trustee x → SecretKey → Identifier → KeygenCommitment
  keygen_commitment t sk election_id = x.get_commitment (generator t sk election_id)

  unfoldable pub generate_shares :
      Rng
      → Trustee x
      → SecretKey
      → List (ℕ × X25519PublicKey)
      → Identifier
      → List (ℕ × KeygenCommitment)
      → Option (Rng × List (ℕ × EncryptedShare))
  generate_shares rng t sk x25519_public_keys election_id commitments =
      and_then (receive_commitments x (generator t sk election_id) commitments)
        (λ g. encrypt_shares x g sk election_id rng [] x25519_public_keys)

  unfoldable pub decrypt_shares :
      SecretKey
      → List (ℕ × EncryptedShare)
      → List (ℕ × X25519PublicKey)
      → Identifier
      → Result (ValidationError x) (List (ℕ × Scalar))
  unfolding last_key
  decrypt_shares sk [] x25519_public_keys election_id = ok []
  decrypt_shares sk ((sender, share) ∷ shares) x25519_public_keys election_id = do
    public_key ← ok_or (last_key sender none x25519_public_keys) (trustee_missing sender)
    decrypted ← decrypt share (shared_secret x sk election_id public_key)
    rest ← decrypt_shares sk shares x25519_public_keys election_id
    ok ((sender, decrypted) ∷ rest)

  unfoldable pub generate_party :
      Trustee x
      → SecretKey
      → List (ℕ × KeygenCommitment)
      → List (ℕ × Scalar)
      → Identifier
      → Option ThresholdParty
  generate_party t sk commitments shares election_id =
      and_then (receive_commitments x (generator t sk election_id) commitments)
        (λ g. and_then (receive_shares x g shares) (λ g'. expect (x.finish_keygen g')))

  unfoldable pub generate_public_key :
      Trustee x
      → SecretKey
      → List (ℕ × X25519PublicKey)
      → List (ℕ × KeygenCommitment)
      → List (ℕ × EncryptedShare)
      → Identifier
      → Result (ValidationError x) (EncryptionKey × PubkeyProof)
  generate_public_key t sk x25519_public_keys commitments shares election_id = do
    decrypted ← decrypt_shares sk shares x25519_public_keys election_id
    party ← unwind (generate_party t sk commitments decrypted election_id)
    ok (x.pubkey party, x.pubkey_proof party)

  unfoldable pub partial_decrypt :
      Rng
      → Trustee x
      → SecretKey
      → List (ℕ × X25519PublicKey)
      → List (ℕ × KeygenCommitment)
      → List (ℕ × EncryptedShare)
      → Ciphertext
      → Identifier
      → Result (ValidationError x) (Rng × DecryptShare)
  partial_decrypt rng t sk x25519_public_keys commitments shares encrypted_vote election_id = do
    decrypted ← decrypt_shares sk shares x25519_public_keys election_id
    party ← unwind (generate_party t sk commitments decrypted election_id)
    ok (x.decrypt_share party encrypted_vote rng)
