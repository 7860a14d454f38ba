-- ===== src/External.antt =====
-- What the program takes from other packages (ed25519_dalek, cryptid, rsa_fdh, prost, hex, uuid,
-- serde_json), with the documented behaviour that the code relies on. It is a parameter of every
-- module that uses it.
use cryptoballot.Prelude.{ℕ, ◌≡◌, ◌↔◌, Bool, true, List, Option, some, String, length, ◌⊎◌, inr}
use cryptoballot.Bytes.{IsBytes, lex_cmp}
use cryptoballot.Identifier.{Identifier}

-- `Selection` of cryptoballot/src/ballot.rs, the message that a vote encrypts.
pub record Selection : Type 0 where
  pub write_in : Bool
  pub score : ℕ
  pub selection : String

pub record External : Type 1 where
  -- ed25519_dalek
  pub PublicKey : Type 0
  pub SecretKey : Type 0
  pub Signature : Type 0
  pub key_eq : PublicKey → PublicKey → Bool
  pub key_eq_iff : (a b : PublicKey) → (key_eq a b ≡ true) ↔ (a ≡ b)
  pub key_bytes : PublicKey → List ℕ
  pub length-key_bytes : (k : PublicKey) → length (key_bytes k) ≡ 32
  pub key_bytes-IsBytes : (k : PublicKey) → IsBytes (key_bytes k)
  pub public_of : SecretKey → PublicKey
  pub sign : SecretKey → List ℕ → PublicKey → Signature
  pub verify : PublicKey → List ℕ → Signature → Bool
  pub secret_bytes : SecretKey → List ℕ
  pub verify-sign :
      (s : SecretKey) (m : List ℕ) → verify (public_of s) m (sign s m (public_of s)) ≡ true
  -- cryptid: ElGamal encryption, shuffles, threshold decryption
  pub Ciphertext : Type 0
  pub EncryptionKey : Type 0
  pub encryption_key_eq : EncryptionKey → EncryptionKey → Bool
  pub encryption_key_eq_iff : (a b : EncryptionKey) → (encryption_key_eq a b ≡ true) ↔ (a ≡ b)
  pub CryptoError : Type 0
  pub PedersenCtx : Type 0
  pub Generators : Type 0
  pub with_generators : List ℕ → ℕ → PedersenCtx × Generators
  pub Rng : Type 0
  pub Shuffle : Type 0
  pub ShuffleProof : Type 0
  pub shuffle_new : Rng → List (List Ciphertext) → EncryptionKey → Rng × (CryptoError ⊎ Shuffle)
  pub gen_proof :
      Shuffle → Rng → PedersenCtx → Generators → EncryptionKey → Rng × (CryptoError ⊎ ShuffleProof)
  pub into_outputs : Shuffle → List (List Ciphertext)
  pub shuffle_verify :
      ShuffleProof
      → PedersenCtx
      → Generators
      → List (List Ciphertext)
      → List (List Ciphertext)
      → EncryptionKey
      → Bool
  -- an honestly generated proof verifies
  pub shuffle_verify-gen_proof :
      (r r' : Rng) (inputs : List (List Ciphertext)) (key : EncryptionKey) (s : Shuffle)
      (p : ShuffleProof) (ctx : PedersenCtx) (gens : Generators)
      → (shuffle_new r inputs key).1 ≡ inr s
      → (gen_proof s r' ctx gens key).1 ≡ inr p
      → shuffle_verify p ctx gens inputs (into_outputs s) key ≡ true
  pub encrypt : EncryptionKey → Rng → List ℕ → Rng × Ciphertext
  pub KeygenCommitment : Type 0
  pub PubkeyProof : Type 0
  pub DecryptShare : Type 0
  pub share_verify : DecryptShare → PubkeyProof → Ciphertext → Bool
  -- distributed key generation: a generator of a trustee, and the party that it becomes
  pub Scalar : Type 0
  pub ThresholdGenerator : Type 0
  pub ThresholdParty : Type 0
  pub generator_new : Rng → ℕ → ℕ → ℕ → ThresholdGenerator
  pub get_commitment : ThresholdGenerator → KeygenCommitment
  pub receive_commitment :
      ThresholdGenerator → ℕ → KeygenCommitment → CryptoError ⊎ ThresholdGenerator
  pub get_polynomial_share : ThresholdGenerator → ℕ → CryptoError ⊎ Scalar
  pub receive_share : ThresholdGenerator → ℕ → Scalar → CryptoError ⊎ ThresholdGenerator
  pub finish_keygen : ThresholdGenerator → CryptoError ⊎ ThresholdParty
  pub pubkey : ThresholdParty → EncryptionKey
  pub pubkey_proof : ThresholdParty → PubkeyProof
  pub decrypt_share : ThresholdParty → Ciphertext → Rng → Rng × DecryptShare
  -- a party's share verifies against its own proof
  pub share_verify-decrypt_share :
      (p : ThresholdParty) (c : Ciphertext) (r : Rng)
      → share_verify (decrypt_share p c r).1 (pubkey_proof p) c ≡ true
  -- the 32 bytes of a scalar
  pub scalar_bytes : Scalar → List ℕ
  pub scalar_from : List ℕ → Option Scalar
  pub scalar_from-scalar_bytes : (s : Scalar) → scalar_from (scalar_bytes s) ≡ some s
  pub Decryption : Type 0
  pub decryption_new : ℕ → Ciphertext → Decryption
  pub add_share : Decryption → ℕ → PubkeyProof → DecryptShare → Decryption
  pub finish : Decryption → CryptoError ⊎ List ℕ
  -- x25519_dalek
  pub X25519PublicKey : Type 0
  pub X25519Secret : Type 0
  pub x25519_secret : List ℕ → X25519Secret
  pub x25519_public : X25519Secret → X25519PublicKey
  pub diffie_hellman : X25519Secret → X25519PublicKey → List ℕ
  -- both sides of an exchange compute one secret
  pub diffie_hellman_comm :
      (a b : X25519Secret) → diffie_hellman a (x25519_public b) ≡ diffie_hellman b (x25519_public a)
  -- hkdf: 32 bytes from a salt, a key and an info text
  pub hkdf_expand : List ℕ → List ℕ → String → List ℕ
  -- rand and rand_chacha
  pub chacha_from_seed : List ℕ → Rng
  pub gen_nonce : Rng → Rng × List ℕ
  pub length-gen_nonce : (r : Rng) → length (gen_nonce r).1 ≡ 12
  -- aes_gcm: what is encrypted under a key and a nonce is decrypted under them
  pub aes_encrypt : List ℕ → List ℕ → List ℕ → List ℕ
  pub aes_decrypt : List ℕ → List ℕ → List ℕ → Option (List ℕ)
  pub aes_decrypt-aes_encrypt :
      (key nonce m : List ℕ) → aes_decrypt key nonce (aes_encrypt key nonce m) ≡ some m
  -- rsa and rsa_fdh
  pub RsaPublicKey : Type 0
  pub RsaPrivateKey : Type 0
  pub RsaError : Type 0
  pub rsa_new : Rng → ℕ → Rng × (RsaError ⊎ RsaPrivateKey)
  pub rsa_public : RsaPrivateKey → RsaPublicKey
  pub hash_message : RsaPublicKey → List ℕ → Option (List ℕ)
  pub blind : Rng → RsaPublicKey → List ℕ → List ℕ × List ℕ
  pub blind_sign : Rng → RsaPrivateKey → List ℕ → RsaError ⊎ List ℕ
  pub unblind : RsaPublicKey → List ℕ → List ℕ → List ℕ
  -- serde_cbor: the bytes of an `AuthPackage` of these three fields
  pub pack : Identifier → String → PublicKey → List ℕ
  pub blind_verify : RsaPublicKey → List ℕ → List ℕ → Bool
  -- a blinded digest that is signed and unblinded is a signature of the digest
  pub blind_verify-unblind :
      (r r' : Rng) (s : RsaPrivateKey) (digest signature : List ℕ)
      → blind_sign r' s (blind r (rsa_public s) digest).0 ≡ inr signature
      → blind_verify
          (rsa_public s)
          digest
          (unblind (rsa_public s) signature (blind r (rsa_public s) digest).1)
        ≡ true
  -- prost
  pub DecodeError : Type 0
  pub selection_decode : List ℕ → DecodeError ⊎ Selection
  pub EncodeError : Type 0
  pub selection_encode : Selection → EncodeError ⊎ List ℕ
  -- uuid and serde_json
  pub Uuid : Type 0
  pub uuid_eq : Uuid → Uuid → Bool
  pub uuid_eq_iff : (a b : Uuid) → (uuid_eq a b ≡ true) ↔ (a ≡ b)
  pub JsonValue : Type 0
  -- hex: two characters to the byte, lower case, which keep the order of the bytes
  pub encode : List ℕ → List ℕ
  pub decode : List ℕ → Option (List ℕ)
  pub decode-encode : (bs : List ℕ) → IsBytes bs → decode (encode bs) ≡ some bs
  pub lex_cmp-encode :
      (cs bs : List ℕ) → IsBytes cs → IsBytes bs → lex_cmp (encode cs) (encode bs) ≡ lex_cmp cs bs
  pub decode-IsBytes : (s bs : List ℕ) → decode s ≡ some bs → IsBytes bs
