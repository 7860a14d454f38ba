-- ===== src/Tests/Toy.antt =====
-- A concrete instance of `External`: keys are numbers, a signature is the key with the message, a
-- shuffle keeps its input, and a ciphertext is its plaintext.
use cryptoballot.Prelude.{
  none, ◌+◌, Option, zero, ℕ, suc, ◌%◌, ◌<◌, ◌≡◌, ◌⊎◌, inl, inr, refl, Bool, true, false, ◌&&◌,
  List, [], ◌∷◌, some, length, replicate, ◌==◌, ==_iff, leb, arith, if◌then◌else◌,
}
use cryptoballot.Bytes.{IsBytes, bytes_eq}
use cryptoballot.Bytes.Order.{bytes_eq_iff}
use cryptoballot.External.{External}
use cryptoballot.Transaction.{Cbor}
use cryptoballot.Tests.Hex.{encode, decode, decode-encode, decode-IsBytes, lex_cmp-encode}

abbrev pub key_bytes : ℕ → List ℕ
key_bytes k = replicate 32 (k % 256)

pub length-replicate : {A : Type 0} (n : ℕ) (a : A) → length (replicate n a) ≡ n
length-replicate zero a = refl
length-replicate (suc n) a = ground (arith, length-replicate n a)

pub replicate-IsBytes : (n b : ℕ) → b < 256 → IsBytes (replicate n b)
replicate-IsBytes zero b h = tt
replicate-IsBytes (suc n) b h = (h, replicate-IsBytes n b h)

pub mod_lt : (k : ℕ) → k % 256 < 256
mod_lt k = omega arith

abbrev pub verify : ℕ → List ℕ → ℕ × List ℕ → Bool
verify key m sig = key == sig.0 && bytes_eq m sig.1

abbrev pub row_eq : List (List ℕ) → List (List ℕ) → Bool
row_eq [] [] = true
row_eq [] (c ∷ cs) = false
row_eq (b ∷ bs) [] = false
row_eq (b ∷ bs) (c ∷ cs) = bytes_eq b c && row_eq bs cs

row_eq_refl : (r : List (List ℕ)) → row_eq r r ≡ true
row_eq_refl [] = refl
row_eq_refl (b ∷ bs) = rw ((bytes_eq_iff b b).1 refl) (row_eq_refl bs)

abbrev pub rows_eq : List (List (List ℕ)) → List (List (List ℕ)) → Bool
rows_eq [] [] = true
rows_eq [] (r ∷ rs) = false
rows_eq (q ∷ qs) [] = false
rows_eq (q ∷ qs) (r ∷ rs) = row_eq q r && rows_eq qs rs

rows_eq_refl : (rs : List (List (List ℕ))) → rows_eq rs rs ≡ true
rows_eq_refl [] = refl
rows_eq_refl (r ∷ rs) = rw (row_eq_refl r) (rows_eq_refl rs)

pub inr-injective : {A : Type 0} {a b : A} → ◌≡◌ {A = Unit {0} ⊎ A} (inr a) (inr b) → a ≡ b
inr-injective h = cc

pub shuffle_verify-gen_proof :
    (inputs s : List (List (List ℕ))) (p ctx : List ℕ)
    → ◌≡◌ {A = Unit {0} ⊎ List (List (List ℕ))} (inr inputs) (inr s)
    → ◌≡◌ {A = Unit {0} ⊎ List ℕ} (inr ctx) (inr p)
    → (bytes_eq p ctx && rows_eq inputs s) ≡ true
shuffle_verify-gen_proof inputs s p ctx h k =
    let e = inr-injective h in
    let e' = inr-injective k in rw (e, e', (bytes_eq_iff p p).1 refl) (rows_eq_refl s)

pub verify-sign : (s : ℕ) (m : List ℕ) → verify s m (s, m) ≡ true
verify-sign s m = rw ((==_iff s s).1 refl) ((bytes_eq_iff m m).1 refl)

abbrev pub finish : ℕ × ℕ × List ℕ → Unit {0} ⊎ List ℕ
finish d = if leb d.0 d.1 then inr d.2 else inl tt

pub bytes_eq_refl : (bs : List ℕ) → bytes_eq bs bs ≡ true
bytes_eq_refl bs = (bytes_eq_iff bs bs).1 refl

pub bytes_eq_of : (bs cs : List ℕ) → bs ≡ cs → bytes_eq bs cs ≡ true
bytes_eq_of bs cs = (bytes_eq_iff bs cs).1

abbrev pub scalar_from : List ℕ → Option ℕ
scalar_from [] = none
scalar_from (s ∷ bs) = some s

abbrev pub sum : List ℕ → ℕ
sum [] = 0
sum (b ∷ bs) = b + sum bs

pub add_bytes_comm : (a b : ℕ) → ◌≡◌ {A = List ℕ} ((a + b) ∷ []) ((b + a) ∷ [])
add_bytes_comm a b = let e : a + b ≡ b + a = omega arith in rw e refl

abbrev pub toy : External
toy = record {
  PublicKey = ℕ;
  SecretKey = ℕ;
  Signature = ℕ × List ℕ;
  key_eq = ◌==◌;
  key_eq_iff = ==_iff;
  key_bytes = key_bytes;
  length-key_bytes = λ k. length-replicate 32 (k % 256);
  key_bytes-IsBytes = λ k. replicate-IsBytes 32 (k % 256) (mod_lt k);
  public_of = λ s. s;
  sign = λ s m key. (s, m);
  verify = verify;
  secret_bytes = λ s. s ∷ [];
  verify-sign = verify-sign;
  Ciphertext = List ℕ;
  EncryptionKey = ℕ;
  encryption_key_eq = ◌==◌;
  encryption_key_eq_iff = ==_iff;
  CryptoError = Unit {0};
  PedersenCtx = List ℕ;
  Generators = ℕ;
  with_generators = λ seed n. (seed, n);
  Rng = ℕ;
  Shuffle = List (List (List ℕ));
  ShuffleProof = List ℕ;
  shuffle_new = λ rng inputs key. (suc rng, inr inputs);
  gen_proof = λ shuffle rng ctx gens key. (suc rng, inr ctx);
  into_outputs = λ shuffle. shuffle;
  shuffle_verify =
      λ proof ctx gens inputs outputs key. bytes_eq proof ctx && rows_eq inputs outputs;
  shuffle_verify-gen_proof =
      λ r r' inputs key s p ctx gens h k. shuffle_verify-gen_proof inputs s p ctx h k;
  encrypt = λ key rng m. (suc rng, m);
  KeygenCommitment = ℕ;
  PubkeyProof = ℕ;
  DecryptShare = List ℕ;
  share_verify = λ share proof c. bytes_eq share c;
  Scalar = ℕ;
  ThresholdGenerator = ℕ;
  ThresholdParty = ℕ;
  generator_new = λ rng index threshold n. index;
  get_commitment = λ g. g;
  receive_commitment = λ g index commitment. inr g;
  get_polynomial_share = λ g index. inr (g + index);
  receive_share = λ g index share. inr g;
  finish_keygen = λ g. inr g;
  pubkey = λ p. 11;
  pubkey_proof = λ p. p;
  decrypt_share = λ p c rng. (suc rng, c);
  share_verify-decrypt_share = λ p c r. bytes_eq_refl c;
  scalar_bytes = λ s. s ∷ [];
  scalar_from = scalar_from;
  scalar_from-scalar_bytes = λ s. refl;
  Decryption = ℕ × ℕ × List ℕ;
  decryption_new = λ threshold c. (threshold, 0, c);
  add_share = λ d index proof share. (d.0, suc d.1, d.2);
  finish = finish;
  X25519PublicKey = ℕ;
  X25519Secret = ℕ;
  x25519_secret = sum;
  x25519_public = λ s. s;
  diffie_hellman = λ a b. (a + b) ∷ [];
  diffie_hellman_comm = add_bytes_comm;
  hkdf_expand = λ salt key info. key;
  chacha_from_seed = sum;
  gen_nonce = λ rng. (suc rng, replicate 12 0);
  length-gen_nonce = λ rng. refl;
  aes_encrypt = λ key nonce m. m;
  aes_decrypt = λ key nonce m. some m;
  aes_decrypt-aes_encrypt = λ key nonce m. refl;
  RsaPublicKey = ℕ;
  RsaPrivateKey = ℕ;
  RsaError = Unit {0};
  rsa_new = λ rng size. (suc rng, inr 3);
  rsa_public = λ s. s;
  hash_message = λ key m. some m;
  blind = λ rng key digest. (digest, []);
  blind_sign = λ rng key blinded. inr blinded;
  unblind = λ key signature unblinder. signature;
  pack = λ id ballot key. key_bytes key;
  blind_verify = λ key m sig. bytes_eq m sig;
  blind_verify-unblind =
      λ r r' s digest signature h. bytes_eq_of digest signature (inr-injective h);
  DecodeError = Unit {0};
  selection_decode = λ bs. inr (record { write_in = false; score = length bs; selection = "A" });
  EncodeError = Unit {0};
  selection_encode = λ s. inr (replicate s.score 0);
  Uuid = ℕ;
  uuid_eq = ◌==◌;
  uuid_eq_iff = ==_iff;
  JsonValue = ℕ;
  encode = encode;
  decode = decode;
  decode-encode = decode-encode;
  lex_cmp-encode = lex_cmp-encode;
  decode-IsBytes = decode-IsBytes;
}

-- Every transaction is serialised to the same bytes.
abbrev pub toy_cbor : Cbor toy
toy_cbor = record { tx_bytes = λ t. [] }
