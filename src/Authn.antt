-- ===== src/Authn.antt =====
-- Authenticators, the packages that voters have signed blindly, and what becomes of them:
-- cryptoballot/src/authn.rs. `Authenticator::verify` is in Validate/Vote. The fresh uuid and the
-- generators of random numbers are arguments.
pub mod Laws
use cryptoballot.Prelude.{
  ℕ, List, [], ◌∷◌, Option, none, some, String, str_eq, Result, ok, err, ◌>>=◌, and_then, expect,
  from_sum, leb, assert, ◌>>◌, if◌then◌else◌,
}
use cryptoballot.External.{External}
use cryptoballot.Errors.{Error, rsa_error}
use cryptoballot.Identifier.{Identifier}
use cryptoballot.Election.{Authenticator, Authentication}

-- `IndexMap::insert` at a text
unfoldable pub insert_key : {V : Type 0} → String → V → List (String × V) → List (String × V)
insert_key k v [] = (k, v) ∷ []
insert_key k v ((l, w) ∷ m) =
    let rest = insert_key k v m in if str_eq l k then (k, v) ∷ m else (l, w) ∷ rest

module _ (x : External) where
  open x use {PublicKey}

  pub record AuthPackage : Type 0 where
    pub election_id : Identifier
    pub ballot_id : String
    pub anonymous_key : PublicKey

module _ {x : External} where
  open x use {PublicKey, RsaPublicKey, RsaPrivateKey, Rng, Uuid, rsa_new, rsa_public}

  -- `AuthPackage::new`
  unfoldable pub new_package : Identifier → String → PublicKey → AuthPackage x
  new_package election_id ballot_id anonymous_key = record {
    election_id = election_id;
    ballot_id = ballot_id;
    anonymous_key = anonymous_key;
  }

  -- `AuthPackage::digest`, with `pack`; `none` is the panic where the hash fails
  unfoldable pub digest : AuthPackage x → RsaPublicKey → Option (List ℕ)
  digest p signer = x.hash_message signer (x.pack p.election_id p.ballot_id p.anonymous_key)

  -- `AuthPackage::blind`: the blinded digest and the unblinder
  unfoldable pub blind : Rng → AuthPackage x → RsaPublicKey → Option (List ℕ × List ℕ)
  unfolding digest
  blind rng p signer = and_then (digest p signer) (λ d. some (x.blind rng signer d))

  -- `Authenticator::authenticate`, which panics where the signing fails
  unfoldable pub authenticate :
      Rng → Authenticator x → RsaPrivateKey → List ℕ → Option (Authentication x)
  authenticate rng a secret blinded =
      and_then (expect (x.blind_sign rng secret blinded))
        (λ signature. some (record { authenticator = a.id; signature = signature }))

  -- `Authentication::unblind`
  unfoldable pub unblind : Authentication x → RsaPublicKey → List ℕ → Authentication x
  unblind a signer unblinder = record a { signature = x.unblind signer a.signature unblinder }

  -- the loop of `Authenticator::new` over the ballot ids
  unfoldable pub make_keys :
      Rng
      → ℕ
      → List (String × RsaPublicKey)
      → List (String × RsaPrivateKey)
      → List String
      → Result (Error x) (List (String × RsaPublicKey) × List (String × RsaPrivateKey))
  unfolding insert_key
  make_keys rng keysize public_keys secret_keys [] = ok (public_keys, secret_keys)
  make_keys rng keysize public_keys secret_keys (ballot_id ∷ rest) =
      let made = rsa_new rng keysize in
      from_sum (λ _. rsa_error) made.1 >>= λ secret.
      make_keys made.0 keysize (insert_key ballot_id (rsa_public secret) public_keys)
        (insert_key ballot_id secret secret_keys) rest

  -- `Authenticator::new`, as in a release build
  unfoldable pub new_authenticator :
      Rng
      → Uuid
      → ℕ
      → List String
      → Result (Error x) (Authenticator x × List (String × RsaPrivateKey))
  unfolding make_keys
  new_authenticator rng uuid keysize ballot_ids = do
    assert (leb 2048 keysize)
    keys ← make_keys rng keysize [] [] ballot_ids
    ok (record { id = uuid; public_keys = keys.0 }, keys.1)
