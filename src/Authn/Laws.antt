-- ===== src/Authn/Laws.antt =====
-- Blind authentication (authn.rs): what an authenticator signs for a voter passes the check of the
-- vote.
use mathlib.Core.Path.{subst}
use cryptoballot.Prelude.{
  ℕ, ◌≡◌, refl, sym, ap, ◌∙◌, List, [], ◌∷◌, some, String, str_eq, ok, true, and_then-eq-some,
  expect, expect-eq-some, inl, inr, Bool-cases, leb, assert, >>-eq-ok, some-injective, ok-injective,
  >>=-eq-ok, from_sum, if◌then◌else◌,
}
use cryptoballot.External.{External}
use cryptoballot.Errors.{rsa_error}
use cryptoballot.Election.{Authenticator, Authentication, ElectionTransaction, get_authenticator}
use cryptoballot.Validate.Vote.{get_public_key, verify, check_authentications}
use cryptoballot.Transaction.{VoteTransaction}
use cryptoballot.Authn.{
  new_package, insert_key, AuthPackage, digest, blind, authenticate, unblind, make_keys,
  new_authenticator,
}

-- The same map with its values changed.
abbrev pub on_values : {V W : Type 0} → (V → W) → List (String × V) → List (String × W)
on_values f [] = []
on_values f ((k, v) ∷ m) = (k, f v) ∷ on_values f m

module _ {V W : Type 0} (f : V → W) where
  on_values-insert_key :
      (k : String) (v : V) (m : List (String × V))
      → on_values f (insert_key k v m) ≡ insert_key k (f v) (on_values f m)
  unfolding insert_key
  on_values-insert_key k v [] = refl
  on_values-insert_key k v ((l, w) ∷ m) = elim (Bool-cases (str_eq l k)) [
    | inl e ↦ rw (e) refl
    | inr e ↦ rw (e) (ap (λ r. (l, f w) ∷ r) (on_values-insert_key k v m))
  ]

  get_public_key-on_values :
      (k : String) (m : List (String × V)) (v : V)
      → get_public_key m k ≡ some v
      → get_public_key (on_values f m) k ≡ some (f v)
  unfolding get_public_key
  get_public_key-on_values k [] v h = cc
  get_public_key-on_values k ((l, w) ∷ m) v h = elim (Bool-cases (str_eq l k)) [
    | inl e ↦ rw (e) (
        ap (λ u. some (f u))
          (some-injective (subst (λ b. (if b then some w else get_public_key m k) ≡ some v) e h)))
    | inr e ↦ rw (e) (
        get_public_key-on_values k m v
          (subst (λ b. (if b then some w else get_public_key m k) ≡ some v) e h))
  ]

module _ {x : External} where
  open x use {PublicKey, RsaPublicKey, RsaPrivateKey, Rng, Uuid, rsa_new, rsa_public}

  make_keys-on_values :
      (rng : Rng) (keysize : ℕ) (secrets : List (String × RsaPrivateKey)) (ballot_ids : List String)
      (keys : List (String × RsaPublicKey) × List (String × RsaPrivateKey))
      → make_keys {x = x} rng keysize (on_values rsa_public secrets) secrets ballot_ids ≡ ok keys
      → keys.0 ≡ on_values rsa_public keys.1
  unfolding make_keys
  make_keys-on_values rng keysize secrets [] keys h =
      let e = ok-injective h in sym (ap (λ r. r.0) e) ∙ ap (λ r. on_values rsa_public r.1) e
  make_keys-on_values rng keysize secrets (ballot_id ∷ rest) keys h =
      let (secret, made, k) = >>=-eq-ok (from_sum (λ _. rsa_error) (rsa_new rng keysize).1) _ h in
      make_keys-on_values (rsa_new rng keysize).0 keysize (insert_key ballot_id secret secrets) rest
        keys
        (ap
            (λ m.
              make_keys {x = x} (rsa_new rng keysize).0 keysize m
                (insert_key ballot_id secret secrets) rest)
            (on_values-insert_key rsa_public ballot_id secret secrets)
          ∙ k)

  -- The keys of a new authenticator: for every ballot with a secret key, the public key that it holds is
  -- that of the secret key.
  pub new_authenticator_sound :
      (rng : Rng) (uuid : Uuid) (keysize : ℕ) (ballot_ids : List String) (a : Authenticator x)
      (secrets : List (String × RsaPrivateKey)) (ballot_id : String) (secret : RsaPrivateKey)
      → new_authenticator {x = x} rng uuid keysize ballot_ids ≡ ok (a, secrets)
      → get_public_key secrets ballot_id ≡ some secret
      → get_public_key a.public_keys ballot_id ≡ some (rsa_public secret)
  unfolding new_authenticator
  new_authenticator_sound rng uuid keysize ballot_ids a secrets ballot_id secret h there =
      let (long, k) = >>-eq-ok (assert (leb 2048 keysize)) _ h in
      let (keys, made, k2) = >>=-eq-ok (make_keys rng keysize [] [] ballot_ids) _ k in
      let e = ok-injective k2 in
      subst
        (λ (r : Authenticator x × List (String × RsaPrivateKey)).
          get_public_key r.1 ballot_id ≡ some secret
          → get_public_key r.0.public_keys ballot_id ≡ some (rsa_public secret))
        e
        (λ got.
          ap (λ m. get_public_key m ballot_id)
            (make_keys-on_values rng keysize [] ballot_ids keys made)
          ∙ get_public_key-on_values rsa_public ballot_id keys.1 secret got)
        there

  -- What an authenticator signs for a voter is accepted.
  verify-unblind :
      (rng rng' : Rng) (a : Authenticator x) (secret : RsaPrivateKey) (p : AuthPackage x)
      (blinded unblinder : List ℕ) (auth : Authentication x)
      → get_public_key a.public_keys p.ballot_id ≡ some (rsa_public secret)
      → blind rng p (rsa_public secret) ≡ some (blinded, unblinder)
      → authenticate rng' a secret blinded ≡ some auth
      → verify a p.election_id p.ballot_id p.anonymous_key
          (unblind auth (rsa_public secret) unblinder).signature
        ≡ ok tt
  unfolding verify blind digest authenticate unblind
  verify-unblind rng rng' a secret p blinded unblinder auth there made signed =
      let (d, hashed, k) = and_then-eq-some (digest p (rsa_public secret)) _ made in
      let (signature, got, k2) =
        and_then-eq-some (expect (x.blind_sign rng' secret blinded)) _ signed in
      let pair = some-injective k in
      let answered =
        ap (λ m. x.blind_sign rng' secret m) (ap (λ r. r.0) pair) ∙ expect-eq-some _ got in
      let good = x.blind_verify-unblind rng rng' secret d signature answered in
      let good' : x.blind_verify (rsa_public secret) d
            (x.unblind (rsa_public secret) auth.signature unblinder)
          ≡ true =
        ap
          (λ u.
            x.blind_verify (rsa_public secret) d (x.unblind (rsa_public secret) auth.signature u))
          (sym (ap (λ r. r.1) pair))
        ∙ ap
            (λ (r : Authentication x).
              x.blind_verify (rsa_public secret) d
                (x.unblind (rsa_public secret) r.signature (x.blind rng (rsa_public secret) d).1))
            (sym (some-injective k2))
        ∙ good in
      rw (there, hashed, good') refl

  authenticator-unblind :
      (rng : Rng) (a : Authenticator x) (secret : RsaPrivateKey) (blinded unblinder : List ℕ)
      (auth : Authentication x)
      → authenticate rng a secret blinded ≡ some auth
      → (unblind auth (rsa_public secret) unblinder).authenticator ≡ a.id
  unfolding authenticate unblind
  authenticator-unblind rng a secret blinded unblinder auth signed =
      let (signature, got, k) =
        and_then-eq-some (expect (x.blind_sign rng secret blinded)) _ signed in
      sym (ap (λ (r : Authentication x). r.authenticator) (some-injective k))

  -- A vote that is authenticated by a new authenticator: when the authenticator of the election was made
  -- with the secret key for the vote's ballot, and it signs the blinded package of the vote, then the
  -- vote's check of the unblinded signature succeeds.
  pub authenticate-check_authentications :
      (rng rng' rng'' : Rng) (uuid : Uuid) (keysize : ℕ) (ballot_ids : List String)
      (e : ElectionTransaction x) (v : VoteTransaction x) (a : Authenticator x)
      (secrets : List (String × RsaPrivateKey)) (secret : RsaPrivateKey)
      (blinded unblinder : List ℕ) (auth : Authentication x)
      → new_authenticator {x = x} rng uuid keysize ballot_ids ≡ ok (a, secrets)
      → get_public_key secrets v.ballot_id ≡ some secret
      → get_authenticator e a.id ≡ some a
      → blind {x = x} rng' (new_package e.id v.ballot_id v.anonymous_key) (rsa_public secret)
        ≡ some (blinded, unblinder)
      → authenticate rng'' a secret blinded ≡ some auth
      → check_authentications e v (unblind auth (rsa_public secret) unblinder ∷ []) ≡ ok tt
  unfolding check_authentications new_package
  authenticate-check_authentications rng rng' rng'' uuid keysize ballot_ids e v a secrets secret
        blinded unblinder auth made there known blinds signs =
      let accepted =
        verify-unblind rng' rng'' a secret (new_package e.id v.ballot_id v.anonymous_key) blinded
          unblinder auth
          (new_authenticator_sound rng uuid keysize ballot_ids a secrets v.ballot_id secret made
            there)
          blinds signs in
      rw (authenticator-unblind rng'' a secret blinded unblinder auth signs, known, accepted) refl
