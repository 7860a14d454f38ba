-- ===== src/Trustee/Threshold.antt =====
-- What a trustee makes of the shares it was sent (trustee.rs): its public key and the partial
-- decryptions.
use mathlib.Core.Path.{subst}
use cryptoballot.Prelude.{
  ◌<◌, ltb-lt, arith, ℕ, ◌≡◌, ◌≢◌, ◌↔◌, refl, ◌∙◌, true, List, Option, none, some, Result, ok,
  panic, ◌>>=◌, ltb, take, drop, ok_or, ok_or_total, ok-injective, >>=-eq-ok, unwind, Bool-cases,
  inl, inr, length,
}
use cryptoballot.External.{External}
use cryptoballot.Errors.{ValidationError, share_decryption_error}
use cryptoballot.Identifier.{Identifier}
use cryptoballot.Election.{Trustee}
use cryptoballot.Transaction.{EncryptedShare}
use cryptoballot.Trustee.{
  decrypt, decrypt_shares, generate_party, generate_public_key, partial_decrypt,
}

module _ {x : External} where
  open x use {
    Rng, SecretKey, X25519PublicKey, KeygenCommitment, Ciphertext, EncryptionKey, PubkeyProof,
    DecryptShare, ThresholdParty,
  }

  -- What a partial decryption is, next to a proof of the public key.
  abbrev pub IsPartial :
      Result (ValidationError x) (Rng × DecryptShare) → PubkeyProof → Ciphertext → Type 0
  IsPartial result proof c =
      (made : Rng × DecryptShare) × (result ≡ ok made) × (x.share_verify made.1 proof c ≡ true)

  -- Once a trustee has its public key from the shares that it was sent, it also decrypts any
  -- ciphertext partially with them, and the decryption verifies against the proof of that key.
  pub generate_public_key-partial_decrypt :
      (rng : Rng) (t : Trustee x) (sk : SecretKey) (keys : List (ℕ × X25519PublicKey))
      (commitments : List (ℕ × KeygenCommitment)) (shares : List (ℕ × EncryptedShare))
      (election_id : Identifier) (made : EncryptionKey × PubkeyProof) (c : Ciphertext)
      → generate_public_key t sk keys commitments shares election_id ≡ ok made
      → IsPartial (partial_decrypt rng t sk keys commitments shares c election_id) made.1 c
  unfolding generate_public_key partial_decrypt
  generate_public_key-partial_decrypt rng t sk keys commitments shares election_id made c h =
      let (decrypted, read, k) = >>=-eq-ok (decrypt_shares sk shares keys election_id) _ h in
      let (party, ready, k2) =
        >>=-eq-ok (unwind (generate_party t sk commitments decrypted election_id)) _ k in
      let run : partial_decrypt rng t sk keys commitments shares c election_id
          ≡ ok (x.decrypt_share party c rng) =
        rw (read, ready) refl in
      (
        x.decrypt_share party c rng,
        run,
        subst
            (λ (p : EncryptionKey × PubkeyProof).
              x.share_verify (x.decrypt_share party c rng).1 p.1 c ≡ true)
            (ok-injective k2) (x.share_verify-decrypt_share party c rng),
      )

  open_total :
      (o : Option (List ℕ)) (e : ValidationError x)
      → (ok_or o e >>= λ plaintext. ok_or (x.scalar_from plaintext) e) ≢ panic
  open_total none e h = cc
  open_total (some plaintext) e h = ok_or_total (x.scalar_from plaintext) e h

  -- Decrypting a share panics exactly when it has fewer bytes than a nonce.
  pub decrypt_panics_iff :
      (share : EncryptedShare) (secret : List ℕ)
      → (decrypt {x = x} share secret ≡ panic) ↔ (length share.bytes < 12)
  unfolding decrypt
  decrypt_panics_iff share secret = elim (Bool-cases (ltb (length share.bytes) 12)) [
    | inl short ↦ (λ h. ltb-lt _ _ short, λ h. rw (short) refl)
    | inr long ↦ (
      λ h.
          let opened =
            ok_or (x.aes_decrypt secret (take 12 share.bytes) (drop 12 share.bytes))
              share_decryption_error
            >>= λ plaintext. ok_or (x.scalar_from plaintext) share_decryption_error in
          let same : opened ≡ decrypt {x = x} share secret = rw (long) refl in
          absurd (open_total _ share_decryption_error (same ∙ h)),
      λ h. absurd (ground (arith, long, h)),
    )
  ]
