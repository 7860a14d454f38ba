-- ===== src/Tasks/Laws.antt =====
-- The mixes that a trustee's server makes (tasks.rs), against their validation.
use mathlib.Core.Path.{subst}
use cryptoballot.Prelude.{
  ℕ, ◌+◌, ◌%◌, ◌<◌, ◌≡◌, ◌≢◌, sym, ap, ◌∙◌, List, none, some, ok, >>=-eq-ok, unwind, unwind-eq-ok,
  arith,
}
use cryptoballot.External.{External}
use cryptoballot.Election.{ElectionTransaction, Trustee}
use cryptoballot.Transaction.{
  Cbor, Signed, SignedTransaction, MixTransaction, EncryptionKeyTransaction,
}
use cryptoballot.Transaction.Convert.{inner_encryption_key}
use cryptoballot.Transaction.Ids.{encryption_key_id, new_mix}
use cryptoballot.Store.{Store}
use cryptoballot.Validate.Mix.{mix, verify_mix, validate_mix}
use cryptoballot.Validate.Mix.Accepted.{validate_mix_first}
use cryptoballot.Validate.Mix.Honest.{mix-verify_mix}
use cryptoballot.Validate.Traits.{mix_trait}
use cryptoballot.Validate.Signed.{verify_signature}
use cryptoballot.Validate.Signed.Laws.{sign_tx-verify_signature}
use cryptoballot.Tasks.{next_mix}

index_positive : (n : ℕ) → n < 255 → (n + 1) % 256 ≢ 0
index_positive n h e = absurd (omega arith)

module _ {x : External} (b : Cbor x) where
  open x use {Rng, SecretKey, Ciphertext, ShuffleProof}

  -- What the server makes: a mix of the same votes, the next in order, which names no mix before it.
  abbrev pub IsNext :
      ElectionTransaction x → Trustee x → MixTransaction x → MixTransaction x → Type 0
  IsNext e trustee m t =
      (mixed : List (List Ciphertext)) × (proof : ShuffleProof) × (t
        ≡ new_mix e.id none trustee ((m.mix_index + 1) % 256) m.contest_index 0 m.vote_ids mixed
            proof)

  -- What follows for the signed mix, with the encryption key of the store.
  abbrev pub Shuffles :
      Store x
      → ElectionTransaction x
      → Trustee x
      → MixTransaction x
      → Signed x (MixTransaction x)
      → Type 0
  Shuffles s e trustee m t =
      (tx : SignedTransaction x) × (key : EncryptionKeyTransaction x) × (s.get_transaction
          (encryption_key_id e.id)
        ≡ some tx)
      × (inner_encryption_key tx ≡ some key)
      × IsNext e trustee m t.tx
      × (verify_mix {x = x} m.mixed_ciphertexts t.tx.mixed_ciphertexts key.encryption_key t.tx.proof
            t.tx.trustee_index t.tx.mix_index t.tx.contest_index t.tx.batch
          ≡ ok tt)
      × (verify_signature b mix_trait t ≡ ok tt)

  -- The mix that the server makes goes on from the given one with the same votes, its proof verifies the
  -- shuffle of the given ciphertexts, and it carries a valid signature.
  pub next_mix_sound :
      (rng : Rng) (s : Store x) (e : ElectionTransaction x) (trustee : Trustee x)
      (secret : SecretKey) (m : MixTransaction x) (t : Signed x (MixTransaction x))
      → next_mix b rng s e trustee secret m ≡ ok t
      → Shuffles s e trustee m t
  unfolding next_mix new_mix
  next_mix_sound rng s e trustee secret m t h =
      let (tx, there, k) = >>=-eq-ok (unwind (s.get_transaction (encryption_key_id e.id))) _ h in
      let (key, read, k2) = >>=-eq-ok (unwind (inner_encryption_key tx)) _ k in
      let ((mixed, proof), made, k3) =
        >>=-eq-ok
          ((mix rng m.mixed_ciphertexts key.encryption_key trustee.index ((m.mix_index + 1) % 256)
            m.contest_index 0).1)
          _ k2 in
      let (same, signed) =
        sign_tx-verify_signature b mix_trait secret
          (new_mix e.id none trustee ((m.mix_index + 1) % 256) m.contest_index 0 m.vote_ids mixed
            proof)
          t k3 in
      (
        tx,
        key,
        unwind-eq-ok _ there,
        unwind-eq-ok _ read,
        (mixed, proof, same),
        subst
            (λ (u : MixTransaction x).
              verify_mix {x = x} m.mixed_ciphertexts u.mixed_ciphertexts key.encryption_key u.proof
                u.trustee_index u.mix_index u.contest_index u.batch
              ≡ ok tt)
            (sym same)
            (mix-verify_mix rng m.mixed_ciphertexts mixed key.encryption_key proof trustee.index
              ((m.mix_index + 1) % 256) m.contest_index 0 made),
        signed,
      )

  -- No store accepts a mix that the server makes after a mix with an index below 255: it names no mix
  -- before it, and its index is not 0.
  pub next_mix_rejected :
      (rng : Rng) (s s' : Store x) (e : ElectionTransaction x) (trustee : Trustee x)
      (secret : SecretKey) (m : MixTransaction x) (t : Signed x (MixTransaction x))
      → m.mix_index < 255
      → next_mix b rng s e trustee secret m ≡ ok t
      → validate_mix s' t.tx ≢ ok tt
  unfolding new_mix
  next_mix_rejected rng s s' e trustee secret m t small h accepted =
      let (_, _, _, _, (mixed, proof, same), _, _) = next_mix_sound rng s e trustee secret m t h in
      let (_, _, _, _, _, zeroth, _, _, _, _, _, _, _, _) =
        validate_mix_first s' t.tx accepted (ap (λ (u : MixTransaction x). u.prev_mix_id) same) in
      index_positive m.mix_index small
        (sym (ap (λ (u : MixTransaction x). u.mix_index) same) ∙ zeroth)
