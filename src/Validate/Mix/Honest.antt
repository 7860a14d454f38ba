-- ===== src/Validate/Mix/Honest.antt =====
-- `mix` against `verify_mix` (cryptoballot/src/mix.rs).
use cryptoballot.Prelude.{
  true, ◌⊎◌, ℕ, ◌≡◌, refl, List, ok, inl, inr, from_sum, from_sum-eq-ok, >>=-eq-ok, ok-injective,
}
use cryptoballot.External.{External}
use cryptoballot.Validate.Mix.{mix, prove_shuffle, verify_mix}

module _ {x : External} where
  open x use {
    Rng, Ciphertext, EncryptionKey, ShuffleProof, shuffle_new, gen_proof, shuffle_verify-gen_proof,
    CryptoError, Shuffle, into_outputs,
  }

  prove_shuffle-verify :
      (r r' : Rng) (inputs outputs : List (List Ciphertext)) (key : EncryptionKey)
      (proof : ShuffleProof) (ctx : x.PedersenCtx) (gens : x.Generators)
      (shuffle : CryptoError ⊎ Shuffle)
      → (shuffle_new r inputs key).1 ≡ shuffle
      → (prove_shuffle {x = x} r' shuffle ctx gens key).1 ≡ ok (outputs, proof)
      → x.shuffle_verify proof ctx gens inputs outputs key ≡ true
  unfolding prove_shuffle
  prove_shuffle-verify r r' inputs outputs key proof ctx gens (inl e) h k = cc
  prove_shuffle-verify r r' inputs outputs key proof ctx gens (inr shuffle) h k =
      let (p, made, rest) = >>=-eq-ok (from_sum _ (gen_proof shuffle r' ctx gens key).1) _ k in
      let made' =
        shuffle_verify-gen_proof r r' inputs key shuffle p ctx gens h (from_sum-eq-ok _ _ made) in
      let same = ok-injective rest in cc (made', same)

  -- Whenever `mix` returns ciphertexts and a proof, `verify_mix` accepts them for the same input, key,
  -- trustee, mix index, contest and batch.
  pub mix-verify_mix :
      (rng : Rng) (inputs outputs : List (List Ciphertext)) (key : EncryptionKey)
      (proof : ShuffleProof) (trustee_index mix_index contest_index batch : ℕ)
      → (mix {x = x} rng inputs key trustee_index mix_index contest_index batch).1
        ≡ ok (outputs, proof)
      → verify_mix {x = x} inputs outputs key proof trustee_index mix_index contest_index batch
        ≡ ok tt
  unfolding mix verify_mix
  mix-verify_mix rng inputs outputs key proof trustee_index mix_index contest_index batch h = rw (
      prove_shuffle-verify rng (shuffle_new rng inputs key).0 inputs outputs key proof _ _
        (shuffle_new rng inputs key).1 refl h)
