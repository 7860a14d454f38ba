-- ===== src/Tasks/Partials/Accepted.antt =====
-- The partial decryptions that a trustee's server makes of a finished mix (tasks.rs), against the
-- trustee's key generation (trustee.rs) and the validation of the store (decryption.rs).
use cryptoballot.Prelude.{
  ℕ, suc, ◌+◌, ◌%◌, ◌<◌, ◌≡◌, sym, ap, ◌∙◌, refl, true, List, [], ◌∷◌, none, some, Result, ok,
  length, get_elem?, At, all_At, arith, All, ◌==◌, ==_iff, In-find, and-eq-true, ◌&&◌, ltb,
}
use cryptoballot.External.{External}
use cryptoballot.Errors.{Error}
use cryptoballot.Identifier.{Identifier, TransactionType, new}
use cryptoballot.Identifier.Order.{id_eq_iff}
use cryptoballot.Election.{ElectionTransaction, Trustee, MixConfig, get_full_trustees}
use cryptoballot.Transaction.{
  Cbor, Signed, SignedTransaction, MixTransaction, KeyGenPublicKeyTransaction,
  PartialDecryptionTransaction, transaction_type, tx_id,
}
use cryptoballot.Transaction.Ids.{
  new_key_gen_public_key, new_partial_decryption, partial_decryption_id, key_gen_public_key_id,
}
use cryptoballot.Store.{Store, get_election, get_mix, get_keygen_public_key}
use cryptoballot.Trustee.{generate_public_key}
use cryptoballot.Trustee.Threshold.{generate_public_key-partial_decrypt}
use cryptoballot.Validate.Upstream.{
  encrypted_vote_from_upstream_tx, upstream_ciphertexts, mix_ciphertexts, swap_remove,
}
use cryptoballot.Validate.Decryption.{check_proofs, validate_partial_decryption}
use cryptoballot.Validate.Traits.{partial_decryption_trait}
use cryptoballot.Validate.Signed.{verify_any, validate, validate_tx, unsigned}
use cryptoballot.Validate.Signed.Laws.{validate_iff}
use cryptoballot.Tasks.{trustee_from_election}
use cryptoballot.Tasks.Sound.{trustee_from_election_sound, sign_tx_own}
use cryptoballot.Tasks.Partials.{
  Material, decrypt_all, make_partial, partials_of_mix, partials_of, read_material,
  produce_partials,
}

module _ {x : External} (b : Cbor x) (s : Store x) where
  -- What a task makes: as many transactions as given, all of which the store accepts.
  abbrev pub AreAccepted : Result (Error x) (List (SignedTransaction x)) → ℕ → Type 0
  AreAccepted run n =
      (txs : List (SignedTransaction x)) × (run ≡ ok txs)
      × (length txs ≡ n)
      × All (λ u. validate b s u ≡ ok tt) txs

-- A trustee with its secret key, in an election, that has made its public key from the material.
module _ {x : External} (e : ElectionTransaction x) (secret : x.SecretKey) (trustee : Trustee x)
    (m : Material x) (made : x.EncryptionKey × x.PubkeyProof)
    (generated : generate_public_key trustee secret m.x25519_public_keys m.commitments m.shares e.id
      ≡ ok made) where
  open x use {Rng, Ciphertext, DecryptShare}

  -- The shares for the ciphertexts from the `i`th on.
  abbrev pub Decrypts : Rng → List Ciphertext → ℕ → List Ciphertext → Type 0
  Decrypts rng all i cs =
      (out : Rng × List DecryptShare) × (decrypt_all rng secret e trustee m cs ≡ ok out)
      × (length out.1 ≡ length cs)
      × (check_proofs {x = x} made.1 all i out.1 ≡ ok tt)

  -- A trustee decrypts every ciphertext, and its shares pass the check of the proofs.
  pub decrypt_all-check_proofs :
      (rng : Rng) (all : List Ciphertext) (i : ℕ) (cs : List Ciphertext)
      → At all i cs
      → Decrypts rng all i cs
  unfolding decrypt_all check_proofs
  decrypt_all-check_proofs rng all i [] at = ((rng, []), refl, refl, refl)
  decrypt_all-check_proofs rng all i (c ∷ cs) (there, at) =
      let (one, decrypts, good) =
        generate_public_key-partial_decrypt rng trustee secret m.x25519_public_keys m.commitments
          m.shares e.id made c generated in
      let (more, others, counted, checks) = decrypt_all-check_proofs one.0 all (suc i) cs at in
      (
        (more.0, one.1 ∷ more.1),
        rw (decrypts, others) refl,
        ap suc counted,
        rw (there, good) checks,
      )

  module _ (b : Cbor x) (s : Store x) (sig : x.Signature)
      (there : get_election s e.id ≡ ok (record { tx = e; sig = sig }))
      (chosen : trustee_from_election e (x.public_of secret) ≡ some trustee)
      (end_ : SignedTransaction x)
      (ended : s.get_transaction (new e.id TransactionType.voting_end none) ≡ some end_)
      (k : Signed x (KeyGenPublicKeyTransaction x))
      (posted : get_keygen_public_key s (key_gen_public_key_id e.id trustee.index) ≡ ok k)
      (own_key : k.tx
        ≡ new_key_gen_public_key e.id trustee.index trustee.public_key made.0 made.1) where
    accepted_contents :
        (up : Identifier) (i c : ℕ) (cs : List Ciphertext) (shares : List DecryptShare)
        → encrypted_vote_from_upstream_tx s up i c e.mix_config ≡ ok cs
        → length shares ≡ length cs
        → check_proofs {x = x} made.1 cs 0 shares ≡ ok tt
        → validate_partial_decryption s
            (new_partial_decryption e.id up i trustee.index c (x.public_of secret) shares)
          ≡ ok tt
    unfolding validate_partial_decryption new_partial_decryption new_key_gen_public_key
    accepted_contents up i c cs shares upstream counted checks =
        let (member, own) = trustee_from_election_sound e (x.public_of secret) trustee chosen in
        let index_same = (==_iff trustee.index trustee.index).1 refl in
        let key_same = (x.key_eq_iff trustee.public_key (x.public_of secret)).1 own in
        let (u, finds, both) =
          In-find
            (λ (t : Trustee x).
              t.index == trustee.index && x.key_eq t.public_key (x.public_of secret))
            (get_full_trustees e) trustee member (rw (index_same, key_same) refl) in
        let (u_index, u_key) = and-eq-true _ _ both in
        let composed =
          (id_eq_iff (partial_decryption_id e.id up c i trustee.index)
              (partial_decryption_id e.id up c i trustee.index)).1
            refl in
        let swapped = (x.key_eq_iff (x.public_of secret) trustee.public_key).1 (sym own) in
        let as_many = (==_iff (length cs) (length shares)).1 (sym counted) in
        rw
          (
            there,
            finds,
            (==_iff u.index trustee.index).0 u_index,
            composed,
            ended,
            upstream,
            posted,
            own_key,
            index_same,
            swapped,
            as_many,
          )
          checks

    -- What a step of the loops makes: a partial decryption that the store accepts.
    abbrev pub Makes : Rng → Identifier → ℕ → ℕ → List Ciphertext → Type 0
    Makes rng up i c cs =
        (r : Rng × SignedTransaction x) × (make_partial b rng secret e trustee m up i c cs ≡ ok r)
        × (validate b s r.1 ≡ ok tt)

    pub make_partial-validate :
        (rng : Rng) (up : Identifier) (i c : ℕ) (cs : List Ciphertext)
        → encrypted_vote_from_upstream_tx s up i c e.mix_config ≡ ok cs
        → Makes rng up i c cs
    unfolding make_partial validate_tx unsigned verify_any tx_id transaction_type
        new_partial_decryption partial_decryption_id new
    make_partial-validate rng up i c cs upstream =
        let (out, decrypts, counted, checks) = decrypt_all-check_proofs rng cs 0 cs (all_At cs) in
        let t = new_partial_decryption e.id up i trustee.index c (x.public_of secret) out.1 in
        let (u, signs, same, good) = sign_tx_own b partial_decryption_trait secret t refl in
        (
          (out.0, SignedTransaction.partial_decryption u),
          rw (decrypts, signs) refl,
          (validate_iff b s (SignedTransaction.partial_decryption u)).1 (
            ap (λ (v : PartialDecryptionTransaction x). v.id.transaction_type) same,
            (good, rw (same) (accepted_contents up i c cs out.1 upstream counted checks)),
          ),
        )

    -- A finished mix that the store has, in an election with a mix, with less than 2 ^ 16 outputs.
    module _ (t : MixTransaction x) (mix_sig : x.Signature)
        (stored : get_mix s t.id ≡ ok (record { tx = t; sig = mix_sig }))
        (typed : t.id.transaction_type ≡ TransactionType.mix) (config : MixConfig)
        (mixes : e.mix_config ≡ some config) (few : length t.mixed_ciphertexts < 65536) where
      upstream_of_mix :
          (i : ℕ) (cs : List Ciphertext)
          → i < length t.mixed_ciphertexts
          → get_elem? t.mixed_ciphertexts i ≡ some cs
          → encrypted_vote_from_upstream_tx s t.id i t.contest_index e.mix_config ≡ ok cs
      unfolding encrypted_vote_from_upstream_tx upstream_ciphertexts mix_ciphertexts swap_remove
      upstream_of_mix i cs inside at =
          let same = (==_iff t.contest_index t.contest_index).1 refl in
          let kept : length t.mixed_ciphertexts % 65536 ≡ length t.mixed_ciphertexts =
            omega (arith, few) in
          let below : ltb i (length t.mixed_ciphertexts) ≡ true = ground (arith, inside) in
          ap (λ kind. upstream_ciphertexts kind s t.id i t.contest_index e.mix_config) typed
          ∙ rw (stored, same, mixes, kept, below, at) refl

      partials_of_mix-validate :
          (rng : Rng) (i : ℕ) (outputs : List (List Ciphertext))
          → At t.mixed_ciphertexts i outputs
          → i + length outputs ≡ length t.mixed_ciphertexts
          → AreAccepted b s
              (partials_of_mix b rng secret e trustee m t.id t.contest_index i outputs)
              (length outputs)
      unfolding partials_of_mix
      partials_of_mix-validate rng i [] at n = ([], refl, refl, tt)
      partials_of_mix-validate rng i (cs ∷ rest) (here, at) n =
          let small : i % 65536 ≡ i = omega (arith, few, n) in
          let (r, first, accepted) =
            make_partial-validate rng t.id i t.contest_index cs
              (upstream_of_mix i cs (omega (arith, n)) here) in
          let (txs, others, counted, all) =
            partials_of_mix-validate r.0 (suc i) rest at (omega (arith, n)) in
          let first' =
            ap (λ j. make_partial b rng secret e trustee m t.id j t.contest_index cs) small
            ∙ first in
          (r.1 ∷ txs, rw (first', others) refl, ap suc counted, (accepted, all))

      -- In a stored election with mixes whose end of voting is stored, the server of one of its trustees
      -- answers a stored mix of fewer than 65536 outputs with a partial decryption of every output, all of which
      -- its store accepts: when the trustee can generate its public key from the material that the server reads, and
      -- the store has the trustee's transaction of that key.
      pub produce_partials-validate :
          (rng : Rng)
          → read_material s e trustee ≡ some m
          → AreAccepted b s
              (produce_partials b rng secret s e trustee t.contest_index (some t))
              (length t.mixed_ciphertexts)
      unfolding produce_partials partials_of
      produce_partials-validate rng read =
          let (txs, run, counted, all) =
            partials_of_mix-validate rng 0 t.mixed_ciphertexts (all_At t.mixed_ciphertexts)
              (omega arith) in
          (txs, rw (read) run, counted, all)
