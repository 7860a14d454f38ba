-- ===== src/Tasks/Partials/Laws.antt =====
-- The partial decryptions that a server makes (tasks.rs) are signed.
use mathlib.Core.Path.{subst}
use cryptoballot.Prelude.{
  ◌%◌, ℕ, suc, ◌≡◌, ap, List, [], ◌∷◌, Option, none, some, ok, >>=-eq-ok, ok-injective, All,
  All-append, unwind,
}
use cryptoballot.External.{External}
use cryptoballot.Identifier.{Identifier, TransactionType, new}
use cryptoballot.Election.{ElectionTransaction, Trustee}
use cryptoballot.Transaction.{
  Cbor, SignedTransaction, MixTransaction, PartialDecryptionTransaction, EncryptedVote,
  transaction_type, tx_id,
}
use cryptoballot.Transaction.Convert.{inner_vote}
use cryptoballot.Transaction.Ids.{new_partial_decryption, partial_decryption_id}
use cryptoballot.Store.{Store, get_multiple}
use cryptoballot.Validate.Traits.{partial_decryption_trait}
use cryptoballot.Validate.Signed.{sign_tx, verify_any}
use cryptoballot.Validate.Signed.Laws.{sign_tx-verify_signature}
use cryptoballot.Tasks.Sound.{IsSigned, AreSigned, Yields-nothing, Yields->>=}
use cryptoballot.Tasks.Partials.{
  Material, decrypt_all, read_material, make_partial, partials_of_mix, partials_of_vote,
  partials_of_votes, partials_of, produce_partials,
}

module _ {x : External} (b : Cbor x) where
  open x use {Rng, SecretKey, EncryptionKey, Ciphertext}

  pub make_partial-IsSigned :
      (rng : Rng) (secret : SecretKey) (e : ElectionTransaction x) (trustee : Trustee x)
      (m : Material x) (up : Identifier) (i c : ℕ) (cs : List Ciphertext)
      (made : Rng × SignedTransaction x)
      → make_partial b rng secret e trustee m up i c cs ≡ ok made
      → IsSigned b made.1
  unfolding make_partial verify_any tx_id transaction_type new_partial_decryption
      partial_decryption_id new
  make_partial-IsSigned rng secret e trustee m up i c cs made h =
      let (shares, read, k) = >>=-eq-ok (decrypt_all rng secret e trustee m cs) _ h in
      let tx = new_partial_decryption e.id up i trustee.index c (x.public_of secret) shares.1 in
      let (signed, signs, k2) = >>=-eq-ok (sign_tx b partial_decryption_trait secret tx) _ k in
      let (same, good) =
        sign_tx-verify_signature b partial_decryption_trait secret tx signed signs in
      subst (λ (r : Rng × SignedTransaction x). IsSigned b r.1) (ok-injective k2)
        (good, ap (λ (t : PartialDecryptionTransaction x). t.id.transaction_type) same)

  partials_of_mix-AreSigned :
      (rng : Rng) (secret : SecretKey) (e : ElectionTransaction x) (trustee : Trustee x)
      (m : Material x) (up : Identifier) (c i : ℕ) (outputs : List (List Ciphertext))
      → AreSigned b (partials_of_mix b rng secret e trustee m up c i outputs)
  unfolding partials_of_mix
  partials_of_mix-AreSigned rng secret e trustee m up c i [] txs h =
      Yields-nothing (IsSigned b) txs h
  partials_of_mix-AreSigned rng secret e trustee m up c i (cs ∷ rest) txs h =
      let (made, first, k) =
        >>=-eq-ok (make_partial b rng secret e trustee m up (i % 65536) c cs) _ h in
      let (more, others, k2) =
        >>=-eq-ok (partials_of_mix b made.0 secret e trustee m up c (suc i) rest) _ k in
      subst (All (IsSigned b)) (ok-injective k2) (
        make_partial-IsSigned rng secret e trustee m up (i % 65536) c cs made first,
        partials_of_mix-AreSigned made.0 secret e trustee m up c (suc i) rest more others,
      )

  partials_of_vote-All :
      (rng : Rng) (secret : SecretKey) (e : ElectionTransaction x) (trustee : Trustee x)
      (m : Material x) (up : Identifier) (votes : List (EncryptedVote x))
      (made : Rng × List (SignedTransaction x))
      → partials_of_vote b rng secret e trustee m up votes ≡ ok made
      → All (IsSigned b) made.1
  unfolding partials_of_vote
  partials_of_vote-All rng secret e trustee m up [] made h =
      subst (λ (r : Rng × List (SignedTransaction x)). All (IsSigned b) r.1) (ok-injective h) tt
  partials_of_vote-All rng secret e trustee m up (v ∷ rest) made h =
      let (one, first, k) =
        >>=-eq-ok (make_partial b rng secret e trustee m up 0 v.contest_index v.selections) _ h in
      let (more, others, k2) =
        >>=-eq-ok (partials_of_vote b one.0 secret e trustee m up rest) _ k in
      subst (λ (r : Rng × List (SignedTransaction x)). All (IsSigned b) r.1) (ok-injective k2)
        (
          make_partial-IsSigned rng secret e trustee m up 0 v.contest_index v.selections one first,
          partials_of_vote-All one.0 secret e trustee m up rest more others,
        )

  partials_of_votes-AreSigned :
      (rng : Rng) (secret : SecretKey) (e : ElectionTransaction x) (trustee : Trustee x)
      (m : Material x) (votes : List (SignedTransaction x))
      → AreSigned b (partials_of_votes b rng secret e trustee m votes)
  unfolding partials_of_votes
  partials_of_votes-AreSigned rng secret e trustee m [] txs h = Yields-nothing (IsSigned b) txs h
  partials_of_votes-AreSigned rng secret e trustee m (tx ∷ rest) txs h =
      let (vote, read, k) = >>=-eq-ok (unwind (inner_vote tx)) _ h in
      let (made, first, k2) =
        >>=-eq-ok (partials_of_vote b rng secret e trustee m vote.id vote.encrypted_votes) _ k in
      let (more, others, k3) =
        >>=-eq-ok (partials_of_votes b made.0 secret e trustee m rest) _ k2 in
      subst (All (IsSigned b)) (ok-injective k3) (
        All-append (IsSigned b) made.1 more
          (partials_of_vote-All rng secret e trustee m vote.id vote.encrypted_votes made first)
          (partials_of_votes-AreSigned made.0 secret e trustee m rest more others))

  partials_of-AreSigned :
      (rng : Rng) (secret : SecretKey) (s : Store x) (e : ElectionTransaction x)
      (trustee : Trustee x) (m : Material x) (c : ℕ) (mix_tx : Option (MixTransaction x))
      → AreSigned b (partials_of b rng secret s e trustee m c mix_tx)
  unfolding partials_of
  partials_of-AreSigned rng secret s e trustee m c (some t) =
      partials_of_mix-AreSigned rng secret e trustee m t.id c 0 t.mixed_ciphertexts
  partials_of-AreSigned rng secret s e trustee m c none =
      Yields->>= (IsSigned b) (unwind (get_multiple s e.id TransactionType.vote)) _
        λ txs got. partials_of_votes-AreSigned rng secret e trustee m txs

  pub produce_partials-AreSigned :
      (rng : Rng) (secret : SecretKey) (s : Store x) (e : ElectionTransaction x)
      (trustee : Trustee x) (c : ℕ) (mix_tx : Option (MixTransaction x))
      → AreSigned b (produce_partials b rng secret s e trustee c mix_tx)
  unfolding produce_partials
  produce_partials-AreSigned rng secret s e trustee c mix_tx =
      Yields->>= (IsSigned b) (unwind (read_material s e trustee)) _
        λ m got. partials_of-AreSigned rng secret s e trustee m c mix_tx
