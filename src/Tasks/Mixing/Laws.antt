-- ===== src/Tasks/Mixing/Laws.antt =====
-- What the tasks of the mixes (tasks.rs) post is signed.
use mathlib.Core.Path.{subst}
use cryptoballot.Prelude.{
  ◌%◌, ◌+◌, ◌≡◌, ap, ◌∙◌, refl, List, [], ◌∷◌, Option, none, some, ok, >>=-eq-ok, ok-injective, All,
  unwind, map, ◌==◌,
}
use cryptoballot.External.{External}
use cryptoballot.Identifier.{TransactionType, new}
use cryptoballot.Election.{ElectionTransaction, Trustee, MixConfig, Contest}
use cryptoballot.Transaction.{
  Cbor, Signed, SignedTransaction, VotingEndTransaction, MixTransaction, transaction_type, tx_id,
}
use cryptoballot.Transaction.Convert.{inner_vote, inner_encryption_key}
use cryptoballot.Validate.Mix.{mix}
use cryptoballot.Transaction.Ids.{new_mix, encryption_key_id, mix_id}
use cryptoballot.Store.{Store, get_election}
use cryptoballot.Validate.Traits.{mix_trait}
use cryptoballot.Validate.Signed.{sign_tx, verify_any}
use cryptoballot.Validate.Signed.Laws.{sign_tx-verify_signature}
use cryptoballot.Tasks.{mix_in_turn, next_mix, looked_up, read_all, trustee_from_election}
use cryptoballot.Tasks.Sound.{
  IsSigned, AreSigned, Yields-nothing, Yields->>=, Yields-if_trustee, Yields-if,
}
use cryptoballot.Tasks.Mixing.{
  contest_votes, ContestVotes, mix_contests, first_mixes, end_voting, process_voting_end, after_mix,
  process_mix,
}
use cryptoballot.Tasks.Partials.Laws.{produce_partials-AreSigned}

module _ {x : External} (b : Cbor x) where
  open x use {Rng, SecretKey, EncryptionKey, Ciphertext}

  signed_mix :
      (secret : SecretKey) (t : MixTransaction x) (u : Signed x (MixTransaction x))
      → t.id.transaction_type ≡ TransactionType.mix
      → sign_tx b mix_trait secret t ≡ ok u
      → IsSigned b (SignedTransaction.mix u)
  unfolding verify_any tx_id transaction_type
  signed_mix secret t u typed signs =
      let (same, good) = sign_tx-verify_signature b mix_trait secret t u signs in
      (good, ap (λ (t : MixTransaction x). t.id.transaction_type) same ∙ typed)

  mix_contests-AreSigned :
      (rng : Rng) (secret : SecretKey) (e : ElectionTransaction x) (trustee : Trustee x)
      (key : EncryptionKey) (entries : List (ContestVotes x))
      → AreSigned b (mix_contests b rng secret e trustee key entries)
  unfolding mix_contests new_mix mix_id new
  mix_contests-AreSigned rng secret e trustee key [] txs h = Yields-nothing (IsSigned b) txs h
  mix_contests-AreSigned rng secret e trustee key ((contest, votes) ∷ rest) txs h =
      let run = mix {x = x} rng (map (λ v. v.1) votes) key trustee.index 0 contest 0 in
      let (mixed, made, k) = >>=-eq-ok run.1 _ h in
      let t = new_mix e.id none trustee 0 contest 0 (map (λ v. v.0) votes) mixed.0 mixed.1 in
      let (u, signs, k2) = >>=-eq-ok (sign_tx b mix_trait secret t) _ k in
      let (more, others, k3) = >>=-eq-ok (mix_contests b run.0 secret e trustee key rest) _ k2 in
      subst (All (IsSigned b)) (ok-injective k3) (
        signed_mix secret t u refl signs,
        mix_contests-AreSigned run.0 secret e trustee key rest more others,
      )

  next_mix-AreSigned :
      (rng : Rng) (s : Store x) (e : ElectionTransaction x) (trustee : Trustee x)
      (secret : SecretKey) (t : MixTransaction x)
      → AreSigned b (mix_in_turn b rng s e trustee secret t)
  unfolding mix_in_turn next_mix new_mix mix_id new
  next_mix-AreSigned rng s e trustee secret t =
      Yields-if (IsSigned b) (trustee.index == (t.mix_index + 2) % 256) _ _
        (λ txs h.
          let (u, made, k) = >>=-eq-ok (next_mix b rng s e trustee secret t) _ h in
          let (tx, there, k2) =
            >>=-eq-ok (unwind (s.get_transaction (encryption_key_id e.id))) _ made in
          let (key, read, k3) = >>=-eq-ok (unwind (inner_encryption_key tx)) _ k2 in
          let (mixed, mixes, k4) =
            >>=-eq-ok
              ((mix rng t.mixed_ciphertexts key.encryption_key trustee.index
                ((t.mix_index + 1) % 256) t.contest_index 0).1)
              _ k3 in
          subst (All (IsSigned b)) (ok-injective k) (
            signed_mix secret
                (new_mix e.id none trustee ((t.mix_index + 1) % 256) t.contest_index 0 t.vote_ids
                  mixed.0 mixed.1)
                u refl k4,
            tt,
          ))
        (Yields-nothing (IsSigned b))

  after_mix-AreSigned :
      (rng : Rng) (secret : SecretKey) (s : Store x) (e : ElectionTransaction x)
      (trustee : Trustee x) (t : MixTransaction x) (config : Option MixConfig)
      → AreSigned b (after_mix b rng secret s e trustee t config)
  after_mix-AreSigned rng secret s e trustee t none = Yields-nothing (IsSigned b)
  after_mix-AreSigned rng secret s e trustee t (some config) =
      Yields-if (IsSigned b) (e.trustees_threshold == (t.mix_index + 1) % 256) _ _
        (produce_partials-AreSigned b rng secret s e trustee t.contest_index (some t))
        (next_mix-AreSigned rng s e trustee secret t)

  pub process_mix-AreSigned :
      (rng : Rng) (secret : SecretKey) (s : Store x) (t : MixTransaction x)
      → AreSigned b (process_mix b rng secret s t)
  unfolding process_mix
  process_mix-AreSigned rng secret s t =
      Yields->>= (IsSigned b) (looked_up (get_election s t.election_id)) _ λ e got.
        Yields-if_trustee (IsSigned b) (trustee_from_election e.tx (x.public_of secret)) _
          λ trustee chosen. after_mix-AreSigned rng secret s e.tx trustee t e.tx.mix_config

  module _ (order : List (ContestVotes x) → List (ContestVotes x)) where
    end_voting-AreSigned :
        (rng : Rng) (secret : SecretKey) (s : Store x) (e : ElectionTransaction x)
        (trustee : Trustee x) (config : Option MixConfig) (contests : List (Contest x))
        → AreSigned b (end_voting b order rng secret s e trustee config contests)
    unfolding first_mixes
    end_voting-AreSigned rng secret s e trustee (some config) contests =
        Yields-if (IsSigned b) (trustee.index == 1) _ _
          (Yields->>= (IsSigned b) (unwind (s.get_transaction (encryption_key_id e.id))) _ λ tx got.
            Yields->>= (IsSigned b) (unwind (inner_encryption_key tx)) _ λ key got.
              Yields->>= (IsSigned b) (unwind (read_all s inner_vote e.id TransactionType.vote)) _
                λ votes got.
                  mix_contests-AreSigned rng secret e trustee key.encryption_key
                    (order (contest_votes votes [])))
          (Yields-nothing (IsSigned b))
    end_voting-AreSigned rng secret s e trustee none [] = Yields-nothing (IsSigned b)
    end_voting-AreSigned rng secret s e trustee none (c ∷ cs) =
        produce_partials-AreSigned b rng secret s e trustee c.index none

    pub process_voting_end-AreSigned :
        (rng : Rng) (secret : SecretKey) (s : Store x) (t : VotingEndTransaction x)
        → AreSigned b (process_voting_end b order rng secret s t)
    unfolding process_voting_end
    process_voting_end-AreSigned rng secret s t =
        Yields->>= (IsSigned b) (looked_up (get_election s t.election)) _ λ e got.
          Yields-if_trustee (IsSigned b) (trustee_from_election e.tx (x.public_of secret)) _
            λ trustee chosen.
              end_voting-AreSigned rng secret s e.tx trustee e.tx.mix_config e.tx.contests
