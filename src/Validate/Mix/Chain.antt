-- ===== src/Validate/Mix/Chain.antt =====
-- Later mixes, and chains of accepted mixes (mix.rs).
use cryptoballot.Validate.Mix.Accepted.{validate_mix-IsAccepted}
use mathlib.Core.Path.{subst}
use cryptoballot.Prelude.{
  some-injective, ok-injective, unwind-eq-ok, ok_or-eq-ok, unwind, ok_or, >>=-eq-ok, ap,
  require-eq-ok, ◌+◌, ◌%◌, ◌≡◌, refl, sym, ◌∙◌, arith, ok, length, some, none,
}
use cryptoballot.External.{External}
use cryptoballot.Identifier.{Identifier}
use cryptoballot.Identifier.Order.{id_eq_iff}
use cryptoballot.Transaction.{SignedTransaction, MixTransaction, EncryptionKeyTransaction}
use cryptoballot.Transaction.Convert.{inner_mix}
use cryptoballot.Store.{Store}
use cryptoballot.Validate.Mix.{mix_input, later_input, verify_mix, validate_mix}
use cryptoballot.Validate.Mix.Laws.{ids_eq_iff}

module _ {x : External} where
  open x use {Ciphertext}

  -- The later mix goes on from the earlier one.
  pub record Follows (t prev : MixTransaction x) : Type 0 where
    pub index : t.mix_index ≡ (prev.mix_index + 1) % 256
    pub same_election : t.election_id ≡ prev.election_id
    pub same_contest : t.contest_index ≡ prev.contest_index
    pub same_batch : t.batch ≡ prev.batch
    pub same_votes : t.vote_ids ≡ prev.vote_ids

  abbrev pub IsLaterMix : Store x → MixTransaction x → Identifier → Type 0
  IsLaterMix s t prev_mix_id =
      (tx : SignedTransaction x) × (prev : MixTransaction x) × (key : EncryptionKeyTransaction x)
      × (s.get_transaction prev_mix_id ≡ some tx)
      × (inner_mix tx ≡ some prev)
      × Follows t prev
      × (length t.mixed_ciphertexts ≡ length t.vote_ids)
      × (verify_mix {x = x} prev.mixed_ciphertexts t.mixed_ciphertexts key.encryption_key t.proof
            t.trustee_index t.mix_index t.contest_index t.batch
          ≡ ok tt)

  -- An accepted mix that names a mix before it: that is stored, it is a mix, the new mix follows it, and
  -- its proof verifies the shuffle of the ciphertexts of the mix before.
  pub validate_mix_later :
      (s : Store x) (t : MixTransaction x) (prev_mix_id : Identifier)
      → validate_mix s t ≡ ok tt
      → t.prev_mix_id ≡ some prev_mix_id
      → IsLaterMix s t prev_mix_id
  unfolding mix_input later_input
  validate_mix_later s t prev_mix_id h later =
      let (inputs, a) = validate_mix-IsAccepted s t h in
      let (tx, stored, k1) =
        >>=-eq-ok (ok_or (s.get_transaction prev_mix_id) _) _
          (ap (mix_input s t) (sym later) ∙ a.input) in
      let (prev, read, k2) = >>=-eq-ok (unwind (inner_mix tx)) _ k1 in
      let (tests, k3) = require-eq-ok _ _ _ k2 in
      (
        tx,
        prev,
        a.key,
        ok_or-eq-ok _ _ stored,
        unwind-eq-ok _ read,
        ground
            (arith, id_eq_iff t.election_id prev.election_id, ids_eq_iff t.vote_ids prev.vote_ids),
        a.counted,
        subst
            (λ i.
              verify_mix {x = x} i t.mixed_ciphertexts a.key.encryption_key t.proof t.trustee_index
                t.mix_index t.contest_index t.batch
              ≡ ok tt)
            (ok-injective (sym k3)) a.shuffled,
      )

  -- A mix with an accepted chain of mixes behind it, the first of them given.
  pub data Chain (s : Store x) (first : MixTransaction x) : MixTransaction x → Type 0 where
    begin : validate_mix s first ≡ ok tt → first.prev_mix_id ≡ none → Chain s first first
    next :
        {prev : MixTransaction x} (t : MixTransaction x) (id : Identifier)
        (tx : SignedTransaction x)
        → Chain s first prev
        → s.get_transaction id ≡ some tx
        → inner_mix tx ≡ some prev
        → t.prev_mix_id ≡ some id
        → validate_mix s t ≡ ok tt
        → Chain s first t

  -- Every mix of a chain has the vote ids, the election, the contest and the batch of the first one, and
  -- one list of ciphertexts for each vote: no vote is dropped or added on the way.
  pub Chain-votes :
      {s : Store x} {first t : MixTransaction x}
      → Chain s first t
      → (t.vote_ids ≡ first.vote_ids)
        × (t.election_id ≡ first.election_id)
        × (t.contest_index ≡ first.contest_index)
        × (t.batch ≡ first.batch)
        × (length t.mixed_ciphertexts ≡ length first.vote_ids)
  Chain-votes {s} {first} (begin h n) =
      (refl, refl, refl, refl, (validate_mix-IsAccepted s first h).1.counted)
  Chain-votes {s} (next {prev = p} t id tx c stored read named h) =
      let (votes, election, contest, batch, counted) = Chain-votes c in
      let (tx', prev, key, stored', read', follows, counted', _) =
        validate_mix_later s t id h named in
      let e : prev ≡ p =
        some-injective (sym read' ∙ ap inner_mix (some-injective (sym stored' ∙ stored)) ∙ read) in
      let v = follows.same_votes ∙ ap (λ (m : MixTransaction x). m.vote_ids) e ∙ votes in
      (
        v,
        follows.same_election ∙ ap (λ (m : MixTransaction x). m.election_id) e ∙ election,
        follows.same_contest ∙ ap (λ (m : MixTransaction x). m.contest_index) e ∙ contest,
        follows.same_batch ∙ ap (λ (m : MixTransaction x). m.batch) e ∙ batch,
        counted' ∙ ap length v,
      )
