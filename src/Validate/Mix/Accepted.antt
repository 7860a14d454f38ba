-- ===== src/Validate/Mix/Accepted.antt =====
-- Accepted mixes, and chains of them (mix.rs).
use cryptoballot.Prelude.{
  unwind-eq-ok, ok_or-eq-ok, >>-eq-ok, ==_iff, unwind, ok_or, >>=-eq-ok, ap, require-eq-ok, ◌+◌,
  ◌%◌, ◌≡◌, sym, ◌∙◌, true, List, ok, length, some, none,
}
use cryptoballot.External.{External}
use cryptoballot.Identifier.{Identifier, TransactionType, new, start, end}
use cryptoballot.Identifier.Order.{id_eq_iff}
use cryptoballot.Election.{ElectionTransaction}
use cryptoballot.Transaction.{Signed, SignedTransaction, MixTransaction, EncryptionKeyTransaction}
use cryptoballot.Transaction.Convert.{inner_encryption_key}
use cryptoballot.Transaction.Ids.{mix_id}
use cryptoballot.Store.{Store, get_election}
use cryptoballot.Validate.{found-bind, is_some}
use cryptoballot.Validate.Keygen.Laws.{HasTrustee, trustee_exists-HasTrustee}
use cryptoballot.Validate.Mix.{
  mix_input, first_input, verify_mix, collect_ciphertexts, validate_mix,
}
use cryptoballot.Validate.Mix.Laws.{
  IsAscending, has_unique_elements-IsAscending, ids_of, accounted_for-eq,
}

module _ {x : External} where
  open x use {Ciphertext}

  -- What every accepted mix satisfies, whatever its place in the chain; `inputs` are the ciphertexts
  -- that it shuffles.
  pub record IsAccepted (s : Store x) (t : MixTransaction x) (inputs : List (List Ciphertext))
      : Type 0 where
    pub composed : t.id ≡ mix_id t.election_id t.contest_index t.batch t.mix_index t.trustee_index
    pub election : Signed x (ElectionTransaction x)
    pub stored : get_election s t.election_id ≡ ok election
    pub mixes : is_some election.tx.mix_config ≡ true
    pub trustee : HasTrustee election.tx.trustees t.trustee_index t.trustee_public_key
    pub in_turn : t.mix_index ≡ (t.trustee_index + 255) % 256
    pub counted : length t.mixed_ciphertexts ≡ length t.vote_ids
    pub input : mix_input s t t.prev_mix_id ≡ ok inputs
    pub key_tx : SignedTransaction x
    pub key : EncryptionKeyTransaction x
    pub key_stored :
        s.get_transaction (new t.election_id TransactionType.encryption_key none) ≡ some key_tx
    pub key_read : inner_encryption_key key_tx ≡ some key
    pub shuffled :
        verify_mix {x = x} inputs t.mixed_ciphertexts key.encryption_key t.proof t.trustee_index
          t.mix_index t.contest_index t.batch
        ≡ ok tt

  pub validate_mix-IsAccepted :
      (s : Store x) (t : MixTransaction x)
      → validate_mix s t ≡ ok tt
      → (inputs : List (List Ciphertext)) × IsAccepted s t inputs
  unfolding validate_mix
  validate_mix-IsAccepted s t h =
      let (composed, k1) = require-eq-ok _ _ _ h in
      let (e, there, k2) = found-bind (get_election s t.election_id) _ k1 in
      let (mixes, k3) = require-eq-ok _ _ _ k2 in
      let (trustee, k4) = require-eq-ok _ _ _ k3 in
      let (turn, k5) = require-eq-ok _ _ _ k4 in
      let (counted, k6) = require-eq-ok _ _ _ k5 in
      let (inputs, input, k7) = >>=-eq-ok (mix_input s t t.prev_mix_id) _ k6 in
      let (key_tx, key_stored, k8) = >>=-eq-ok (ok_or (s.get_transaction _) _) _ k7 in
      let (key, key_read, k9) = >>=-eq-ok (unwind (inner_encryption_key key_tx)) _ k8 in
      (
        inputs,
        record {
          composed = sym ((id_eq_iff _ _).0 composed);
          election = e;
          stored = there;
          mixes = mixes;
          trustee = trustee_exists-HasTrustee _ _ _ trustee;
          in_turn = (==_iff _ _).0 turn;
          counted = (==_iff _ _).0 counted;
          input = input;
          key_tx = key_tx;
          key = key;
          key_stored = ok_or-eq-ok _ _ key_stored;
          key_read = unwind-eq-ok _ key_read;
          shuffled = k9;
        },
      )

  first_input_sound :
      (s : Store x) (t : MixTransaction x) (inputs : List (List Ciphertext))
      → first_input s t ≡ ok inputs
      → (lo : Identifier) × (hi : Identifier) × (votes : List (SignedTransaction x)) × (t.mix_index
          ≡ 0)
        × IsAscending t.vote_ids
        × (start t.election_id TransactionType.vote none ≡ some lo)
        × (end t.election_id TransactionType.vote none ≡ some hi)
        × (s.range lo hi ≡ some votes)
        × (t.vote_ids ≡ ids_of votes)
        × (collect_ciphertexts t.contest_index votes ≡ some inputs)
  unfolding first_input
  first_input_sound s t inputs h =
      let (zeroth, k1) = require-eq-ok _ _ _ h in
      let (sorted, k2) = require-eq-ok _ _ _ k1 in
      let (unique, k3) = require-eq-ok _ _ _ k2 in
      let (lo, low, k4) = >>=-eq-ok (unwind (start t.election_id TransactionType.vote none)) _ k3 in
      let (hi, high, k5) = >>=-eq-ok (unwind (end t.election_id TransactionType.vote none)) _ k4 in
      let (votes, stored, k6) = >>=-eq-ok (unwind (s.range lo hi)) _ k5 in
      let (counted, k7) = require-eq-ok _ _ _ k6 in
      let (accounted, k8) = >>-eq-ok _ _ k7 in
      (
        lo,
        hi,
        votes,
        (==_iff _ _).0 zeroth,
        has_unique_elements-IsAscending t.vote_ids sorted unique,
        unwind-eq-ok _ low,
        unwind-eq-ok _ high,
        unwind-eq-ok _ stored,
        accounted_for-eq t.vote_ids votes ((==_iff _ _).0 counted) accounted,
        unwind-eq-ok _ k8,
      )

  abbrev pub IsFirstMix : Store x → MixTransaction x → Type 0
  IsFirstMix s t =
      (lo : Identifier) × (hi : Identifier) × (votes : List (SignedTransaction x)) × (inputs : List
        (List Ciphertext))
      × (key : EncryptionKeyTransaction x) × (t.mix_index ≡ 0)
      × IsAscending t.vote_ids
      × (start t.election_id TransactionType.vote none ≡ some lo)
      × (end t.election_id TransactionType.vote none ≡ some hi)
      × (s.range lo hi ≡ some votes)
      × (t.vote_ids ≡ ids_of votes)
      × (length t.mixed_ciphertexts ≡ length (ids_of votes))
      × (collect_ciphertexts t.contest_index votes ≡ some inputs)
      × (verify_mix {x = x} inputs t.mixed_ciphertexts key.encryption_key t.proof t.trustee_index
            t.mix_index t.contest_index t.batch
          ≡ ok tt)

  -- An accepted first mix, one that names no mix before it, has the mix index 0; its vote ids ascend
  -- strictly and are those of all the votes that the store's range for the election returns, none left
  -- out; it has one list of ciphertexts for each of these votes; and its proof verifies the shuffle of
  -- what those votes hold for the contest.
  pub validate_mix_first :
      (s : Store x) (t : MixTransaction x)
      → validate_mix s t ≡ ok tt
      → t.prev_mix_id ≡ none
      → IsFirstMix s t
  unfolding mix_input
  validate_mix_first s t h first =
      let (inputs, a) = validate_mix-IsAccepted s t h in
      let (lo, hi, votes, zeroth, ascending, low, high, stored, accounted, collected) =
        first_input_sound s t inputs (ap (mix_input s t) (sym first) ∙ a.input) in
      (
        lo,
        hi,
        votes,
        inputs,
        a.key,
        zeroth,
        ascending,
        low,
        high,
        stored,
        accounted,
        a.counted ∙ ap length accounted,
        collected,
        a.shuffled,
      )
