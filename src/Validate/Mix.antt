-- ===== src/Validate/Mix.antt =====
-- `validate_tx`, `mix` and `verify_mix` of cryptoballot/src/mix.rs. A byte that is decreased or
-- increased wraps, as in a release build.
pub mod Laws
pub mod Honest
pub mod Accepted
pub mod Chain
use Prim.Native.Nat.{Ordering}
use cryptoballot.Prelude.{
  ◌⊎◌, inl, inr, from_sum, ℕ, zero, suc, ◌+◌, ◌%◌, Bool, true, false, not, ◌&&◌, ◌||◌, List, [],
  ◌∷◌, ◌++◌, Option, none, some, Result, ok, err, panic, ◌>>=◌, ◌>>◌, require, unwind, ok_or,
  map_err, and_then, length, ◌==◌, any, all, get_elem?, if◌then◌else◌,
}
use cryptoballot.Bytes.{u32_to_be_bytes}
use cryptoballot.External.{External}
use cryptoballot.Errors.{
  Error, shuffle_error, ValidationError, identifier_bad_composition, no_mixnet_config,
  trustee_does_not_exist, out_of_order_mix, mix_wrong_number_of_votes, missing_prev_mix_transaction,
  invalid_prev_mix_transaction, mix_vote_ids_not_sorted, mix_votes_not_accounted_for,
  encryption_key_transaction_does_not_exist, shuffle_verification_failed,
}
use cryptoballot.Identifier.{Identifier, TransactionType, id_eq, cmp, new, start, end}
use cryptoballot.BTreeMap.{cmp_le}
use cryptoballot.Election.{trustee_exists}
use cryptoballot.Transaction.{
  SignedTransaction, EncryptedVote, VoteTransaction, MixTransaction, tx_id,
}
use cryptoballot.Transaction.Convert.{inner_vote, inner_mix, inner_encryption_key}
use cryptoballot.Transaction.Ids.{mix_id}
use cryptoballot.Store.{Store, get_election}
use cryptoballot.Validate.{found, is_some}

-- `Vec<Identifier>::eq`
unfoldable pub ids_eq : List Identifier → List Identifier → Bool
ids_eq [] [] = true
ids_eq [] (b ∷ bs) = false
ids_eq (a ∷ xs) [] = false
ids_eq (a ∷ xs) (b ∷ bs) = id_eq a b && ids_eq xs bs

-- `is_sorted`
unfoldable pub is_sorted : List Identifier → Bool
is_sorted [] = true
is_sorted (a ∷ []) = true
is_sorted (a ∷ b ∷ rest) = cmp_le (cmp a b) && is_sorted (b ∷ rest)

-- `has_unique_elements`, with the hash set as the list of what was inserted
unfoldable pub unique_from : List Identifier → List Identifier → Bool
unique_from uniq [] = true
unique_from uniq (a ∷ rest) = not (any (id_eq a) uniq) && unique_from (a ∷ uniq) rest

unfoldable pub has_unique_elements : List Identifier → Bool
unfolding unique_from
has_unique_elements = unique_from []

unfoldable pub generate_pedersen_seed : ℕ → ℕ → ℕ → ℕ → List ℕ
generate_pedersen_seed trustee_index mix_index contest_index batch =
    trustee_index ∷ mix_index ∷ (u32_to_be_bytes contest_index ++ u32_to_be_bytes batch)

module _ {x : External} where
  open x use {
    Ciphertext, EncryptionKey, CryptoError, ShuffleProof, Rng, with_generators, shuffle_new,
    gen_proof, into_outputs, shuffle_verify,
  }

  unfoldable pub verify_mix :
      List (List Ciphertext)
      → List (List Ciphertext)
      → EncryptionKey
      → ShuffleProof
      → ℕ
      → ℕ
      → ℕ
      → ℕ
      → Result (ValidationError x) Unit
  unfolding generate_pedersen_seed
  verify_mix inputs outputs key proof trustee_index mix_index contest_index batch =
      let seed = generate_pedersen_seed trustee_index mix_index contest_index batch in
      let (ctx, generators) = with_generators seed (length inputs) in
      require (shuffle_verify proof ctx generators inputs outputs key) shuffle_verification_failed

  -- the rest of `mix` after the shuffle
  unfoldable pub prove_shuffle :
      Rng
      → CryptoError ⊎ x.Shuffle
      → x.PedersenCtx
      → x.Generators
      → EncryptionKey
      → Rng × Result (Error x) (List (List Ciphertext) × ShuffleProof)
  prove_shuffle rng (inl e) ctx generators key = (rng, err (shuffle_error e))
  prove_shuffle rng (inr shuffle) ctx generators key =
      let (rng', proof) = gen_proof shuffle rng ctx generators key in
      (rng', (do p ← from_sum shuffle_error proof; ok (into_outputs shuffle, p)))

  -- the random numbers used are drawn from the generator that is passed on
  unfoldable pub mix :
      Rng
      → List (List Ciphertext)
      → EncryptionKey
      → ℕ
      → ℕ
      → ℕ
      → ℕ
      → Rng × Result (Error x) (List (List Ciphertext) × ShuffleProof)
  unfolding generate_pedersen_seed prove_shuffle
  mix rng ciphertexts key trustee_index mix_index contest_index batch =
      let seed = generate_pedersen_seed trustee_index mix_index contest_index batch in
      let (ctx, generators) = with_generators seed (length ciphertexts) in
      let (rng', shuffle) = shuffle_new rng ciphertexts key in
      prove_shuffle rng' shuffle ctx generators key

  -- the loop that compares the vote ids with those of the store
  unfoldable pub accounted_for :
      List Identifier → ℕ → List (SignedTransaction x) → Result (ValidationError x) Unit
  accounted_for vote_ids i [] = ok tt
  accounted_for vote_ids i (tx ∷ rest) = do
    id ← unwind (get_elem? vote_ids i)
    require (id_eq id (tx_id tx)) mix_votes_not_accounted_for
    accounted_for vote_ids (suc i) rest

  -- the selections of a vote for a contest
  unfoldable pub contest_selections : ℕ → List (EncryptedVote x) → List (List Ciphertext)
  contest_selections contest_index [] = []
  contest_selections contest_index (e ∷ rest) =
      let more = contest_selections contest_index rest in
      if e.contest_index == contest_index then e.selections ∷ more else more

  unfoldable pub collect_ciphertexts :
      ℕ → List (SignedTransaction x) → Option (List (List Ciphertext))
  unfolding contest_selections
  collect_ciphertexts contest_index [] = some []
  collect_ciphertexts contest_index (t ∷ rest) = and_then (inner_vote t) λ vote.
      and_then (collect_ciphertexts contest_index rest)
        λ more. some (contest_selections contest_index vote.encrypted_votes ++ more)

  -- the input of a later mix: the output of the mix before it
  unfoldable pub later_input :
      Store x → MixTransaction x → Identifier → Result (ValidationError x) (List (List Ciphertext))
  unfolding ids_eq
  later_input s t prev_mix_id = do
    tx ← ok_or (s.get_transaction prev_mix_id) missing_prev_mix_transaction
    prev ← unwind (inner_mix tx)
    require
        (t.mix_index == (prev.mix_index + 1) % 256
          && (id_eq t.election_id prev.election_id
              && (t.contest_index == prev.contest_index
                  && (t.batch == prev.batch && ids_eq t.vote_ids prev.vote_ids))))
        invalid_prev_mix_transaction
    ok prev.mixed_ciphertexts

  -- the input of the first mix: the votes of the store
  unfoldable pub first_input :
      Store x → MixTransaction x → Result (ValidationError x) (List (List Ciphertext))
  unfolding is_sorted has_unique_elements accounted_for collect_ciphertexts
  first_input s t = do
    require (t.mix_index == 0) out_of_order_mix
    require (is_sorted t.vote_ids) mix_vote_ids_not_sorted
    require (has_unique_elements t.vote_ids) mix_vote_ids_not_sorted
    lo ← unwind (start t.election_id TransactionType.vote none)
    hi ← unwind (end t.election_id TransactionType.vote none)
    votes ← unwind (s.range lo hi)
    require (length votes == length t.vote_ids) mix_wrong_number_of_votes
    accounted_for t.vote_ids 0 votes
    unwind (collect_ciphertexts t.contest_index votes)

  unfoldable pub mix_input :
      Store x
      → MixTransaction x
      → Option Identifier
      → Result (ValidationError x) (List (List Ciphertext))
  unfolding later_input first_input
  mix_input s t none = first_input s t
  mix_input s t (some prev_mix_id) = later_input s t prev_mix_id

  unfoldable pub validate_mix : Store x → MixTransaction x → Result (ValidationError x) Unit
  validate_mix s t = do
    require (id_eq (mix_id t.election_id t.contest_index t.batch t.mix_index t.trustee_index) t.id)
        identifier_bad_composition
    election ← found (get_election s t.election_id)
    require (is_some election.tx.mix_config) no_mixnet_config
    require (trustee_exists election.tx.trustees t.trustee_index t.trustee_public_key)
        (trustee_does_not_exist t.trustee_index)
    require (t.mix_index == (t.trustee_index + 255) % 256) out_of_order_mix
    require (length t.mixed_ciphertexts == length t.vote_ids) mix_wrong_number_of_votes
    inputs ← mix_input s t t.prev_mix_id
    key_tx ←
        ok_or (s.get_transaction (new t.election_id TransactionType.encryption_key none))
          encryption_key_transaction_does_not_exist
    key ← unwind (inner_encryption_key key_tx)
    verify_mix inputs t.mixed_ciphertexts key.encryption_key t.proof t.trustee_index t.mix_index
        t.contest_index t.batch
