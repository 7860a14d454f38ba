-- ===== src/Tests/Mixes.antt =====
-- The theorems on mixes, upstream ciphertexts and decryption, at the sample election.
use cryptoballot.Transaction.Convert.{inner_mix, signed_mix}
use cryptoballot.Prelude.{
  ap, ℕ, ◌%◌, ◌≡◌, ◌≢◌, ◌↔◌, refl, List, [], ◌∷◌, none, some, ok, panic, replicate, length,
}
use cryptoballot.Identifier.{Identifier, TransactionType, new}
use cryptoballot.Transaction.{
  SignedTransaction, MixTransaction, KeyGenPublicKeyTransaction, PartialDecryptionTransaction,
}
use cryptoballot.Store.{Store, get_mix}
use cryptoballot.Store.Mem.{as_store}
use cryptoballot.Validate.Mix.{prove_shuffle, mix, verify_mix, generate_pedersen_seed}
use cryptoballot.Validate.Mix.Chain.{
  IsLaterMix, Chain, begin, next, validate_mix_later, Chain-votes,
}
use cryptoballot.Validate.Mix.Accepted.{IsFirstMix, validate_mix_first}
use cryptoballot.Validate.Mix.Honest.{mix-verify_mix}
use cryptoballot.Validate.Upstream.{encrypted_vote_from_upstream_tx}
use cryptoballot.Validate.Upstream.Laws.{upstream_total, upstream_cut}
use cryptoballot.Validate.Decrypt.{decrypt_vote}
use cryptoballot.Validate.Decrypt.Laws.{DecryptsAll, decrypt_vote_iff}
use cryptoballot.Validate.Decryption.Laws.{IsAcceptedDecryption, validate_decryption_sound}
use cryptoballot.Validate.Decryption.Partial.{IsAcceptedPartial, validate_partial_decryption_sound}
use cryptoballot.Tests.Toy.{toy, length-replicate}
use cryptoballot.Tests.Sample.{
  election_id, mix_config, signed, trustee, public_key, first_mix, first_mix_id, second_mix,
  partial, decryption, voted_store, mixed_store, counted_store,
}
use cryptoballot.Tests.Runs.{
  first_mix_valid, first_mix_stored, second_mix_valid, partial_valid, decryption_valid,
}

validate_mix_first_example : IsFirstMix (as_store mixed_store) first_mix
validate_mix_first_example =
    validate_mix_first (as_store mixed_store) first_mix first_mix_valid refl

validate_mix_later_example : IsLaterMix (as_store mixed_store) second_mix first_mix_id
validate_mix_later_example =
    validate_mix_later (as_store mixed_store) second_mix first_mix_id second_mix_valid refl

chain : Chain (as_store mixed_store) first_mix second_mix
unfolding inner_mix
chain =
    next second_mix first_mix_id (SignedTransaction.mix (signed first_mix))
      (begin first_mix_valid refl) first_mix_stored refl refl second_mix_valid

Chain-votes_example :
    (second_mix.vote_ids ≡ first_mix.vote_ids)
    × (second_mix.election_id ≡ first_mix.election_id)
    × (second_mix.contest_index ≡ first_mix.contest_index)
    × (second_mix.batch ≡ first_mix.batch)
    × (length second_mix.mixed_ciphertexts ≡ length first_mix.vote_ids)
Chain-votes_example = Chain-votes chain

abbrev inputs : List (List (List ℕ))
inputs = ((1 ∷ 2 ∷ []) ∷ []) ∷ []

mixing : (mix {x = toy} 0 inputs 11 1 0 0 0).1 ≡ ok (inputs, generate_pedersen_seed 1 0 0 0)
unfolding mix prove_shuffle
mixing = refl

mix-verify_mix_example :
    verify_mix {x = toy} inputs inputs 11 (generate_pedersen_seed 1 0 0 0) 1 0 0 0 ≡ ok tt
mix-verify_mix_example =
    mix-verify_mix 0 inputs inputs 11 (generate_pedersen_seed 1 0 0 0) 1 0 0 0 mixing

upstream_total_example :
    encrypted_vote_from_upstream_tx (as_store mixed_store) first_mix_id 0 0 mix_config ≢ panic
upstream_total_example = upstream_total (as_store mixed_store) first_mix_id 0 0 mix_config

-- a mix of 65536 votes, and a store that has it
abbrev large_mix : MixTransaction toy
large_mix = record first_mix { mixed_ciphertexts = replicate 65536 [] }

abbrev large_store : Store toy
large_store = record {
  get_transaction = λ id. some (SignedTransaction.mix (signed large_mix));
  range = λ lo hi. some [];
}

abbrev large_mix_id : Identifier
large_mix_id = new election_id TransactionType.mix none

large_kind : large_mix_id.transaction_type ≡ TransactionType.mix
unfolding new
large_kind = refl

large_found : get_mix large_store large_mix_id ≡ ok (signed large_mix)
unfolding get_mix signed_mix
large_found = refl

large_length : length large_mix.mixed_ciphertexts % 65536 ≡ 0
large_length = ap (λ n. n % 65536) (length-replicate {A = List (List ℕ)} 65536 [])

upstream_cut_example :
    encrypted_vote_from_upstream_tx large_store large_mix_id 0 0 mix_config ≢ ok []
upstream_cut_example =
    upstream_cut large_store large_mix_id 0 0 mix_config (signed large_mix) [] large_kind
      large_found large_length

abbrev partials : List (PartialDecryptionTransaction toy)
partials = partial 1 ∷ partial 2 ∷ []

abbrev keys : List (KeyGenPublicKeyTransaction toy)
keys = public_key 1 ∷ public_key 2 ∷ []

decrypt_vote_iff_example :
    (decrypt_vote ((1 ∷ 2 ∷ []) ∷ []) 2 (trustee 1 ∷ trustee 2 ∷ []) keys partials
      ≡ ok decryption.decrypted_vote)
    ↔ DecryptsAll 2
        (trustee 1 ∷ trustee 2 ∷ [])
        keys
        partials
        0
        ((1 ∷ 2 ∷ []) ∷ [])
        decryption.decrypted_vote
decrypt_vote_iff_example =
    decrypt_vote_iff 2 (trustee 1 ∷ trustee 2 ∷ []) keys partials ((1 ∷ 2 ∷ []) ∷ [])
      decryption.decrypted_vote

validate_partial_decryption_sound_example :
    IsAcceptedPartial (as_store (voted_store none)) (partial 1)
validate_partial_decryption_sound_example =
    validate_partial_decryption_sound (as_store (voted_store none)) (partial 1) partial_valid

validate_decryption_sound_example : IsAcceptedDecryption (as_store counted_store) decryption
validate_decryption_sound_example =
    validate_decryption_sound (as_store counted_store) decryption decryption_valid
