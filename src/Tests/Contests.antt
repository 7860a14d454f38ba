-- ===== src/Tests/Contests.antt =====
-- The theorems on a server's first mixes, at the sample election with a second vote, which leaves the
-- contest out.
use cryptoballot.Prelude.{none, ℕ, ◌≡◌, ◌≢◌, refl, List, [], ◌∷◌, some, ok, arith}
use cryptoballot.Election.{MixConfig}
use cryptoballot.Identifier.{Identifier, TransactionType}
use cryptoballot.Transaction.{Signed, SignedTransaction, VoteTransaction, MixTransaction}
use cryptoballot.Transaction.Ids.{vote_id}
use cryptoballot.Store.{get_multiple}
use cryptoballot.Store.Mem.{MemStore, set_all, as_store}
use cryptoballot.Validate.Mix.{validate_mix}
use cryptoballot.Tasks.Mixing.{mix_contests}
use cryptoballot.Tasks.Mixing.Rejected.{mix_contests-validate_mix}
use cryptoballot.Tests.Toy.{toy, toy_cbor}
use cryptoballot.Tests.Sample.{
  election_id, trustee, election_with, mix_config, signed, vote, voted_store, first_mix,
}

abbrev blank_vote : VoteTransaction toy
blank_vote = record {
  id = vote_id toy election_id 6;
  election = election_id;
  ballot_id = "b";
  encrypted_votes = [];
  anonymous_key = 6;
  authentication = [];
}

abbrev two_votes : MemStore toy
two_votes = set_all (voted_store mix_config) (SignedTransaction.vote (signed blank_vote) ∷ [])

abbrev cast : List (Identifier × List (List ℕ))
cast = (vote_id toy election_id 4, (1 ∷ 2 ∷ []) ∷ []) ∷ []

abbrev made_mix : Signed toy (MixTransaction toy)
made_mix = record { tx = first_mix; sig = (1, []) }

made :
    mix_contests toy_cbor 0 1 (election_with mix_config) (trustee 1) 11 ((0, cast) ∷ [])
    ≡ ok (SignedTransaction.mix made_mix ∷ [])
unfolding mix_contests cryptoballot.Validate.Mix.mix cryptoballot.Validate.Signed.sign_tx
    cryptoballot.Transaction.Ids.new_mix
made = refl

stored :
    get_multiple (as_store two_votes) election_id TransactionType.vote
    ≡ some (SignedTransaction.vote (signed vote) ∷ SignedTransaction.vote (signed blank_vote) ∷ [])
unfolding get_multiple cryptoballot.Identifier.start cryptoballot.Identifier.end
    cryptoballot.Store.Mem.range cryptoballot.BTreeMap.range cryptoballot.Bytes.lex_cmp
    cryptoballot.Identifier.Text.to_string cryptoballot.Tests.Hex.encode
    cryptoballot.Identifier.to_array cryptoballot.Election.build_id set_all
    cryptoballot.BTreeMap.insert cryptoballot.Transaction.tx_id
    cryptoballot.Transaction.Ids.key_gen_public_key_id
    cryptoballot.Transaction.Ids.encryption_key_id vote_id
stored = refl

mix_contests-validate_mix_example : validate_mix (as_store two_votes) first_mix ≢ ok tt
mix_contests-validate_mix_example =
    mix_contests-validate_mix toy_cbor 0 1 (as_store two_votes) (election_with mix_config)
      (trustee 1) 11 0 cast [] made_mix []
      (SignedTransaction.vote (signed vote) ∷ SignedTransaction.vote (signed blank_vote) ∷ []) made
      stored (λ h. absurd (omega arith))

abbrev config : MixConfig
config = record { timeout_secs = 1; batch_size = none }
