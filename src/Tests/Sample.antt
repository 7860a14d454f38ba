-- ===== src/Tests/Sample.antt =====
-- An election with two trustees, one ballot and one contest, and the transactions of one run of it.
use cryptoballot.Prelude.{false, ℕ, List, [], ◌∷◌, Option, none, some, replicate}
use cryptoballot.Identifier.{Identifier, TransactionType, new}
use cryptoballot.Election.{
  ElectionTransaction, Trustee, Ballot, Authenticator, Authentication, MixConfig, build_id,
}
use cryptoballot.Transaction.{
  Signed, SignedTransaction, KeyGenCommitmentTransaction, KeyGenShareTransaction,
  KeyGenPublicKeyTransaction, EncryptionKeyTransaction, VoteTransaction, VotingEndTransaction,
  MixTransaction, PartialDecryptionTransaction, DecryptionTransaction, EncryptedVote,
}
use cryptoballot.Transaction.Ids.{
  key_gen_commitment_id, key_gen_share_id, key_gen_public_key_id, encryption_key_id, mix_id,
  partial_decryption_id, decryption_id, vote_id,
}
use cryptoballot.Store.Mem.{MemStore, empty, set_all}
use cryptoballot.Validate.Mix.{generate_pedersen_seed}
use cryptoballot.Tests.Toy.{toy, key_bytes}

abbrev pub election_id : Identifier
election_id = build_id (replicate 15 7)

abbrev pub trustee : ℕ → Trustee toy
trustee n = record { public_key = n; index = n; num_trustees = 2; threshold = 2 }

abbrev pub authenticator : Authenticator toy
authenticator = record { id = 5; public_keys = ("b", 3) ∷ [] }

abbrev pub ballot : Ballot toy
ballot = record { id = "b"; contests = 0 ∷ []; properties = [] }

abbrev pub election_with : Option MixConfig → ElectionTransaction toy
election_with config = record {
  id = election_id;
  authority_public = 9;
  trustees = trustee 1 ∷ trustee 2 ∷ [];
  trustees_threshold = 2;
  authenticators = authenticator ∷ [];
  authenticators_threshold = 1;
  mix_config = config;
  ballots = ballot ∷ [];
  contests = [];
  properties = [];
}

abbrev pub signed : {T : Type 0} → T → Signed toy T
signed t = record { tx = t; sig = (0, []) }

abbrev pub commitment : KeyGenCommitmentTransaction toy
commitment = record {
  id = key_gen_commitment_id election_id 1;
  election = election_id;
  trustee_index = 1;
  trustee_public_key = 1;
  x25519_public_key = 0;
  commitment = 0;
}

abbrev pub share : KeyGenShareTransaction toy
share = record {
  id = key_gen_share_id election_id 1;
  election = election_id;
  trustee_index = 1;
  trustee_public_key = 1;
  shares = (1, record { bytes = [] }) ∷ (2, record { bytes = [] }) ∷ [];
}

abbrev pub public_key : ℕ → KeyGenPublicKeyTransaction toy
public_key n = record {
  id = key_gen_public_key_id election_id n;
  election = election_id;
  trustee_index = n;
  trustee_public_key = n;
  public_key = 11;
  public_key_proof = n;
}

abbrev pub encryption_key : EncryptionKeyTransaction toy
encryption_key = record {
  id = encryption_key_id election_id;
  election = election_id;
  authority_public_key = 9;
  encryption_key = 11;
}

abbrev pub encrypted : EncryptedVote toy
encrypted = record { contest_index = 0; selections = (1 ∷ 2 ∷ []) ∷ [] }

abbrev pub authentication : Authentication toy
authentication = record { authenticator = 5; signature = key_bytes 4 }

abbrev pub vote : VoteTransaction toy
vote = record {
  id = vote_id toy election_id 4;
  election = election_id;
  ballot_id = "b";
  encrypted_votes = encrypted ∷ [];
  anonymous_key = 4;
  authentication = authentication ∷ [];
}

abbrev pub voting_end : VotingEndTransaction toy
voting_end = record {
  id = new election_id TransactionType.voting_end none;
  election = election_id;
  authority_public_key = 9;
}

-- the mix of the trustee `n`, 1 or 2
abbrev pub mix_with : ℕ → ℕ → Option Identifier → MixTransaction toy
mix_with n index prev = record {
  id = mix_id election_id 0 0 index n;
  election_id = election_id;
  prev_mix_id = prev;
  trustee_index = n;
  trustee_public_key = n;
  mix_index = index;
  contest_index = 0;
  batch = 0;
  vote_ids = vote_id toy election_id 4 ∷ [];
  mixed_ciphertexts = ((1 ∷ 2 ∷ []) ∷ []) ∷ [];
  proof = generate_pedersen_seed n index 0 0;
}

abbrev pub first_mix : MixTransaction toy
first_mix = mix_with 1 0 none

abbrev pub first_mix_id : Identifier
first_mix_id = mix_id election_id 0 0 0 1

abbrev pub second_mix : MixTransaction toy
second_mix = mix_with 2 1 (some first_mix_id)

-- the partial decryption of the vote by the trustee `n`, in the election without mixes
abbrev pub partial : ℕ → PartialDecryptionTransaction toy
partial n = record {
  id = partial_decryption_id election_id (vote_id toy election_id 4) 0 0 n;
  election_id = election_id;
  upstream_id = vote_id toy election_id 4;
  upstream_index = 0;
  contest_index = 0;
  trustee_index = n;
  trustee_public_key = n;
  partial_decryption = (1 ∷ 2 ∷ []) ∷ [];
}

abbrev pub decryption : DecryptionTransaction toy
decryption = record {
  id = decryption_id election_id (vote_id toy election_id 4) 0 0;
  election_id = election_id;
  upstream_id = vote_id toy election_id 4;
  upstream_index = 0;
  contest_index = 0;
  trustees = 1 ∷ 2 ∷ [];
  decrypted_vote = record { write_in = false; score = 2; selection = "A" } ∷ [];
}

abbrev pub key_transactions : Option MixConfig → List (SignedTransaction toy)
key_transactions config =
    SignedTransaction.election (signed (election_with config))
    ∷ SignedTransaction.key_gen_public_key (signed (public_key 1))
    ∷ SignedTransaction.key_gen_public_key (signed (public_key 2))
    ∷ []

abbrev pub mix_config : Option MixConfig
mix_config = some (record { timeout_secs = 1; batch_size = none })

-- before the encryption key, while votes are taken, after the vote, and at the end
abbrev pub key_store : MemStore toy
key_store = set_all empty (key_transactions mix_config)

abbrev pub open_store : Option MixConfig → MemStore toy
open_store config =
    set_all (set_all empty (key_transactions config))
      (SignedTransaction.encryption_key (signed encryption_key) ∷ [])

abbrev pub voted_store : Option MixConfig → MemStore toy
voted_store config =
    set_all (open_store config)
      (SignedTransaction.vote (signed vote) ∷ SignedTransaction.voting_end (signed voting_end) ∷ [])

abbrev pub mixed_store : MemStore toy
mixed_store = set_all (voted_store mix_config) (SignedTransaction.mix (signed first_mix) ∷ [])

abbrev pub counted_store : MemStore toy
counted_store = set_all (voted_store none) (
    SignedTransaction.partial_decryption (signed (partial 1))
    ∷ SignedTransaction.partial_decryption (signed (partial 2))
    ∷ [])
