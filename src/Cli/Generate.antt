-- ===== src/Cli/Generate.antt =====
-- The transactions that the client generates: cryptoballot_cli/src/command_election.rs,
-- command_vote.rs and command_voting_end.rs. `none` is a panic (`unwrap` and `expect` of an error).
pub mod Laws
use cryptoballot.Prelude.{ℕ, true, List, [], ◌∷◌, Option, none, some, String, unwrap, and_then}
use cryptoballot.External.{External, Selection}
use cryptoballot.Identifier.{Identifier, TransactionType}
use cryptoballot.Identifier.Text.{new_from_str_id}
use cryptoballot.Election.{
  ElectionTransaction, Ballot, Contest, ContestType, Trustee, MixConfig, new_election,
}
use cryptoballot.Transaction.{Cbor, Signed, SignedTransaction, VoteTransaction, EncryptedVote}
use cryptoballot.Transaction.Ids.{vote_id, new_voting_end}
use cryptoballot.Transaction.Convert.{inner_encryption_key}
use cryptoballot.Transaction.Kinds.{Tx, from_signed}
use cryptoballot.Validate.Traits.{
  CryptoBallotTransaction, election_trait, vote_trait, voting_end_trait,
}
use cryptoballot.Validate.Signed.{sign_tx}
use cryptoballot.Voting.{encrypt_vote}

abbrev pub write_in : String → Selection
write_in secret_vote = record { write_in = true; score = 0; selection = secret_vote }

module _ {x : External} where
  open x use {PublicKey, SecretKey, EncryptionKey, Rng, Ciphertext, public_of}

  abbrev pub test_ballot : Ballot x
  test_ballot = record { id = "BALLOT1"; contests = 0 ∷ []; properties = [] }

  abbrev pub test_contest : Contest x
  test_contest = record {
    id = "TESTCONTEST";
    index = 0;
    contest_type = ContestType.plurality;
    num_winners = 1;
    write_in = true;
    candidates = [];
    properties = [];
  }

  -- `command_election_generate`, up to the signature, at the random election id
  unfoldable pub test_election : PublicKey → List ℕ → ElectionTransaction x
  test_election public_key election_id = record (new_election public_key election_id) {
    ballots = test_ballot ∷ [];
    contests = test_contest ∷ [];
    authenticators_threshold = 0;
    trustees = record { public_key = public_key; index = 1; num_trustees = 1; threshold = 1 } ∷ [];
    mix_config = some (record { timeout_secs = 0; batch_size = none });
  }

  -- the vote of `command_vote_generate`
  unfoldable pub test_vote : Identifier → PublicKey → List Ciphertext → VoteTransaction x
  test_vote election_id public_key selections = record {
    id = vote_id x election_id public_key;
    election = election_id;
    ballot_id = "BALLOT1";
    encrypted_votes = record { contest_index = 0; selections = selections } ∷ [];
    anonymous_key = public_key;
    authentication = [];
  }

  module _ (b : Cbor x) where
    -- `Signed::sign(..).unwrap().into()`
    unfoldable pub sign_into :
        (k : TransactionType)
        → CryptoBallotTransaction x (Tx x k)
        → SecretKey
        → Tx x k
        → Option (SignedTransaction x)
    sign_into k i secret tx =
        and_then (unwrap (sign_tx b i secret tx)) λ signed. some (from_signed k signed)

    -- `command_election_generate`
    unfoldable pub generate_election : SecretKey → List ℕ → Option (SignedTransaction x)
    generate_election secret election_id =
        sign_into TransactionType.election election_trait secret
          (test_election (public_of secret) election_id)

    -- `command_voting_end_generate`, at the text of the election id
    unfoldable pub generate_voting_end : SecretKey → List ℕ → Option (SignedTransaction x)
    generate_voting_end secret election_id =
        and_then (new_from_str_id x election_id TransactionType.election none) λ id.
          sign_into TransactionType.voting_end voting_end_trait secret
            (new_voting_end id (public_of secret))

    -- `command_vote_generate`: `get_transaction` asks the server, and panics where there is no answer
    unfoldable pub generate_vote :
        (Identifier → Option (SignedTransaction x))
        → Rng
        → SecretKey
        → List ℕ
        → String
        → Option (SignedTransaction x)
    generate_vote get_transaction rng secret election_id secret_vote =
        and_then (new_from_str_id x election_id TransactionType.encryption_key none) λ enc_id.
          and_then (get_transaction enc_id) λ answer. and_then (inner_encryption_key answer) λ key.
            and_then
              (unwrap (encrypt_vote {x = x} key.encryption_key (write_in secret_vote ∷ []) rng))
              λ made.
                sign_into TransactionType.vote vote_trait secret
                  (test_vote key.election (public_of secret) made.1)
