-- ===== src/Tests/Clients.antt =====
-- The theorems on the command line client, at the election that it generates.
use cryptoballot.Prelude.{
  replicate, ℕ, ◌≡◌, ◌↔◌, refl, true, false, List, [], ◌∷◌, some, none, ok, String, In, get_elem?,
}
use cryptoballot.External.{Selection}
use cryptoballot.Identifier.{TransactionType, IsWellFormed, new}
use cryptoballot.Identifier.Text.{to_string}
use cryptoballot.Election.{ElectionTransaction, build_id, get_ballot}
use cryptoballot.Transaction.{
  Signed, SignedTransaction, EncryptionKeyTransaction, tx_id, transaction_type,
}
use cryptoballot.Store.{get_election}
use cryptoballot.Store.Mem.{MemStore, empty, set_all, as_store}
use cryptoballot.Validate.{is_some}
use cryptoballot.Validate.Signed.{validate}
use cryptoballot.Validate.Stored.{IsFilled}
use cryptoballot.Validate.Vote.{check_collision}
use cryptoballot.Voting.{encrypt_vote}
use cryptoballot.Cli.E2e.{command_e2e, decrypted_votes, print_votes, print_tally}
use cryptoballot.Cli.E2e.Laws.{AreValidInTurn, command_e2e_sound, print_tally_panics_iff}
use cryptoballot.Cli.Generate.{test_ballot, test_election, test_vote, write_in, generate_vote}
use cryptoballot.Cli.Generate.Laws.{generate_vote-validate}
use cryptoballot.Tests.Toy.{toy, toy_cbor}
use cryptoballot.Tests.Sample.{election_id, signed, encryption_key, decryption}
use cryptoballot.Tests.Identifiers.{election_id-IsWellFormed}
use cryptoballot.Tests.Ledgers.{election_tx}
use cryptoballot.Tests.Stores.{formed}
use cryptoballot.Tests.Tallies.{toy_tally}

audited :
    command_e2e toy_cbor (election_tx ∷ []) ≡ ok (election_id, set_all empty (election_tx ∷ []))
unfolding command_e2e transaction_type validate tx_id build_id cryptoballot.Bytes.bytes_eq
    cryptoballot.Validate.Election.validate_election cryptoballot.Identifier.id_eq set_all
    cryptoballot.Store.Mem.set
audited = refl

command_e2e_sound_example :
    ((first : SignedTransaction toy) × (get_elem? (election_tx ∷ []) 0 ≡ some first)
      × (tx_id first ≡ election_id)
      × (transaction_type first ≡ TransactionType.election))
    × AreValidInTurn toy_cbor empty (election_tx ∷ [])
    × (set_all empty (election_tx ∷ []) ≡ set_all empty (election_tx ∷ []))
    × IsFilled toy_cbor (set_all empty (election_tx ∷ []))
    × ((printed : List (ℕ × String)) × (print_votes (set_all empty (election_tx ∷ [])) election_id
          ≡ some printed))
command_e2e_sound_example =
    command_e2e_sound toy_cbor (election_tx ∷ []) election_id (set_all empty (election_tx ∷ []))
      (formed, tt) audited

-- a decrypted vote without selections
abbrev blank_store : MemStore toy
blank_store =
    set_all empty
      (SignedTransaction.decryption (signed (record decryption { decrypted_vote = [] })) ∷ [])

blank_read : decrypted_votes blank_store election_id ≡ some ([] ∷ [])
unfolding decrypted_votes cryptoballot.Store.get_multiple cryptoballot.Identifier.start
    cryptoballot.Identifier.end cryptoballot.Store.Mem.range cryptoballot.BTreeMap.range
    cryptoballot.Bytes.lex_cmp to_string cryptoballot.Tests.Hex.encode
    cryptoballot.Identifier.to_array build_id cryptoballot.Transaction.Convert.convert_all set_all
    cryptoballot.BTreeMap.insert tx_id cryptoballot.Transaction.Ids.decryption_id
    cryptoballot.Transaction.Ids.vote_id cryptoballot.Transaction.Convert.inner_decryption
blank_read = refl

print_tally_panics_iff_example :
    (print_tally toy_tally blank_store election_id ≡ none) ↔ In {A = List Selection} [] ([] ∷ [])
print_tally_panics_iff_example =
    print_tally_panics_iff toy_tally blank_store election_id ([] ∷ []) blank_read

abbrev key : Signed toy (EncryptionKeyTransaction toy)
key = signed encryption_key

abbrev made_election : Signed toy (ElectionTransaction toy)
made_election = signed (test_election 9 (replicate 15 7))

abbrev made_store : MemStore toy
made_store =
    set_all empty
      (SignedTransaction.election made_election ∷ SignedTransaction.encryption_key key ∷ [])

encrypted : encrypt_vote {x = toy} key.tx.encryption_key (write_in "A" ∷ []) 0 ≡ ok (1, [] ∷ [])
unfolding encrypt_vote
encrypted = refl

election_there : get_election (as_store made_store) key.tx.election ≡ ok made_election
unfolding get_election cryptoballot.Store.Mem.get_transaction cryptoballot.BTreeMap.get set_all
    cryptoballot.BTreeMap.insert cryptoballot.Bytes.lex_cmp to_string cryptoballot.Tests.Hex.encode
    cryptoballot.Identifier.to_array tx_id cryptoballot.Transaction.Ids.encryption_key_id build_id
    test_election cryptoballot.Election.new_election cryptoballot.Bytes.bytes_eq
    cryptoballot.Transaction.Convert.signed_election
election_there = refl

no_collision : check_collision (as_store made_store) (test_vote key.tx.election 4 ([] ∷ [])) ≡ ok tt
unfolding check_collision cryptoballot.Identifier.start cryptoballot.Store.Mem.range
    cryptoballot.BTreeMap.range cryptoballot.Bytes.lex_cmp to_string cryptoballot.Tests.Hex.encode
    cryptoballot.Identifier.to_array test_vote build_id set_all cryptoballot.BTreeMap.insert tx_id
    cryptoballot.Transaction.Ids.encryption_key_id test_election cryptoballot.Election.new_election
no_collision = refl

key_there :
    is_some (
      (as_store made_store).get_transaction
        (new key.tx.election TransactionType.encryption_key none))
    ≡ true
unfolding cryptoballot.Store.Mem.get_transaction cryptoballot.BTreeMap.get set_all
    cryptoballot.BTreeMap.insert cryptoballot.Bytes.lex_cmp to_string cryptoballot.Tests.Hex.encode
    cryptoballot.Identifier.to_array tx_id cryptoballot.Transaction.Ids.encryption_key_id build_id
    test_election cryptoballot.Election.new_election cryptoballot.Bytes.bytes_eq
key_there = refl

not_ended :
    is_some
      ((as_store made_store).get_transaction (new key.tx.election TransactionType.voting_end none))
    ≡ false
unfolding cryptoballot.Store.Mem.get_transaction cryptoballot.BTreeMap.get set_all
    cryptoballot.BTreeMap.insert cryptoballot.Bytes.lex_cmp to_string cryptoballot.Tests.Hex.encode
    cryptoballot.Identifier.to_array tx_id cryptoballot.Transaction.Ids.encryption_key_id build_id
    test_election cryptoballot.Election.new_election cryptoballot.Bytes.bytes_eq
not_ended = refl

ballot_there : get_ballot made_election.tx "BALLOT1" ≡ some (test_ballot {x = toy})
unfolding get_ballot test_election
ballot_there = refl

well_formed : IsWellFormed (build_id (replicate 15 7))
well_formed = election_id-IsWellFormed

generate_vote-validate_example :
    (t : SignedTransaction toy) × (generate_vote toy_cbor
        (λ id. some (SignedTransaction.encryption_key key))
        0
        4
        (to_string toy (build_id (replicate 15 7)))
        "A"
      ≡ some t)
    × (validate toy_cbor (as_store made_store) t ≡ ok tt)
generate_vote-validate_example =
    generate_vote-validate toy_cbor 4 (as_store made_store) (replicate 15 7) "A" 0 1
      (λ id. some (SignedTransaction.encryption_key key)) key ([] ∷ []) made_election test_ballot
      well_formed refl encrypted election_there no_collision key_there not_ended ballot_there refl
