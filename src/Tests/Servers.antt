-- ===== src/Tests/Servers.antt =====
-- The theorems on what the trustees' servers post, at the sample election.
use cryptoballot.Prelude.{ℕ, ◌≡◌, refl, arith, List, [], ◌∷◌, some, none, ok, All}
use cryptoballot.Identifier.{TransactionType, new}
use cryptoballot.Election.{ElectionTransaction}
use cryptoballot.Transaction.{
  Signed, SignedTransaction, KeyGenCommitmentTransaction, KeyGenShareTransaction,
  KeyGenPublicKeyTransaction, MixTransaction, EncryptedShare,
}
use cryptoballot.Transaction.Ids.{
  key_gen_commitment_id, key_gen_share_id, key_gen_public_key_id, new_key_gen_public_key,
}
use cryptoballot.Store.{Store, get_election, get_mix, get_keygen_public_key}
use cryptoballot.Store.Mem.{MemStore, set_all, as_store}
use cryptoballot.Trustee.{generate_public_key}
use cryptoballot.Tasks.{trustee_from_election}
use cryptoballot.Tasks.Sound.{IsSigned}
use cryptoballot.Tasks.Keygen.{process_keygen_share}
use cryptoballot.Tasks.Keygen.Accepted.{
  Commits, IsAcceptedWith, process_election-validate, process_keygen_share-validate,
}
use cryptoballot.Tasks.Partials.{Material, read_material, produce_partials}
use cryptoballot.Tasks.Partials.Accepted.{AreAccepted, produce_partials-validate}
use cryptoballot.Tasks.Generate.{generate_transactions}
use cryptoballot.Tasks.Generate.Laws.{generate_transactions_sound}
use cryptoballot.Tests.Toy.{toy, toy_cbor}
use cryptoballot.Tests.Sample.{
  election_id, trustee, election_with, signed, mix_config, public_key, voting_end, first_mix,
  mixed_store,
}
use cryptoballot.Tests.Trustees.{sent, keys}

abbrev committed : ℕ → KeyGenCommitmentTransaction toy
committed n = record {
  id = key_gen_commitment_id election_id n;
  election = election_id;
  trustee_index = n;
  trustee_public_key = n;
  x25519_public_key = n;
  commitment = n;
}

abbrev shared : ℕ → List (ℕ × EncryptedShare) → KeyGenShareTransaction toy
shared n shares = record {
  id = key_gen_share_id election_id n;
  election = election_id;
  trustee_index = n;
  trustee_public_key = n;
  shares = shares;
}

-- the sample run up to the first mix, with the commitments and the shares of its key generation
abbrev full_store : MemStore toy
full_store = set_all mixed_store (
    SignedTransaction.key_gen_commitment (signed (committed 1))
    ∷ SignedTransaction.key_gen_commitment (signed (committed 2))
    ∷ SignedTransaction.key_gen_share (signed (shared 1 ((1, sent 2) ∷ (2, sent 3) ∷ [])))
    ∷ SignedTransaction.key_gen_share (signed (shared 2 ((1, sent 3) ∷ (2, sent 4) ∷ [])))
    ∷ [])

abbrev material : Material toy
material = record {
  x25519_public_keys = keys;
  commitments = keys;
  shares = (1, sent 2) ∷ (2, sent 3) ∷ [];
}

chosen : trustee_from_election (election_with mix_config) 1 ≡ some (trustee 1)
unfolding trustee_from_election cryptoballot.Election.get_full_trustees
chosen = refl

process_election-validate_example : Commits toy_cbor 1 (election_with mix_config)
process_election-validate_example =
    process_election-validate toy_cbor 1 (election_with mix_config) (trustee 1) chosen

elected : get_election (as_store full_store) election_id ≡ ok (signed (election_with mix_config))
unfolding get_election cryptoballot.Store.Mem.get_transaction cryptoballot.BTreeMap.get set_all
    cryptoballot.BTreeMap.insert cryptoballot.Bytes.lex_cmp cryptoballot.Identifier.Text.to_string
    cryptoballot.Tests.Hex.encode cryptoballot.Identifier.to_array cryptoballot.Transaction.tx_id
    key_gen_public_key_id cryptoballot.Election.build_id
    cryptoballot.Transaction.Ids.encryption_key_id cryptoballot.Transaction.Ids.vote_id
    cryptoballot.Transaction.Ids.mix_id key_gen_commitment_id key_gen_share_id
    cryptoballot.Bytes.bytes_eq cryptoballot.Transaction.Convert.signed_election
elected = refl

abbrev posted_key : SignedTransaction toy
posted_key = SignedTransaction.key_gen_public_key (record { tx = public_key 1; sig = (1, []) })

answered :
    process_keygen_share toy_cbor 1 (as_store full_store) (shared 2 []) ≡ ok (posted_key ∷ [])
unfolding process_keygen_share get_election cryptoballot.Store.Mem.get_transaction
    cryptoballot.BTreeMap.get set_all cryptoballot.BTreeMap.insert cryptoballot.Bytes.lex_cmp
    cryptoballot.Identifier.Text.to_string cryptoballot.Tests.Hex.encode
    cryptoballot.Identifier.to_array cryptoballot.Transaction.tx_id key_gen_public_key_id
    cryptoballot.Election.build_id cryptoballot.Transaction.Ids.encryption_key_id
    cryptoballot.Transaction.Ids.vote_id cryptoballot.Transaction.Ids.mix_id key_gen_commitment_id
    key_gen_share_id cryptoballot.Bytes.bytes_eq cryptoballot.Transaction.Convert.signed_election
    trustee_from_election cryptoballot.Election.get_full_trustees cryptoballot.Tasks.read_all
    cryptoballot.Store.get_multiple cryptoballot.Identifier.start cryptoballot.Identifier.end
    cryptoballot.Store.Mem.range cryptoballot.BTreeMap.range
    cryptoballot.Transaction.Convert.convert_all
    cryptoballot.Transaction.Convert.inner_key_gen_share
    cryptoballot.Transaction.Convert.inner_key_gen_commitment cryptoballot.Tasks.shares_for
    cryptoballot.Trustee.index_get generate_public_key cryptoballot.Trustee.decrypt_shares
    cryptoballot.Tasks.x25519_keys_of cryptoballot.Trustee.decrypt
    cryptoballot.Trustee.generate_party cryptoballot.Trustee.receive_commitments
    cryptoballot.Tasks.commitments_of cryptoballot.Trustee.receive_shares
    cryptoballot.Validate.Signed.sign_tx new_key_gen_public_key cryptoballot.Trustee.generator
answered = refl

process_keygen_share-validate_example :
    All (IsAcceptedWith toy_cbor (election_with mix_config)) (posted_key ∷ [])
process_keygen_share-validate_example =
    process_keygen_share-validate toy_cbor 1 (as_store full_store) (shared 2 [])
      (signed (election_with mix_config)) (posted_key ∷ []) elected answered

generated :
    generate_transactions toy_cbor
      (λ m. m)
      0
      1
      (SignedTransaction.key_gen_share (signed (shared 2 [])))
      (as_store full_store)
    ≡ ok (posted_key ∷ [])
unfolding generate_transactions process_keygen_share get_election
    cryptoballot.Store.Mem.get_transaction cryptoballot.BTreeMap.get set_all
    cryptoballot.BTreeMap.insert cryptoballot.Bytes.lex_cmp cryptoballot.Identifier.Text.to_string
    cryptoballot.Tests.Hex.encode cryptoballot.Identifier.to_array cryptoballot.Transaction.tx_id
    key_gen_public_key_id cryptoballot.Election.build_id
    cryptoballot.Transaction.Ids.encryption_key_id cryptoballot.Transaction.Ids.vote_id
    cryptoballot.Transaction.Ids.mix_id key_gen_commitment_id key_gen_share_id
    cryptoballot.Bytes.bytes_eq cryptoballot.Transaction.Convert.signed_election
    trustee_from_election cryptoballot.Election.get_full_trustees cryptoballot.Tasks.read_all
    cryptoballot.Store.get_multiple cryptoballot.Identifier.start cryptoballot.Identifier.end
    cryptoballot.Store.Mem.range cryptoballot.BTreeMap.range
    cryptoballot.Transaction.Convert.convert_all
    cryptoballot.Transaction.Convert.inner_key_gen_share
    cryptoballot.Transaction.Convert.inner_key_gen_commitment cryptoballot.Tasks.shares_for
    cryptoballot.Trustee.index_get generate_public_key cryptoballot.Trustee.decrypt_shares
    cryptoballot.Tasks.x25519_keys_of cryptoballot.Trustee.decrypt
    cryptoballot.Trustee.generate_party cryptoballot.Trustee.receive_commitments
    cryptoballot.Tasks.commitments_of cryptoballot.Trustee.receive_shares
    cryptoballot.Validate.Signed.sign_tx new_key_gen_public_key cryptoballot.Trustee.generator
generated = refl

generate_transactions_sound_example : All (IsSigned toy_cbor) (posted_key ∷ [])
generate_transactions_sound_example =
    generate_transactions_sound toy_cbor (λ m. m) 0 1
      (SignedTransaction.key_gen_share (signed (shared 2 []))) (as_store full_store)
      (posted_key ∷ []) generated

read : read_material (as_store full_store) (election_with mix_config) (trustee 1) ≡ some material
unfolding read_material cryptoballot.Tasks.read_all cryptoballot.Store.get_multiple
    cryptoballot.Identifier.start cryptoballot.Identifier.end cryptoballot.Store.Mem.range
    cryptoballot.BTreeMap.range cryptoballot.Bytes.lex_cmp cryptoballot.Identifier.Text.to_string
    cryptoballot.Tests.Hex.encode cryptoballot.Identifier.to_array cryptoballot.Election.build_id
    cryptoballot.Transaction.Convert.convert_all set_all cryptoballot.BTreeMap.insert
    cryptoballot.Transaction.tx_id key_gen_public_key_id
    cryptoballot.Transaction.Ids.encryption_key_id cryptoballot.Transaction.Ids.vote_id
    cryptoballot.Transaction.Ids.mix_id key_gen_commitment_id key_gen_share_id
    cryptoballot.Transaction.Convert.inner_key_gen_share
    cryptoballot.Transaction.Convert.inner_key_gen_commitment cryptoballot.Tasks.shares_for
    cryptoballot.Trustee.index_get cryptoballot.Tasks.x25519_keys_of
    cryptoballot.Tasks.commitments_of
read = refl

made_key :
    generate_public_key {x = toy}
      (trustee 1)
      1
      keys
      keys
      ((1, sent 2) ∷ (2, sent 3) ∷ [])
      election_id
    ≡ ok (11, 1)
unfolding generate_public_key cryptoballot.Trustee.decrypt_shares cryptoballot.Trustee.decrypt
    cryptoballot.Trustee.generate_party cryptoballot.Trustee.receive_commitments
    cryptoballot.Trustee.receive_shares cryptoballot.Trustee.generator
made_key = refl

ended :
    (as_store full_store).get_transaction (new election_id TransactionType.voting_end none)
    ≡ some (SignedTransaction.voting_end (signed voting_end))
unfolding cryptoballot.Store.Mem.get_transaction cryptoballot.BTreeMap.get set_all
    cryptoballot.BTreeMap.insert cryptoballot.Bytes.lex_cmp cryptoballot.Identifier.Text.to_string
    cryptoballot.Tests.Hex.encode cryptoballot.Identifier.to_array cryptoballot.Transaction.tx_id
    key_gen_public_key_id cryptoballot.Election.build_id
    cryptoballot.Transaction.Ids.encryption_key_id cryptoballot.Transaction.Ids.vote_id
    cryptoballot.Transaction.Ids.mix_id key_gen_commitment_id key_gen_share_id
    cryptoballot.Bytes.bytes_eq
ended = refl

key_there :
    get_keygen_public_key (as_store full_store) (key_gen_public_key_id election_id 1)
    ≡ ok (signed (public_key 1))
unfolding get_keygen_public_key cryptoballot.Store.Mem.get_transaction cryptoballot.BTreeMap.get
    set_all cryptoballot.BTreeMap.insert cryptoballot.Bytes.lex_cmp
    cryptoballot.Identifier.Text.to_string cryptoballot.Tests.Hex.encode
    cryptoballot.Identifier.to_array cryptoballot.Transaction.tx_id key_gen_public_key_id
    cryptoballot.Election.build_id cryptoballot.Transaction.Ids.encryption_key_id
    cryptoballot.Transaction.Ids.vote_id cryptoballot.Transaction.Ids.mix_id key_gen_commitment_id
    key_gen_share_id cryptoballot.Bytes.bytes_eq
    cryptoballot.Transaction.Convert.signed_key_gen_public_key
key_there = refl

own_key : public_key 1 ≡ new_key_gen_public_key election_id 1 1 11 1
unfolding new_key_gen_public_key
own_key = refl

mix_there : get_mix (as_store full_store) first_mix.id ≡ ok (signed first_mix)
unfolding get_mix cryptoballot.Store.Mem.get_transaction cryptoballot.BTreeMap.get set_all
    cryptoballot.BTreeMap.insert cryptoballot.Bytes.lex_cmp cryptoballot.Identifier.Text.to_string
    cryptoballot.Tests.Hex.encode cryptoballot.Identifier.to_array cryptoballot.Transaction.tx_id
    key_gen_public_key_id cryptoballot.Election.build_id
    cryptoballot.Transaction.Ids.encryption_key_id cryptoballot.Transaction.Ids.vote_id
    cryptoballot.Transaction.Ids.mix_id key_gen_commitment_id key_gen_share_id
    cryptoballot.Bytes.bytes_eq cryptoballot.Transaction.Convert.signed_mix
mix_there = refl

typed : first_mix.id.transaction_type ≡ TransactionType.mix
unfolding cryptoballot.Transaction.Ids.mix_id
typed = refl

produce_partials-validate_example :
    AreAccepted toy_cbor
      (as_store full_store)
      (produce_partials toy_cbor 0 1
        (as_store full_store)
        (election_with mix_config)
        (trustee 1)
        0
        (some first_mix))
      1
produce_partials-validate_example =
    produce_partials-validate (election_with mix_config) 1 (trustee 1) material (11, 1) made_key
      toy_cbor (as_store full_store) (0, []) elected chosen
      (SignedTransaction.voting_end (signed voting_end)) ended (signed (public_key 1)) key_there
      own_key first_mix (0, []) mix_there typed (record { timeout_secs = 1; batch_size = none })
      refl (omega arith) 0 read
