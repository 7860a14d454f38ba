-- ===== src/Tests/Counts.antt =====
-- The theorem on the decryption that a server posts, at the sample election without mixes.
use cryptoballot.Prelude.{◌≡◌, refl, List, [], ◌∷◌, none, some, ok}
use cryptoballot.External.{Selection}
use cryptoballot.Transaction.{
  Signed, SignedTransaction, DecryptionTransaction, PartialDecryptionTransaction,
}
use cryptoballot.Transaction.Convert.{convert_all, inner_partial_decryption}
use cryptoballot.Election.{ElectionTransaction}
use cryptoballot.Store.{get_election}
use cryptoballot.Store.Mem.{as_store}
use cryptoballot.Validate.Signed.{validate}
use cryptoballot.Validate.Upstream.{encrypted_vote_from_upstream_tx}
use cryptoballot.Validate.Decryption.{fetch_partials}
use cryptoballot.Transaction.Ids.{new_decryption}
use cryptoballot.Tasks.Decrypting.{partials_bound, upstream_of, process_partial_decryption}
use cryptoballot.Tasks.Decrypting.Accepted.{IsReady, process_partial_decryption-validate}
use cryptoballot.Tests.Toy.{toy, toy_cbor}
use cryptoballot.Tests.Sample.{
  election_id, election_with, signed, partial, decryption, counted_store,
}

abbrev election_tx : Signed toy (ElectionTransaction toy)
election_tx = signed (election_with none)

abbrev partial_txs : List (SignedTransaction toy)
partial_txs =
    SignedTransaction.partial_decryption (signed (partial 1))
    ∷ SignedTransaction.partial_decryption (signed (partial 2))
    ∷ []

abbrev both : List (PartialDecryptionTransaction toy)
both = partial 1 ∷ partial 2 ∷ []

abbrev made_decryption : Signed toy (DecryptionTransaction toy)
made_decryption = record { tx = decryption; sig = (1, []) }

election_there : get_election (as_store counted_store) election_id ≡ ok election_tx
unfolding get_election cryptoballot.Store.Mem.get_transaction cryptoballot.BTreeMap.get
    cryptoballot.Store.Mem.set_all cryptoballot.BTreeMap.insert cryptoballot.Bytes.lex_cmp
    cryptoballot.Identifier.Text.to_string cryptoballot.Tests.Hex.encode
    cryptoballot.Identifier.to_array cryptoballot.Transaction.tx_id
    cryptoballot.Transaction.Ids.key_gen_public_key_id cryptoballot.Election.build_id
    cryptoballot.Transaction.Ids.encryption_key_id cryptoballot.Transaction.Ids.vote_id
    cryptoballot.Transaction.Ids.partial_decryption_id cryptoballot.Bytes.bytes_eq
    cryptoballot.Transaction.Convert.signed_election
election_there = refl

ranged :
    (as_store counted_store).range
      (partials_bound election_id (partial 1).id 0)
      (partials_bound election_id (partial 1).id 255)
    ≡ some partial_txs
unfolding cryptoballot.Store.Mem.range cryptoballot.BTreeMap.range cryptoballot.Bytes.lex_cmp
    cryptoballot.Identifier.Text.to_string cryptoballot.Tests.Hex.encode
    cryptoballot.Identifier.to_array partials_bound cryptoballot.Election.build_id
    cryptoballot.Transaction.Ids.partial_decryption_id cryptoballot.Transaction.Ids.vote_id
    cryptoballot.Store.Mem.set_all cryptoballot.BTreeMap.insert cryptoballot.Transaction.tx_id
    cryptoballot.Transaction.Ids.key_gen_public_key_id
    cryptoballot.Transaction.Ids.encryption_key_id
ranged = refl

converted : convert_all inner_partial_decryption partial_txs ≡ some both
unfolding convert_all inner_partial_decryption
converted = refl

upstream_read :
    upstream_of (partial 1).upstream_id.transaction_type (as_store counted_store) (partial 1)
    ≡ ok ((1 ∷ 2 ∷ []) ∷ [])
unfolding upstream_of cryptoballot.Transaction.Ids.vote_id cryptoballot.Store.get_vote
    cryptoballot.Store.Mem.get_transaction cryptoballot.BTreeMap.get cryptoballot.Store.Mem.set_all
    cryptoballot.BTreeMap.insert cryptoballot.Bytes.lex_cmp cryptoballot.Identifier.Text.to_string
    cryptoballot.Tests.Hex.encode cryptoballot.Identifier.to_array cryptoballot.Transaction.tx_id
    cryptoballot.Transaction.Ids.key_gen_public_key_id cryptoballot.Election.build_id
    cryptoballot.Transaction.Ids.encryption_key_id
    cryptoballot.Transaction.Ids.partial_decryption_id cryptoballot.Bytes.bytes_eq
    cryptoballot.Transaction.Convert.signed_vote
upstream_read = refl

upstream_validated :
    encrypted_vote_from_upstream_tx (as_store counted_store) (partial 1).upstream_id 0 0 none
    ≡ ok ((1 ∷ 2 ∷ []) ∷ [])
unfolding encrypted_vote_from_upstream_tx cryptoballot.Transaction.Ids.vote_id
    cryptoballot.Store.get_vote cryptoballot.Store.Mem.get_transaction cryptoballot.BTreeMap.get
    cryptoballot.Store.Mem.set_all cryptoballot.BTreeMap.insert cryptoballot.Bytes.lex_cmp
    cryptoballot.Identifier.Text.to_string cryptoballot.Tests.Hex.encode
    cryptoballot.Identifier.to_array cryptoballot.Transaction.tx_id
    cryptoballot.Transaction.Ids.key_gen_public_key_id cryptoballot.Election.build_id
    cryptoballot.Transaction.Ids.encryption_key_id
    cryptoballot.Transaction.Ids.partial_decryption_id cryptoballot.Bytes.bytes_eq
    cryptoballot.Transaction.Convert.signed_vote
upstream_validated = refl

fetched :
    (vote : List Selection)
    → fetch_partials
        (as_store counted_store)
        election_tx.tx
        (new_decryption election_id (partial 1).upstream_id 0 0 (1 ∷ 2 ∷ []) vote)
        (1 ∷ 2 ∷ [])
      ≡ ok both
unfolding fetch_partials new_decryption cryptoballot.Election.get_trustee
    cryptoballot.Store.get_partial_decryption cryptoballot.Store.Mem.get_transaction
    cryptoballot.BTreeMap.get cryptoballot.Store.Mem.set_all cryptoballot.BTreeMap.insert
    cryptoballot.Bytes.lex_cmp cryptoballot.Identifier.Text.to_string cryptoballot.Tests.Hex.encode
    cryptoballot.Identifier.to_array cryptoballot.Transaction.tx_id
    cryptoballot.Transaction.Ids.key_gen_public_key_id cryptoballot.Election.build_id
    cryptoballot.Transaction.Ids.encryption_key_id cryptoballot.Transaction.Ids.vote_id
    cryptoballot.Transaction.Ids.partial_decryption_id
    cryptoballot.Transaction.Convert.signed_partial_decryption cryptoballot.Bytes.bytes_eq
fetched vote = refl

ready : IsReady (as_store counted_store) election_tx (partial 1) ((1 ∷ 2 ∷ []) ∷ []) both
ready = record { elected = election_there; upstream = upstream_validated; fetched = fetched }

posted :
    process_partial_decryption toy_cbor 1 (as_store counted_store) (partial 1)
    ≡ ok (SignedTransaction.decryption made_decryption ∷ [])
unfolding process_partial_decryption get_election cryptoballot.Store.Mem.get_transaction
    cryptoballot.BTreeMap.get cryptoballot.Store.Mem.set_all cryptoballot.BTreeMap.insert
    cryptoballot.Bytes.lex_cmp cryptoballot.Identifier.Text.to_string cryptoballot.Tests.Hex.encode
    cryptoballot.Identifier.to_array cryptoballot.Transaction.tx_id
    cryptoballot.Transaction.Ids.key_gen_public_key_id cryptoballot.Election.build_id
    cryptoballot.Transaction.Ids.encryption_key_id cryptoballot.Transaction.Ids.vote_id
    cryptoballot.Transaction.Ids.partial_decryption_id cryptoballot.Bytes.bytes_eq
    cryptoballot.Transaction.Convert.signed_election cryptoballot.Tasks.trustee_from_election
    cryptoballot.Election.get_full_trustees cryptoballot.Store.Mem.range cryptoballot.BTreeMap.range
    convert_all inner_partial_decryption cryptoballot.Store.get_vote
    cryptoballot.Transaction.Convert.signed_vote cryptoballot.Tasks.read_all
    cryptoballot.Store.get_multiple cryptoballot.Identifier.start cryptoballot.Identifier.end
    cryptoballot.Transaction.Convert.inner_key_gen_public_key
    cryptoballot.Validate.Decrypt.decrypt_vote cryptoballot.Validate.Signed.sign_tx new_decryption
posted = refl

process_partial_decryption-validate_example :
    validate toy_cbor (as_store counted_store) (SignedTransaction.decryption made_decryption)
    ≡ ok tt
process_partial_decryption-validate_example =
    process_partial_decryption-validate toy_cbor 1 (as_store counted_store) election_tx (partial 1)
      partial_txs ((1 ∷ 2 ∷ []) ∷ []) both made_decryption election_there ranged converted
      upstream_read ready posted
