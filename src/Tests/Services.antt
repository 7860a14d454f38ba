-- ===== src/Tests/Services.antt =====
-- The theorems on the service, at a ledger that holds the sample election.
use cryptoballot.Prelude.{ℕ, ◌≡◌, refl, List, [], ◌∷◌, Option, none, some, ok, All, replicate}
use cryptoballot.Transaction.{SignedTransaction}
use cryptoballot.Transaction.Ids.{key_gen_commitment_id}
use cryptoballot.Identifier.Text.{to_string}
use cryptoballot.Validate.Signed.{validate}
use cryptoballot.Exonum.{Envelope, schema, envelope, verify_and_store}
use cryptoballot.Service.{process_block}
use cryptoballot.Service.Laws.{IsNew, process_block_sound, process_block_panics}
use cryptoballot.Tests.Hex.{encode, decode}
use cryptoballot.Tests.Toy.{toy, toy_cbor}
use cryptoballot.Tests.Sample.{election_id}
use cryptoballot.Tests.Ledgers.{map_index, election_tx, to_bytes, from_bytes, state}

-- the envelope of the election, and a ledger that holds it
abbrev election_envelope : Envelope
election_envelope = record { pub_key = []; id = to_string toy election_id; payload = 1 ∷ [] }

abbrev all_txs : ℕ → Option Envelope
all_txs n = some election_envelope

abbrev sent : List Envelope
sent =
    record {
      pub_key = replicate 32 1;
      id = to_string toy (key_gen_commitment_id election_id 1);
      payload = 2 ∷ [];
    }
    ∷ []

broadcast :
    process_block toy_cbor map_index to_bytes from_bytes
      (λ m. m)
      1
      all_txs
      (λ e. some e)
      (λ n. n)
      (state election_envelope)
      0
      (0 ∷ [])
    ≡ some sent
unfolding process_block cryptoballot.Identifier.Text.from_str decode to_string encode
    cryptoballot.Identifier.to_array cryptoballot.Election.build_id cryptoballot.Identifier.from_u8
    cryptoballot.Exonum.get_decoded cryptoballot.BTreeMap.get cryptoballot.Bytes.bytes_eq
    cryptoballot.Tasks.Generate.generate_transactions cryptoballot.Tasks.Keygen.process_election
    cryptoballot.Tasks.trustee_from_election cryptoballot.Election.get_full_trustees
    cryptoballot.Validate.Signed.sign_tx cryptoballot.Transaction.Ids.new_key_gen_commitment
    cryptoballot.Transaction.tx_id key_gen_commitment_id envelope cryptoballot.Transaction.public
broadcast = refl

process_block_sound_example :
    All (IsNew toy_cbor map_index to_bytes from_bytes (state election_envelope)) sent
process_block_sound_example =
    process_block_sound toy_cbor map_index to_bytes from_bytes (λ m. m) 1 all_txs (λ e. some e)
      (λ n. n) (state election_envelope) 0 (0 ∷ []) sent broadcast

-- an envelope of the election under the text of 16 bytes
abbrev short_envelope : Envelope
short_envelope = record { pub_key = []; id = encode (replicate 16 7); payload = 1 ∷ [] }

valid : validate toy_cbor (schema toy_cbor map_index to_bytes from_bytes []) election_tx ≡ ok tt
unfolding validate cryptoballot.Transaction.tx_id cryptoballot.Election.build_id
    cryptoballot.Transaction.transaction_type cryptoballot.Bytes.bytes_eq
    cryptoballot.Validate.Election.validate_election cryptoballot.Identifier.id_eq
valid = refl

unused : map_index.get (encode (replicate 16 7)) [] ≡ none
unfolding cryptoballot.BTreeMap.get
unused = refl

unpacked : from_bytes (1 ∷ []) ≡ some election_tx
unfolding cryptoballot.Bytes.bytes_eq
unpacked = refl

decoded : decode (encode (replicate 16 7)) ≡ some (replicate 16 7)
unfolding decode encode
decoded = refl

process_block_panics_example :
    (verify_and_store toy_cbor map_index to_bytes from_bytes [] short_envelope
      ≡ ok (map_index.put (encode (replicate 16 7)) short_envelope []))
    × (process_block toy_cbor map_index to_bytes from_bytes
          (λ m. m)
          1
          (λ (n : ℕ). some short_envelope)
          (λ e. some e)
          (λ n. n)
          (map_index.put (encode (replicate 16 7)) short_envelope [])
          0
          (0 ∷ [])
        ≡ none)
process_block_panics_example =
    process_block_panics toy_cbor map_index to_bytes from_bytes (λ m. m) 1
      (λ (n : ℕ). some short_envelope) (λ e. some e) (λ n. n) [] 0 short_envelope election_tx
      (replicate 16 7) 0 [] unused unpacked valid decoded refl refl
