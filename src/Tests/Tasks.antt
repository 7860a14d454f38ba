-- ===== src/Tests/Tasks.antt =====
-- The theorems on the trustee's server, at the sample election: the second trustee answers the first
-- mix.
use cryptoballot.Prelude.{◌≡◌, ◌≢◌, refl, none, ok, [], arith}
use cryptoballot.Transaction.{Signed, MixTransaction}
use cryptoballot.Store.Mem.{as_store}
use cryptoballot.Validate.Mix.{validate_mix}
use cryptoballot.Tasks.{next_mix}
use cryptoballot.Tasks.Laws.{next_mix_rejected}
use cryptoballot.Tests.Toy.{toy, toy_cbor}
use cryptoballot.Tests.Sample.{election_with, mix_config, trustee, first_mix, mix_with, mixed_store}

abbrev answer : Signed toy (MixTransaction toy)
answer = record { tx = mix_with 2 1 none; sig = (2, []) }

answered :
    next_mix toy_cbor 0 (as_store mixed_store) (election_with mix_config) (trustee 2) 2 first_mix
    ≡ ok answer
unfolding next_mix cryptoballot.Store.Mem.get_transaction cryptoballot.BTreeMap.get
    cryptoballot.Store.Mem.set_all cryptoballot.BTreeMap.insert cryptoballot.Bytes.lex_cmp
    cryptoballot.Identifier.Text.to_string cryptoballot.Tests.Hex.encode
    cryptoballot.Identifier.to_array cryptoballot.Transaction.tx_id
    cryptoballot.Transaction.Ids.key_gen_public_key_id cryptoballot.Election.build_id
    cryptoballot.Transaction.Ids.encryption_key_id cryptoballot.Transaction.Ids.vote_id
    cryptoballot.Transaction.Ids.mix_id cryptoballot.Bytes.bytes_eq
    cryptoballot.Transaction.Convert.inner_encryption_key cryptoballot.Validate.Mix.mix
    cryptoballot.Validate.Signed.sign_tx cryptoballot.Transaction.Ids.new_mix
answered = refl

next_mix_rejected_example : validate_mix (as_store mixed_store) (mix_with 2 1 none) ≢ ok tt
next_mix_rejected_example =
    next_mix_rejected toy_cbor 0 (as_store mixed_store) (as_store mixed_store)
      (election_with mix_config) (trustee 2) 2 first_mix answer (omega arith) answered
