-- ===== src/Tests/Trustees.antt =====
-- The theorems on the trustees' key generation and on authenticators, at small inputs.
use cryptoballot.Prelude.{ℕ, ◌≡◌, refl, List, [], ◌∷◌, ◌++◌, some, none, ok, replicate}
use cryptoballot.Election.{get_authenticator}
use cryptoballot.Transaction.{EncryptedShare}
use cryptoballot.Validate.Vote.{check_authentications, get_public_key}
use cryptoballot.Authn.{new_package, blind, authenticate, unblind, new_authenticator}
use cryptoballot.Authn.Laws.{authenticate-check_authentications}
use cryptoballot.Trustee.{
  generate_shares, last_key, generate_public_key, partial_decrypt, decrypt, x25519_public_key,
}
use cryptoballot.Trustee.Shares.{IsSent, generate_shares-decrypt_shares}
use cryptoballot.Trustee.Threshold.{IsPartial, generate_public_key-partial_decrypt}
use cryptoballot.Tests.Toy.{toy, key_bytes}
use cryptoballot.Tests.Sample.{
  election_id, trustee, election_with, vote, authenticator, authentication,
}

abbrev pub sent : ℕ → EncryptedShare
sent n = record { bytes = replicate 12 0 ++ (n ∷ []) }

abbrev pub keys : List (ℕ × ℕ)
keys = (1, 1) ∷ (2, 2) ∷ []

made_shares :
    generate_shares {x = toy} 0 (trustee 1) 1 keys election_id keys
    ≡ some (2, (1, sent 2) ∷ (2, sent 3) ∷ [])
unfolding generate_shares cryptoballot.Trustee.receive_commitments
    cryptoballot.Trustee.encrypt_shares cryptoballot.Trustee.new_share
    cryptoballot.Trustee.generator
made_shares = refl

receiver_key : last_key 2 none keys ≡ some (x25519_public_key toy 2 election_id)
unfolding last_key x25519_public_key cryptoballot.Trustee.x25519_secret_key
receiver_key = refl

sender_key : last_key 1 none keys ≡ some (x25519_public_key toy 1 election_id)
unfolding last_key x25519_public_key cryptoballot.Trustee.x25519_secret_key
sender_key = refl

generate_shares-decrypt_shares_example :
    IsSent {x = toy} (trustee 1) 1 2 2 election_id keys ((1, sent 2) ∷ (2, sent 3) ∷ []) keys
generate_shares-decrypt_shares_example =
    generate_shares-decrypt_shares {x = toy} 0 (trustee 1) 1 2 2 keys keys election_id keys
      (2, (1, sent 2) ∷ (2, sent 3) ∷ []) made_shares receiver_key sender_key

made_key :
    generate_public_key {x = toy}
      (trustee 1)
      1
      keys
      keys
      ((1, sent 2) ∷ (2, sent 3) ∷ [])
      election_id
    ≡ ok (11, 1)
unfolding generate_public_key cryptoballot.Trustee.decrypt_shares decrypt
    cryptoballot.Trustee.generate_party cryptoballot.Trustee.receive_commitments
    cryptoballot.Trustee.receive_shares cryptoballot.Trustee.generator
made_key = refl

generate_public_key-partial_decrypt_example :
    IsPartial {x = toy}
      (partial_decrypt 0
        (trustee 1)
        1
        keys
        keys
        ((1, sent 2) ∷ (2, sent 3) ∷ [])
        (1 ∷ 2 ∷ [])
        election_id)
      1
      (1 ∷ 2 ∷ [])
generate_public_key-partial_decrypt_example =
    generate_public_key-partial_decrypt {x = toy} 0 (trustee 1) 1 keys keys
      ((1, sent 2) ∷ (2, sent 3) ∷ []) election_id (11, 1) (1 ∷ 2 ∷ []) made_key

made_authenticator :
    new_authenticator {x = toy} 0 5 2048 ("b" ∷ []) ≡ ok (authenticator, ("b", 3) ∷ [])
unfolding new_authenticator
made_authenticator = refl

secret_key : get_public_key {K = ℕ} (("b", 3) ∷ []) vote.ballot_id ≡ some 3
unfolding get_public_key
secret_key = refl

known : get_authenticator (election_with none) 5 ≡ some authenticator
unfolding get_authenticator
known = refl

blinded :
    blind {x = toy} 0 (new_package election_id vote.ballot_id vote.anonymous_key) 3
    ≡ some (key_bytes 4, [])
unfolding blind new_package
blinded = refl

answer : authenticate {x = toy} 0 authenticator 3 (key_bytes 4) ≡ some authentication
unfolding authenticate
answer = refl

authenticate-check_authentications_example :
    check_authentications (election_with none) vote (unblind authentication 3 [] ∷ []) ≡ ok tt
authenticate-check_authentications_example =
    authenticate-check_authentications 0 0 0 5 2048 ("b" ∷ []) (election_with none) vote
      authenticator (("b", 3) ∷ []) 3 (key_bytes 4) [] authentication made_authenticator secret_key
      known blinded answer
