-- ===== src/Voting.antt =====
-- How a voter encrypts a vote: `encrypt_vote` of cryptoballot/src/vote.rs.
use cryptoballot.Prelude.{List, [], ◌∷◌, Result, ok, ◌>>=◌, from_sum}
use cryptoballot.External.{External, Selection}
use cryptoballot.Errors.{Error, vote_encoding_error}

module _ {x : External} where
  open x use {EncryptionKey, Rng, Ciphertext, encrypt, selection_encode}

  unfoldable pub encrypt_vote :
      EncryptionKey → List Selection → Rng → Result (Error x) (Rng × List Ciphertext)
  encrypt_vote key [] rng = ok (rng, [])
  encrypt_vote key (selection ∷ vote) rng = do
    buf ← from_sum (λ _. vote_encoding_error) (selection_encode selection)
    let made = encrypt key rng buf
    rest ← encrypt_vote key vote made.0
    ok (rest.0, made.1 ∷ rest.1)
