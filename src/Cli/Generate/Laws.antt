-- ===== src/Cli/Generate/Laws.antt =====
-- What the client generates (cryptoballot_cli/src/command_election.rs, command_vote.rs,
-- command_voting_end.rs), against the validation of the transactions.
use cryptoballot.Prelude.{
  ℕ, ◌≡◌, refl, sym, ap, List, [], ◌∷◌, some, none, true, ok, arith, String, length-append,
  take-append, false, any, Option, ◌==◌,
}
use cryptoballot.External.{External}
use cryptoballot.Identifier.{Identifier, IsWellFormed, TransactionType, new, to_array, as_u8}
use cryptoballot.Identifier.Order.{to_array-IsBytes, id_eq_iff}
use cryptoballot.Identifier.Text.{to_string, new_from_str_id}
use cryptoballot.Election.{ElectionTransaction, build_id, new_election, get_ballot, Ballot}
use cryptoballot.Transaction.{
  Cbor, Signed, SignedTransaction, transaction_type, tx_id, EncryptionKeyTransaction,
  VotingEndTransaction, VoteTransaction,
}
use cryptoballot.Transaction.Ids.{vote_id, new_voting_end}
use cryptoballot.Transaction.Convert.{inner_encryption_key}
use cryptoballot.Transaction.Kinds.{from_signed}
use cryptoballot.Store.{Store, get_election}
use cryptoballot.Validate.{is_some}
use cryptoballot.Validate.Election.{validate_election, validate_voting_end}
use cryptoballot.Validate.Vote.{
  validate_vote, check_collision, check_authentications, check_contests,
}
use cryptoballot.Validate.Traits.{election_trait, vote_trait, voting_end_trait}
use cryptoballot.Validate.Signed.{validate, verify_any, validate_tx, unsigned}
use cryptoballot.Validate.Signed.Laws.{validate_iff}
use cryptoballot.Voting.{encrypt_vote}
use cryptoballot.Tasks.Sound.{sign_tx_own}
use cryptoballot.Cli.Generate.{
  write_in, test_election, test_vote, sign_into, generate_election, generate_voting_end,
  generate_vote,
}

module _ {x : External} (b : Cbor x) where
  open x use {SecretKey, Rng, Ciphertext, public_of, key_eq_iff, decode-encode}

  -- The generated election, before it is signed, is valid.
  test_election-validate :
      (key : x.PublicKey) (id : List ℕ) → validate_election (test_election {x = x} key id) ≡ ok tt
  unfolding validate_election test_election new_election build_id
  test_election-validate key id =
      let same = (id_eq_iff (build_id id) (build_id id)).1 refl in rw same refl

  -- The election that the client generates is signed, and every store accepts it.
  pub generate_election-validate :
      (secret : SecretKey) (id : List ℕ)
      → (t : SignedTransaction x) × (generate_election b secret id ≡ some t)
        × (tx_id t ≡ build_id id)
        × ((s : Store x) → validate b s t ≡ ok tt)
  unfolding generate_election sign_into from_signed tx_id transaction_type verify_any validate_tx
      unsigned test_election new_election build_id
  generate_election-validate secret id =
      let e : ElectionTransaction x = test_election (public_of secret) id in
      let (u, signs, same, good) = sign_tx_own b election_trait secret e refl in
      (
        SignedTransaction.election u,
        rw signs refl,
        ap (λ (t : ElectionTransaction x). t.id) same,
        λ s. (validate_iff b s (SignedTransaction.election u)).1 (
          ap (λ (t : ElectionTransaction x). t.id.transaction_type) same,
          (good, rw same (test_election-validate (public_of secret) id)),
        ),
      )

  new_from_str_id-to_string :
      (id : Identifier) (t : TransactionType)
      → IsWellFormed id
      → new_from_str_id x (to_string x id) t none ≡ some (new id t none)
  unfolding new_from_str_id to_string to_array new
  new_from_str_id-to_string id t w = ground (
    arith,
    decode-encode (to_array id) (to_array-IsBytes id w),
    length-append id.election_id (as_u8 id.transaction_type ∷ id.unique_info),
    w.election_length,
    take-append 15 id.election_id (as_u8 id.transaction_type ∷ id.unique_info) w.election_length,
  )

  -- At the text of an election's id, the client generates the end of voting for a store that has the
  -- election and whose authority holds the secret key: it is signed, and the store accepts it.
  pub generate_voting_end-validate :
      (secret : SecretKey) (s : Store x) (id : List ℕ) (e : Signed x (ElectionTransaction x))
      → IsWellFormed (build_id id)
      → get_election s (build_id id) ≡ ok e
      → e.tx.authority_public ≡ public_of secret
      → (t : SignedTransaction x) × (generate_voting_end b secret (to_string x (build_id id))
          ≡ some t)
        × (validate b s t ≡ ok tt)
  unfolding generate_voting_end sign_into from_signed tx_id transaction_type verify_any validate_tx
      unsigned new_voting_end new build_id validate_voting_end
  generate_voting_end-validate secret s id e w there own =
      let t : VotingEndTransaction x = new_voting_end (build_id id) (public_of secret) in
      let (u, signs, same, good) = sign_tx_own b voting_end_trait secret t refl in
      let named = new_from_str_id-to_string (build_id id) TransactionType.election w in
      let key = (key_eq_iff (public_of secret) e.tx.authority_public).1 (sym own) in
      (
        SignedTransaction.voting_end u,
        rw (named, signs) refl,
        (validate_iff b s (SignedTransaction.voting_end u)).1 (
          ap (λ (v : VotingEndTransaction x). v.id.transaction_type) same,
          (good, rw (same, there, key) refl),
        ),
      )

  -- The vote that the client generates, without any authentication, is signed and accepted, when the
  -- server answers the encryption key, the vote's text can be encoded, and the store has the election
  -- with the ballot and the first contest in it, has the encryption key, no end of voting, and no vote
  -- whose key starts alike.
  pub generate_vote-validate :
      (secret : SecretKey) (s : Store x) (id : List ℕ) (text : String) (rng rng' : Rng)
      (answers : Identifier → Option (SignedTransaction x))
      (k : Signed x (EncryptionKeyTransaction x)) (cs : List Ciphertext)
      (e : Signed x (ElectionTransaction x)) (ballot : Ballot x)
      → IsWellFormed (build_id id)
      → answers (new (build_id id) TransactionType.encryption_key none)
        ≡ some (SignedTransaction.encryption_key k)
      → encrypt_vote {x = x} k.tx.encryption_key (write_in text ∷ []) rng ≡ ok (rng', cs)
      → get_election s k.tx.election ≡ ok e
      → check_collision s (test_vote k.tx.election (public_of secret) cs) ≡ ok tt
      → is_some (s.get_transaction (new k.tx.election TransactionType.encryption_key none)) ≡ true
      → is_some (s.get_transaction (new k.tx.election TransactionType.voting_end none)) ≡ false
      → get_ballot e.tx "BALLOT1" ≡ some ballot
      → any (λ c. c == 0) ballot.contests ≡ true
      → (t : SignedTransaction x) × (generate_vote b answers rng secret
            (to_string x (build_id id))
            text
          ≡ some t)
        × (validate b s t ≡ ok tt)
  unfolding generate_vote sign_into from_signed tx_id transaction_type verify_any validate_tx
      unsigned test_vote new vote_id validate_vote inner_encryption_key check_authentications
      check_contests
  generate_vote-validate secret s id text rng rng' answers k cs e ballot w answered encrypted there
        free key open_ found_ first =
      let t : VoteTransaction x = test_vote k.tx.election (public_of secret) cs in
      let (u, signs, same, good) = sign_tx_own b vote_trait secret t refl in
      let named = new_from_str_id-to_string (build_id id) TransactionType.encryption_key w in
      let composed = (id_eq_iff t.id t.id).1 refl in
      (
        SignedTransaction.vote u,
        rw (named, answered, encrypted, signs) refl,
        (validate_iff b s (SignedTransaction.vote u)).1 (
          ap (λ (v : VoteTransaction x). v.id.transaction_type) same,
          (good, rw (same, composed, there, free, key, open_, found_, first) refl),
        ),
      )
