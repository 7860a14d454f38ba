-- ===== src/Tasks/Mixing.antt =====
-- The tasks of the mixes: `process_voting_end` and `process_mix` of cryptoballot_server/src/tasks.rs.
pub mod Laws
pub mod Contests
pub mod Entries
pub mod First
pub mod Rejected
use cryptoballot.Prelude.{
  ℕ, ◌+◌, ◌%◌, List, [], ◌∷◌, ◌++◌, Option, none, some, Result, ok, ◌>>=◌, unwind, ◌==◌,
  if◌then◌else◌, map,
}
use cryptoballot.External.{External}
use cryptoballot.Errors.{Error}
use cryptoballot.Identifier.{Identifier, TransactionType}
use cryptoballot.Election.{ElectionTransaction, Trustee, MixConfig, Contest}
use cryptoballot.Transaction.{
  Cbor, Signed, SignedTransaction, EncryptedVote, MixTransaction, VoteTransaction,
  VotingEndTransaction,
}
use cryptoballot.Transaction.Convert.{inner_vote, inner_encryption_key}
use cryptoballot.Transaction.Ids.{encryption_key_id, new_mix}
use cryptoballot.Store.{Store, get_election}
use cryptoballot.Validate.Mix.{mix}
use cryptoballot.Validate.Traits.{mix_trait}
use cryptoballot.Validate.Signed.{sign_tx}
use cryptoballot.Tasks.{trustee_from_election, if_trustee, looked_up, read_all, mix_in_turn}
use cryptoballot.Tasks.Partials.{produce_partials}

module _ (x : External) where
  -- the votes for one contest, with their identifiers
  abbrev pub ContestVotes : Type 0
  ContestVotes = ℕ × List (Identifier × List x.Ciphertext)

-- `contest_votes.entry(contest).or_insert(vec![]).push(vote)`, on a list of entries
unfoldable pub push_vote : {V : Type 0} → ℕ → V → List (ℕ × List V) → List (ℕ × List V)
push_vote contest vote [] = (contest, vote ∷ []) ∷ []
push_vote contest vote ((c, votes) ∷ m) =
    let rest = push_vote contest vote m in
    if c == contest then (c, votes ++ (vote ∷ [])) ∷ m else (c, votes) ∷ rest

module _ {x : External} where
  unfoldable pub push_votes :
      Identifier → List (EncryptedVote x) → List (ContestVotes x) → List (ContestVotes x)
  unfolding push_vote
  push_votes id [] m = m
  push_votes id (v ∷ vs) m = push_votes id vs (push_vote v.contest_index (id, v.selections) m)

  -- the map from contests to votes
  unfoldable pub contest_votes :
      List (VoteTransaction x) → List (ContestVotes x) → List (ContestVotes x)
  unfolding push_votes
  contest_votes [] m = m
  contest_votes (t ∷ ts) m = contest_votes ts (push_votes t.id t.encrypted_votes m)

module _ {x : External} (b : Cbor x) where
  open x use {Rng, SecretKey, EncryptionKey, public_of}

  -- the loop over the entries of the map, each of which is mixed for the first time
  unfoldable pub mix_contests :
      Rng
      → SecretKey
      → ElectionTransaction x
      → Trustee x
      → EncryptionKey
      → List (ContestVotes x)
      → Result (Error x) (List (SignedTransaction x))
  mix_contests rng secret election trustee key [] = ok []
  mix_contests rng secret election trustee key ((contest, votes) ∷ rest) =
      let run = mix {x = x} rng (map (λ v. v.1) votes) key trustee.index 0 contest 0 in
      do
        mixed ← run.1
        signed ←
            sign_tx b mix_trait secret
              (new_mix election.id none trustee 0 contest 0 (map (λ v. v.0) votes) mixed.0 mixed.1)
        more ← mix_contests run.0 secret election trustee key rest
        ok (SignedTransaction.mix signed ∷ more)

  -- The order in which a `HashMap` gives its entries is not fixed: it is an argument.
  module _ (order : List (ContestVotes x) → List (ContestVotes x)) where
    unfoldable pub first_mixes :
        Rng
        → SecretKey
        → Store x
        → ElectionTransaction x
        → Trustee x
        → Result (Error x) (List (SignedTransaction x))
    unfolding mix_contests contest_votes
    first_mixes rng secret s election trustee = do
      tx ← unwind (s.get_transaction (encryption_key_id election.id))
      key ← unwind (inner_encryption_key tx)
      vote_txs ← unwind (read_all s inner_vote election.id TransactionType.vote)
      mix_contests rng secret election trustee key.encryption_key
          (order (contest_votes vote_txs []))

    -- Without a mix, the loop over the contests returns at the first one.
    abbrev pub end_voting :
        Rng
        → SecretKey
        → Store x
        → ElectionTransaction x
        → Trustee x
        → Option MixConfig
        → List (Contest x)
        → Result (Error x) (List (SignedTransaction x))
    end_voting rng secret s election trustee (some config) contests =
        if trustee.index == 1 then first_mixes rng secret s election trustee else ok []
    end_voting rng secret s election trustee none [] = ok []
    end_voting rng secret s election trustee none (contest ∷ contests) =
        produce_partials b rng secret s election trustee contest.index none

    unfoldable pub process_voting_end :
        Rng
        → SecretKey
        → Store x
        → VotingEndTransaction x
        → Result (Error x) (List (SignedTransaction x))
    unfolding first_mixes
    process_voting_end rng secret s voting_end_tx = do
      election ← looked_up (get_election s voting_end_tx.election)
      if_trustee (trustee_from_election election.tx (public_of secret)) λ trustee.
          end_voting rng secret s election.tx trustee election.tx.mix_config election.tx.contests

  -- After the last mix come the partial decryptions, after any other the next mix.
  abbrev pub after_mix :
      Rng
      → SecretKey
      → Store x
      → ElectionTransaction x
      → Trustee x
      → MixTransaction x
      → Option MixConfig
      → Result (Error x) (List (SignedTransaction x))
  after_mix rng secret s election trustee mix_tx none = ok []
  after_mix rng secret s election trustee mix_tx (some config) =
      if election.trustees_threshold == (mix_tx.mix_index + 1) % 256
      then produce_partials b rng secret s election trustee mix_tx.contest_index (some mix_tx)
      else mix_in_turn b rng s election trustee secret mix_tx

  unfoldable pub process_mix :
      Rng → SecretKey → Store x → MixTransaction x → Result (Error x) (List (SignedTransaction x))
  process_mix rng secret s mix_tx = do
    election ← looked_up (get_election s mix_tx.election_id)
    if_trustee (trustee_from_election election.tx (public_of secret))
        λ trustee. after_mix rng secret s election.tx trustee mix_tx election.tx.mix_config
