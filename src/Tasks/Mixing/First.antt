-- ===== src/Tasks/Mixing/First.antt =====
-- The first mixes that a server makes at the end of voting (`process_voting_end` of tasks.rs), against
-- the votes of its store.
use cryptoballot.Prelude.{ℕ, ◌≡◌, ◌≢◌, List, [], none, some, ok, map, All, In}
use cryptoballot.External.{External}
use cryptoballot.Identifier.{Identifier, TransactionType}
use cryptoballot.Election.{ElectionTransaction}
use cryptoballot.Transaction.{
  Signed, SignedTransaction, VoteTransaction, MixTransaction, EncryptionKeyTransaction,
}
use cryptoballot.Transaction.Convert.{inner_vote, inner_encryption_key, convert_all}
use cryptoballot.Transaction.Ids.{encryption_key_id}
use cryptoballot.Store.{Store, get_multiple}
use cryptoballot.Validate.Mix.{mix, verify_mix}
use cryptoballot.Tasks.Mixing.Contests.{votes_for}

module _ {x : External} where
  open x use {Ciphertext, EncryptionKey}

  -- What a mix has that is a first mix for its contest: it lists the votes for the contest, and its proof
  -- verifies the shuffle of what these votes hold for the contest.
  abbrev pub IsOf :
      ElectionTransaction x → EncryptionKey → List (VoteTransaction x) → MixTransaction x → Type 0
  IsOf e key ts t =
      (t.election_id ≡ e.id)
      × (t.prev_mix_id ≡ none)
      × (t.mix_index ≡ 0)
      × (t.vote_ids ≡ map (λ v. v.0) (votes_for t.contest_index ts))
      × (verify_mix {x = x} (map (λ v. v.1) (votes_for t.contest_index ts)) t.mixed_ciphertexts key
            t.proof t.trustee_index t.mix_index t.contest_index t.batch
          ≡ ok tt)

  abbrev pub IsFirstMixOf :
      ElectionTransaction x
      → EncryptionKey
      → List (VoteTransaction x)
      → SignedTransaction x
      → Type 0
  IsFirstMixOf e key ts t =
      (u : Signed x (MixTransaction x)) × (t ≡ SignedTransaction.mix u) × IsOf e key ts u.tx

  -- One of the transactions is a mix for the contest.
  abbrev pub HasMixFor : ℕ → List (SignedTransaction x) → Type 0
  HasMixFor c txs =
      (u : Signed x (MixTransaction x)) × In (SignedTransaction.mix u) txs
      × (u.tx.contest_index ≡ c)

  -- What the first trustee's server has read and made: the store has the encryption key and returns all
  -- votes of the election, and the transactions are first mixes of these votes, one for each contest that
  -- a vote has selections for.
  abbrev pub AreFirstMixes : Store x → ElectionTransaction x → List (SignedTransaction x) → Type 0
  AreFirstMixes s e txs =
      (tx : SignedTransaction x) × (key : EncryptionKeyTransaction x) × (stored : List
        (SignedTransaction x))
      × (ts : List (VoteTransaction x)) × (s.get_transaction (encryption_key_id e.id) ≡ some tx)
      × (inner_encryption_key tx ≡ some key)
      × (get_multiple s e.id TransactionType.vote ≡ some stored)
      × (convert_all inner_vote stored ≡ some ts)
      × All (IsFirstMixOf e key.encryption_key ts) txs
      × ((c : ℕ) → votes_for c ts ≢ [] → HasMixFor c txs)
