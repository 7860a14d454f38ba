-- ===== src/Tasks/Partials.antt =====
-- `produce_partials` of cryptoballot_server/src/tasks.rs: the partial decryptions that a trustee
-- makes of a finished mix, or of all votes where the election has no mix.
pub mod Laws
pub mod Accepted
use cryptoballot.Prelude.{
  ℕ, suc, ◌%◌, List, [], ◌∷◌, ◌++◌, Option, none, some, Result, ok, ◌>>=◌, unwind, map_err,
  and_then,
}
use cryptoballot.External.{External}
use cryptoballot.Errors.{Error}
use cryptoballot.Identifier.{Identifier, TransactionType}
use cryptoballot.Election.{ElectionTransaction, Trustee}
use cryptoballot.Transaction.{
  Cbor, Signed, SignedTransaction, EncryptedShare, EncryptedVote, MixTransaction, VoteTransaction,
}
use cryptoballot.Transaction.Convert.{inner_key_gen_commitment, inner_key_gen_share, inner_vote}
use cryptoballot.Transaction.Ids.{new_partial_decryption}
use cryptoballot.Store.{Store, get_multiple}
use cryptoballot.Trustee.{partial_decrypt}
use cryptoballot.Validate.Traits.{partial_decryption_trait}
use cryptoballot.Validate.Signed.{sign_tx}
use cryptoballot.Tasks.{read_all, commitments_of, x25519_keys_of, shares_for}

module _ (x : External) where
  open x use {X25519PublicKey, KeygenCommitment}

  -- what a trustee reads from the store before it decrypts
  pub record Material : Type 0 where
    pub x25519_public_keys : List (ℕ × X25519PublicKey)
    pub commitments : List (ℕ × KeygenCommitment)
    pub shares : List (ℕ × EncryptedShare)

module _ {x : External} where
  open x use {Rng, SecretKey, Ciphertext, DecryptShare, public_of}

  unfoldable pub read_material : Store x → ElectionTransaction x → Trustee x → Option (Material x)
  read_material s election trustee =
      and_then (read_all s inner_key_gen_share election.id TransactionType.key_gen_share)
        λ share_txs.
          and_then
            (read_all s inner_key_gen_commitment election.id TransactionType.key_gen_commitment)
            λ commit_txs. and_then (shares_for trustee.index share_txs) λ shares. some (record {
              x25519_public_keys = x25519_keys_of commit_txs;
              commitments = commitments_of commit_txs;
              shares = shares;
            })

  -- the inner loop over the ciphertexts
  unfoldable pub decrypt_all :
      Rng
      → SecretKey
      → ElectionTransaction x
      → Trustee x
      → Material x
      → List Ciphertext
      → Result (Error x) (Rng × List DecryptShare)
  decrypt_all rng secret election trustee m [] = ok (rng, [])
  decrypt_all rng secret election trustee m (ciphertext ∷ rest) = do
    made ← map_err Error.validation_error (
        partial_decrypt rng trustee secret m.x25519_public_keys m.commitments m.shares ciphertext
          election.id)
    more ← decrypt_all made.0 secret election trustee m rest
    ok (more.0, made.1 ∷ more.1)

module _ {x : External} (b : Cbor x) where
  open x use {Rng, SecretKey, Ciphertext, DecryptShare, public_of}

  -- the partial decryption of one list of ciphertexts
  unfoldable pub make_partial :
      Rng
      → SecretKey
      → ElectionTransaction x
      → Trustee x
      → Material x
      → Identifier
      → ℕ
      → ℕ
      → List Ciphertext
      → Result (Error x) (Rng × SignedTransaction x)
  unfolding decrypt_all
  make_partial rng secret election trustee m upstream_id upstream_index contest_index ciphertexts =
      do
        made ← decrypt_all rng secret election trustee m ciphertexts
        signed ← sign_tx b partial_decryption_trait secret (
            new_partial_decryption election.id upstream_id upstream_index trustee.index
              contest_index (public_of secret) made.1)
        ok (made.0, SignedTransaction.partial_decryption signed)

  -- the loop over the outputs of a mix; the index is cut to 16 bits
  unfoldable pub partials_of_mix :
      Rng
      → SecretKey
      → ElectionTransaction x
      → Trustee x
      → Material x
      → Identifier
      → ℕ
      → ℕ
      → List (List Ciphertext)
      → Result (Error x) (List (SignedTransaction x))
  unfolding make_partial
  partials_of_mix rng secret election trustee m mix_id contest_index i [] = ok []
  partials_of_mix rng secret election trustee m mix_id contest_index i (ciphertexts ∷ rest) = do
    made ← make_partial rng secret election trustee m mix_id (i % 65536) contest_index ciphertexts
    more ← partials_of_mix made.0 secret election trustee m mix_id contest_index (suc i) rest
    ok (made.1 ∷ more)

  -- the loop over the contests of a vote
  unfoldable pub partials_of_vote :
      Rng
      → SecretKey
      → ElectionTransaction x
      → Trustee x
      → Material x
      → Identifier
      → List (EncryptedVote x)
      → Result (Error x) (Rng × List (SignedTransaction x))
  unfolding make_partial
  partials_of_vote rng secret election trustee m vote_id [] = ok (rng, [])
  partials_of_vote rng secret election trustee m vote_id (v ∷ rest) = do
    made ← make_partial rng secret election trustee m vote_id 0 v.contest_index v.selections
    more ← partials_of_vote made.0 secret election trustee m vote_id rest
    ok (more.0, made.1 ∷ more.1)

  unfoldable pub partials_of_votes :
      Rng
      → SecretKey
      → ElectionTransaction x
      → Trustee x
      → Material x
      → List (SignedTransaction x)
      → Result (Error x) (List (SignedTransaction x))
  unfolding partials_of_vote
  partials_of_votes rng secret election trustee m [] = ok []
  partials_of_votes rng secret election trustee m (tx ∷ rest) = do
    vote ← unwind (inner_vote tx)
    made ← partials_of_vote rng secret election trustee m vote.id vote.encrypted_votes
    more ← partials_of_votes made.0 secret election trustee m rest
    ok (made.1 ++ more)

  -- the match on `mix_tx`
  unfoldable pub partials_of :
      Rng
      → SecretKey
      → Store x
      → ElectionTransaction x
      → Trustee x
      → Material x
      → ℕ
      → Option (MixTransaction x)
      → Result (Error x) (List (SignedTransaction x))
  unfolding partials_of_mix partials_of_votes
  partials_of rng secret s election trustee m contest_index (some mix) =
      partials_of_mix rng secret election trustee m mix.id contest_index 0 mix.mixed_ciphertexts
  partials_of rng secret s election trustee m contest_index none =
      unwind (get_multiple s election.id TransactionType.vote) >>= λ txs.
      partials_of_votes rng secret election trustee m txs

  unfoldable pub produce_partials :
      Rng
      → SecretKey
      → Store x
      → ElectionTransaction x
      → Trustee x
      → ℕ
      → Option (MixTransaction x)
      → Result (Error x) (List (SignedTransaction x))
  unfolding read_material partials_of
  produce_partials rng secret s election trustee contest_index mix_tx =
      unwind (read_material s election trustee) >>= λ m.
      partials_of rng secret s election trustee m contest_index mix_tx
