-- ===== src/Tasks.antt =====
-- The tasks of a trustee's server: cryptoballot_server/src/tasks.rs. Here are the choice of the
-- trustee, the steps that the tasks share, and the next mix; each child has the tasks of one phase of
-- an election, and Generate the dispatch. `crate::secret_key()` of main.rs is an argument, the public
-- key is derived from it, and the generators of random numbers are arguments.
pub mod Laws
pub mod Sound
pub mod Keygen
pub mod Partials
pub mod Mixing
pub mod Decrypting
pub mod Generate
use cryptoballot.Prelude.{
  ℕ, ◌+◌, ◌%◌, Bool, true, false, List, [], ◌∷◌, Option, none, some, Result, ok, err, ◌>>=◌, unwind,
  ◌==◌, if◌then◌else◌, find, map, map_err, and_then,
}
use cryptoballot.External.{External}
use cryptoballot.Errors.{Error, TransactionNotFound}
use cryptoballot.Identifier.{Identifier, TransactionType}
use cryptoballot.Trustee.{index_get}
use cryptoballot.Election.{ElectionTransaction, Trustee, get_full_trustees}
use cryptoballot.Transaction.{
  Cbor, Signed, SignedTransaction, MixTransaction, KeyGenCommitmentTransaction,
  KeyGenShareTransaction, EncryptedShare,
}
use cryptoballot.Transaction.Convert.{inner_encryption_key, convert_all}
use cryptoballot.Transaction.Ids.{encryption_key_id, new_mix}
use cryptoballot.Store.{Store, get_multiple}
use cryptoballot.Validate.Mix.{mix}
use cryptoballot.Validate.Traits.{mix_trait}
use cryptoballot.Validate.Signed.{sign_tx}

module _ {x : External} where
  unfoldable pub trustee_from_election : ElectionTransaction x → x.PublicKey → Option (Trustee x)
  trustee_from_election e public_key =
      find (λ t. x.key_eq t.public_key public_key) (get_full_trustees e)

  -- what the tasks do for a trustee of the election; for anyone else there is nothing to do
  abbrev pub if_trustee :
      Option (Trustee x)
      → (Trustee x → Result (Error x) (List (SignedTransaction x)))
      → Result (Error x) (List (SignedTransaction x))
  if_trustee none task = ok []
  if_trustee (some trustee) task = task trustee

  -- `?` on a typed lookup
  abbrev pub looked_up : {A : Type 0} → Result TransactionNotFound A → Result (Error x) A
  looked_up = map_err Error.transaction_not_found

  -- `store.get_multiple(..).into_iter().map(|tx| tx.into()).collect()`
  unfoldable pub read_all :
      {T : Type 0}
      → Store x
      → (SignedTransaction x → Option T)
      → Identifier
      → TransactionType
      → Option (List T)
  read_all s inner election_id tx_type =
      and_then (get_multiple s election_id tx_type) (convert_all inner)

  -- the pairs of a trustee's index and what it sent to all
  unfoldable pub commitments_of :
      List (KeyGenCommitmentTransaction x) → List (ℕ × x.KeygenCommitment)
  commitments_of = map (λ t. (t.trustee_index, t.commitment))

  unfoldable pub x25519_keys_of :
      List (KeyGenCommitmentTransaction x) → List (ℕ × x.X25519PublicKey)
  x25519_keys_of = map (λ t. (t.trustee_index, t.x25519_public_key))

  -- the shares for one trustee, with their senders; `none` is the panic of the `unwrap` where there is
  -- none
  unfoldable pub shares_for :
      ℕ → List (KeyGenShareTransaction x) → Option (List (ℕ × EncryptedShare))
  shares_for index [] = some []
  shares_for index (t ∷ ts) =
      and_then (index_get index t.shares)
        λ share. and_then (shares_for index ts) λ rest. some ((t.trustee_index, share) ∷ rest)

module _ {x : External} (b : Cbor x) where
  open x use {Rng, SecretKey}

  -- The next mix of `process_mix`, made with a fresh generator. The mix index is a `u8`.
  unfoldable pub next_mix :
      Rng
      → Store x
      → ElectionTransaction x
      → Trustee x
      → SecretKey
      → MixTransaction x
      → Result (Error x) (Signed x (MixTransaction x))
  next_mix rng s election trustee secret_key mix_tx = do
    tx ← unwind (s.get_transaction (encryption_key_id election.id))
    key ← unwind (inner_encryption_key tx)
    mixed ←
        (mix rng mix_tx.mixed_ciphertexts key.encryption_key trustee.index
          ((mix_tx.mix_index + 1) % 256) mix_tx.contest_index 0).1
    sign_tx b mix_trait secret_key (
        new_mix election.id none trustee ((mix_tx.mix_index + 1) % 256) mix_tx.contest_index 0
          mix_tx.vote_ids mixed.0 mixed.1)

  -- The mixing branch of `process_mix`, where the mix is not the last one: the trustee whose turn it is
  -- makes the next mix.
  unfoldable pub mix_in_turn :
      Rng
      → Store x
      → ElectionTransaction x
      → Trustee x
      → SecretKey
      → MixTransaction x
      → Result (Error x) (List (SignedTransaction x))
  mix_in_turn rng s election trustee secret_key mix_tx =
      let made = next_mix rng s election trustee secret_key mix_tx in
      if trustee.index == (mix_tx.mix_index + 2) % 256
      then (made >>= λ t. ok (SignedTransaction.mix t ∷ []))
      else ok []
