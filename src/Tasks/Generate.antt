-- ===== src/Tasks/Generate.antt =====
-- `generate_transactions` of cryptoballot_server/src/tasks.rs: what a server posts in answer to a
-- transaction.
pub mod Laws
use cryptoballot.Prelude.{List, [], Result, ok}
use cryptoballot.External.{External}
use cryptoballot.Errors.{Error}
use cryptoballot.Transaction.{Cbor, SignedTransaction}
use cryptoballot.Store.{Store}
use cryptoballot.Tasks.Keygen.{
  process_election, process_keygen_commitment, process_keygen_share, process_keygen_public_key,
}
use cryptoballot.Tasks.Mixing.{ContestVotes, process_voting_end, process_mix}
use cryptoballot.Tasks.Decrypting.{process_partial_decryption}

module _ {x : External} (b : Cbor x) (order : List (ContestVotes x) → List (ContestVotes x)) where
  open x use {Rng, SecretKey}

  unfoldable pub generate_transactions :
      Rng
      → SecretKey
      → SignedTransaction x
      → Store x
      → Result (Error x) (List (SignedTransaction x))
  generate_transactions rng secret (SignedTransaction.election t) s = process_election b secret t.tx
  generate_transactions rng secret (SignedTransaction.key_gen_commitment t) s =
      process_keygen_commitment b rng secret s t.tx
  generate_transactions rng secret (SignedTransaction.key_gen_share t) s =
      process_keygen_share b secret s t.tx
  generate_transactions rng secret (SignedTransaction.key_gen_public_key t) s =
      process_keygen_public_key b secret s t.tx
  generate_transactions rng secret (SignedTransaction.voting_end t) s =
      process_voting_end b order rng secret s t.tx
  generate_transactions rng secret (SignedTransaction.mix t) s = process_mix b rng secret s t.tx
  generate_transactions rng secret (SignedTransaction.partial_decryption t) s =
      process_partial_decryption b secret s t.tx
  generate_transactions rng secret _ s = ok []
