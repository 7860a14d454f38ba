-- ===== src/Tasks/Generate/Laws.antt =====
-- Everything that a trustee's server posts is signed (tasks.rs).
use cryptoballot.Prelude.{◌≡◌, List, ok, All}
use cryptoballot.External.{External}
use cryptoballot.Transaction.{Cbor, SignedTransaction}
use cryptoballot.Store.{Store}
use cryptoballot.Tasks.Sound.{IsSigned, Yields-nothing}
use cryptoballot.Tasks.Mixing.{ContestVotes}
use cryptoballot.Tasks.Generate.{generate_transactions}
use cryptoballot.Tasks.Keygen.Laws.{
  process_election-AreSigned, process_keygen_commitment-AreSigned, process_keygen_share-AreSigned,
  process_keygen_public_key-AreSigned,
}
use cryptoballot.Tasks.Decrypting.Laws.{process_partial_decryption-AreSigned}
use cryptoballot.Tasks.Mixing.Laws.{process_mix-AreSigned, process_voting_end-AreSigned}

module _ {x : External} (b : Cbor x) where
  open x use {Rng, SecretKey, EncryptionKey, Ciphertext}

  module _ (order : List (ContestVotes x) → List (ContestVotes x)) where
    -- Whatever a server posts in answer to a transaction carries a valid signature, under an identifier
    -- of the transaction's own type: only its contents can make a store refuse it.
    pub generate_transactions_sound :
        (rng : Rng) (secret : SecretKey) (tx : SignedTransaction x) (s : Store x)
        (txs : List (SignedTransaction x))
        → generate_transactions b order rng secret tx s ≡ ok txs
        → All (IsSigned b) txs
    unfolding generate_transactions
    generate_transactions_sound rng secret (SignedTransaction.election t) s txs h =
        process_election-AreSigned b secret t.tx txs h
    generate_transactions_sound rng secret (SignedTransaction.key_gen_commitment t) s txs h =
        process_keygen_commitment-AreSigned b rng secret s t.tx txs h
    generate_transactions_sound rng secret (SignedTransaction.key_gen_share t) s txs h =
        process_keygen_share-AreSigned b secret s t.tx txs h
    generate_transactions_sound rng secret (SignedTransaction.key_gen_public_key t) s txs h =
        process_keygen_public_key-AreSigned b secret s t.tx txs h
    generate_transactions_sound rng secret (SignedTransaction.encryption_key t) s txs h =
        Yields-nothing (IsSigned b) txs h
    generate_transactions_sound rng secret (SignedTransaction.vote t) s txs h =
        Yields-nothing (IsSigned b) txs h
    generate_transactions_sound rng secret (SignedTransaction.voting_end t) s txs h =
        process_voting_end-AreSigned b order rng secret s t.tx txs h
    generate_transactions_sound rng secret (SignedTransaction.mix t) s txs h =
        process_mix-AreSigned b rng secret s t.tx txs h
    generate_transactions_sound rng secret (SignedTransaction.partial_decryption t) s txs h =
        process_partial_decryption-AreSigned b secret s t.tx txs h
    generate_transactions_sound rng secret (SignedTransaction.decryption t) s txs h =
        Yields-nothing (IsSigned b) txs h
