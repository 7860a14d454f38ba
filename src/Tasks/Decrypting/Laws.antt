-- ===== src/Tasks/Decrypting/Laws.antt =====
-- What the task of the decryption (tasks.rs) posts is signed.
use cryptoballot.Prelude.{ap, List, unwind, leb, map, map_err, length}
use cryptoballot.External.{External}
use cryptoballot.Errors.{Error}
use cryptoballot.Identifier.{TransactionType, new}
use cryptoballot.Election.{ElectionTransaction, get_full_trustees}
use cryptoballot.Transaction.{
  Cbor, SignedTransaction, PartialDecryptionTransaction, DecryptionTransaction, transaction_type,
  tx_id,
}
use cryptoballot.Transaction.Convert.{
  inner_key_gen_public_key, inner_partial_decryption, convert_all,
}
use cryptoballot.Validate.Decrypt.{decrypt_vote}
use cryptoballot.Transaction.Ids.{new_decryption, decryption_id}
use cryptoballot.Store.{Store, get_election}
use cryptoballot.Validate.Traits.{decryption_trait}
use cryptoballot.Validate.Signed.{verify_any}
use cryptoballot.Tasks.{looked_up, read_all, trustee_from_election}
use cryptoballot.Tasks.Sound.{
  IsSigned, AreSigned, Yields-nothing, Yields-sign_tx, Yields->>=, Yields-if_trustee, Yields-if,
}
use cryptoballot.Tasks.Decrypting.{
  partials_bound, upstream_of, make_decryption, process_partial_decryption,
}

module _ {x : External} (b : Cbor x) where
  open x use {Rng, SecretKey, EncryptionKey, Ciphertext}

  make_decryption-AreSigned :
      (secret : SecretKey) (s : Store x) (e : ElectionTransaction x)
      (p : PartialDecryptionTransaction x) (txs : List (SignedTransaction x))
      → AreSigned b (make_decryption b secret s e p txs)
  unfolding make_decryption verify_any tx_id transaction_type new_decryption decryption_id new
  make_decryption-AreSigned secret s e p txs =
      Yields->>= (IsSigned b) (unwind (convert_all inner_partial_decryption txs)) _ λ partials got.
        Yields->>= (IsSigned b) (upstream_of p.upstream_id.transaction_type s p) _
          λ ciphertexts got.
            Yields->>= (IsSigned b)
              (unwind (read_all s inner_key_gen_public_key e.id TransactionType.key_gen_public_key))
              _
              λ pubkeys got.
                Yields->>= (IsSigned b)
                  (map_err Error.validation_error (
                    decrypt_vote ciphertexts e.trustees_threshold (get_full_trustees e) pubkeys
                      partials))
                  _
                  λ decrypted got.
                    Yields-sign_tx b (IsSigned b) decryption_trait SignedTransaction.decryption
                      secret
                      (new_decryption e.id p.upstream_id p.contest_index p.upstream_index
                        (map (λ t. t.trustee_index) partials) decrypted)
                      λ u same good.
                        (good, ap (λ (t : DecryptionTransaction x). t.id.transaction_type) same)

  pub process_partial_decryption-AreSigned :
      (secret : SecretKey) (s : Store x) (p : PartialDecryptionTransaction x)
      → AreSigned b (process_partial_decryption b secret s p)
  unfolding process_partial_decryption
  process_partial_decryption-AreSigned secret s p =
      Yields->>= (IsSigned b) (looked_up (get_election s p.election_id)) _ λ e got.
        Yields-if_trustee (IsSigned b) (trustee_from_election e.tx (x.public_of secret)) _
          λ trustee chosen.
            Yields->>= (IsSigned b)
              (unwind (s.range (partials_bound e.tx.id p.id 0) (partials_bound e.tx.id p.id 255))) _
              λ txs got.
                Yields-if (IsSigned b) (leb e.tx.trustees_threshold (length txs)) _ _
                  (make_decryption-AreSigned secret s e.tx p txs) (Yields-nothing (IsSigned b))
