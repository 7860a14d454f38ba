-- ===== src/Validate/Decrypt.antt =====
-- `decrypt_vote` of cryptoballot/src/decryption.rs.
pub mod Shares
pub mod Laws
use cryptoballot.Prelude.{
  ℕ, zero, suc, ◌+◌, ◌-◌, ◌%◌, Bool, true, false, not, ◌&&◌, List, [], ◌∷◌, Option, none, some,
  String, str_eq, map, Result, ok, err, panic, ◌>>=◌, ◌>>◌, require, unwind, ok_or, from_sum,
  and_then, length, ◌==◌, ltb, leb, find, get_elem?, if◌then◌else◌,
}
use cryptoballot.External.{External, Selection}
use cryptoballot.Errors.{
  ValidationError, identifier_bad_composition, trustee_does_not_exist,
  missing_voting_end_transaction, trustee_public_key_mismatch, partial_decryption_proof_failed,
  not_enough_shares, vote_decryption_mismatch, vote_decryption_failed, vote_decoding_error,
  invalid_upstream_id, invalid_upstream_index, invalid_upstream_contest_index,
}
use cryptoballot.Identifier.{Identifier, TransactionType, id_eq, new}
use cryptoballot.Election.{MixConfig, Trustee, ElectionTransaction, get_full_trustees, get_trustee}
use cryptoballot.Transaction.{
  Signed, EncryptedVote, KeyGenPublicKeyTransaction, PartialDecryptionTransaction,
  DecryptionTransaction,
}
use cryptoballot.Transaction.Convert.{convert_all, signed_key_gen_public_key}
use cryptoballot.Transaction.Ids.{key_gen_public_key_id, partial_decryption_id, decryption_id}
use cryptoballot.Store.{
  Store, get_election, get_multiple, get_keygen_public_key, get_vote, get_mix,
  get_partial_decryption,
}
use cryptoballot.Validate.{found, is_some}

-- `iter().map(|tx| (tx.trustee_index, tx)).collect()` into a HashMap, and `get`: the last entry stays
unfoldable pub get_last : {A : Type 0} → (A → ℕ) → Option A → ℕ → List A → Option A
get_last index last k [] = last
get_last index last k (a ∷ rest) = get_last index (if index a == k then some a else last) k rest

module _ {x : External} where
  open x use {Ciphertext, Decryption, decryption_new, add_share, finish, selection_decode}

  -- one trustee's share of the `i`th ciphertext; `none` is the panic of an index out of range
  abbrev pub add_share_of :
      Option (PartialDecryptionTransaction x)
      → Option (KeyGenPublicKeyTransaction x)
      → ℕ
      → Trustee x
      → Decryption
      → Option Decryption
  add_share_of none pubkey i trustee decrypt = some decrypt
  add_share_of (some partial) none i trustee decrypt = some decrypt
  add_share_of (some partial) (some pubkey) i trustee decrypt =
      and_then (get_elem? partial.partial_decryption i)
        λ share. some (add_share decrypt trustee.index pubkey.public_key_proof share)

  unfoldable pub add_trustee :
      List (KeyGenPublicKeyTransaction x)
      → List (PartialDecryptionTransaction x)
      → ℕ
      → Trustee x
      → Decryption
      → Option Decryption
  unfolding get_last
  add_trustee pubkeys partials i trustee =
      add_share_of
        (get_last (λ (p : PartialDecryptionTransaction x). p.trustee_index) none trustee.index
          partials)
        (get_last (λ (p : KeyGenPublicKeyTransaction x). p.trustee_index) none trustee.index
          pubkeys)
        i trustee

  unfoldable pub add_trustees :
      List (KeyGenPublicKeyTransaction x)
      → List (PartialDecryptionTransaction x)
      → ℕ
      → List (Trustee x)
      → Decryption
      → Option Decryption
  unfolding add_trustee
  add_trustees pubkeys partials i [] decrypt = some decrypt
  add_trustees pubkeys partials i (trustee ∷ rest) decrypt =
      and_then (add_trustee pubkeys partials i trustee decrypt)
        (add_trustees pubkeys partials i rest)

  -- the loop of `decrypt_vote`, from the `i`th ciphertext on
  unfoldable pub decrypt_from :
      ℕ
      → List (Trustee x)
      → List (KeyGenPublicKeyTransaction x)
      → List (PartialDecryptionTransaction x)
      → ℕ
      → List Ciphertext
      → Result (ValidationError x) (List Selection)
  unfolding add_trustees
  decrypt_from threshold trustees pubkeys partials i [] = ok []
  decrypt_from threshold trustees pubkeys partials i (ciphertext ∷ rest) = do
    decrypt ←
        unwind (add_trustees pubkeys partials i trustees (decryption_new threshold ciphertext))
    raw_selection ← from_sum vote_decryption_failed (finish decrypt)
    selection ← from_sum vote_decoding_error (selection_decode raw_selection)
    selections ← decrypt_from threshold trustees pubkeys partials (suc i) rest
    ok (selection ∷ selections)

  unfoldable pub decrypt_vote :
      List Ciphertext
      → ℕ
      → List (Trustee x)
      → List (KeyGenPublicKeyTransaction x)
      → List (PartialDecryptionTransaction x)
      → Result (ValidationError x) (List Selection)
  unfolding decrypt_from
  decrypt_vote ciphertexts threshold trustees pubkeys partials =
      decrypt_from threshold trustees pubkeys partials 0 ciphertexts
