-- ===== src/Validate/Decryption/Partial.antt =====
-- What the validation of a partial decryption (decryption.rs) tells.
use mathlib.Core.Path.{subst}
use cryptoballot.Prelude.{
  find, find-In, ℕ, suc, ◌≡◌, sym, true, List, [], ◌∷◌, none, some, ok, length, get_elem?, In,
  ==_iff, and-eq-true, require-eq-ok, unwind-eq-ok, ok_or-eq-ok, >>=-eq-ok, unwind, ok_or,
}
use cryptoballot.External.{External}
use cryptoballot.Identifier.{TransactionType, new}
use cryptoballot.Identifier.Order.{id_eq_iff}
use cryptoballot.Election.{ElectionTransaction, Trustee, get_full_trustees}
use cryptoballot.Transaction.{
  Signed, SignedTransaction, KeyGenPublicKeyTransaction, PartialDecryptionTransaction,
}
use cryptoballot.Transaction.Ids.{key_gen_public_key_id, partial_decryption_id}
use cryptoballot.Store.{Store, get_election, get_keygen_public_key}
use cryptoballot.Validate.{is_some-eq-true, found-bind}
use cryptoballot.Validate.Upstream.{encrypted_vote_from_upstream_tx}
use cryptoballot.Validate.Decryption.{check_proofs, validate_partial_decryption}

module _ (x : External) where
  open x use {Ciphertext, DecryptShare, PubkeyProof, share_verify}

  -- Every share verifies against the proof of the trustee's key for the ciphertext at its place.
  pub Verify : PubkeyProof → List Ciphertext → ℕ → List DecryptShare → Type 0
  Verify proof cs i [] = Unit {0}
  Verify proof cs i (share ∷ rest) =
      ((c : Ciphertext) × (get_elem? cs i ≡ some c) × (share_verify share proof c ≡ true))
      × Verify proof cs (suc i) rest

module _ {x : External} where
  open x use {Ciphertext, DecryptShare, PubkeyProof, share_verify, key_eq_iff}

  check_proofs-Verify :
      (proof : PubkeyProof) (cs : List Ciphertext) (i : ℕ) (shares : List DecryptShare)
      → check_proofs {x = x} proof cs i shares ≡ ok tt
      → Verify x proof cs i shares
  unfolding check_proofs Verify
  check_proofs-Verify proof cs i [] h = tt
  check_proofs-Verify proof cs i (share ∷ rest) h =
      let (c, there, k) = >>=-eq-ok (unwind (get_elem? cs i)) _ h in
      let (good, more) = require-eq-ok _ _ _ k in
      ((c, unwind-eq-ok _ there, good), check_proofs-Verify proof cs (suc i) rest more)

  abbrev pub IsAcceptedPartial : Store x → PartialDecryptionTransaction x → Type 0
  IsAcceptedPartial s t =
      (e : Signed x (ElectionTransaction x)) × (k : Signed x (KeyGenPublicKeyTransaction x))
      × (cs : List Ciphertext) × (end_ : SignedTransaction x) × (get_election s t.election_id
          ≡ ok e)
      × ((trustee : Trustee x) × In trustee (get_full_trustees e.tx)
          × (trustee.index ≡ t.trustee_index)
          × (trustee.public_key ≡ t.trustee_public_key))
      × (t.id
          ≡ partial_decryption_id t.election_id t.upstream_id t.contest_index t.upstream_index
              t.trustee_index)
      × (s.get_transaction (new t.election_id TransactionType.voting_end none) ≡ some end_)
      × (encrypted_vote_from_upstream_tx s t.upstream_id t.upstream_index t.contest_index
            e.tx.mix_config
          ≡ ok cs)
      × (get_keygen_public_key s (key_gen_public_key_id t.election_id t.trustee_index) ≡ ok k)
      × (k.tx.trustee_index ≡ t.trustee_index)
      × (k.tx.trustee_public_key ≡ t.trustee_public_key)
      × (length cs ≡ length t.partial_decryption)
      × Verify x k.tx.public_key_proof cs 0 t.partial_decryption

  -- An accepted partial decryption: it comes from a trustee of the election, under the identifier
  -- composed for that trustee; voting has ended; the trustee's public key transaction is there and has its
  -- index and key; and it has one share for each upstream ciphertext, all of which verify.
  pub validate_partial_decryption_sound :
      (s : Store x) (t : PartialDecryptionTransaction x)
      → validate_partial_decryption s t ≡ ok tt
      → IsAcceptedPartial s t
  unfolding validate_partial_decryption
  validate_partial_decryption_sound s t h =
      let (e, there, k) = found-bind (get_election s t.election_id) _ h in
      let (u, fu, k2) = >>=-eq-ok (ok_or (find _ (get_full_trustees e.tx)) _) _ k in
      let (i, both) = find-In _ (get_full_trustees e.tx) (ok_or-eq-ok _ _ fu) in
      let (ix, ky) = and-eq-true _ _ both in
      let index = (==_iff _ _).0 ix in
      let (composed, k3) = require-eq-ok _ _ _ k2 in
      let (ended, k4) = require-eq-ok _ _ _ k3 in
      let (end_, is_end) = is_some-eq-true _ ended in
      let (cs, up, k5) =
        >>=-eq-ok
          (encrypted_vote_from_upstream_tx s t.upstream_id t.upstream_index t.contest_index
            e.tx.mix_config)
          _ k4 in
      let (pk, key_there, k6) =
        found-bind (get_keygen_public_key s (key_gen_public_key_id t.election_id t.trustee_index)) _
          k5 in
      let (agree, k7) = require-eq-ok _ _ _ k6 in
      let (a, b) = and-eq-true _ _ agree in
      let (n, k8) = require-eq-ok _ _ _ k7 in
      (
        e,
        pk,
        cs,
        end_,
        there,
        (u, i, index, (key_eq_iff _ _).0 ky),
        subst
            (λ m.
              t.id
              ≡ partial_decryption_id t.election_id t.upstream_id t.contest_index t.upstream_index
                  m)
            index (sym ((id_eq_iff _ _).0 composed)),
        is_end,
        up,
        key_there,
        sym ((==_iff _ _).0 a),
        sym ((key_eq_iff _ _).0 b),
        (==_iff _ _).0 n,
        check_proofs-Verify _ cs 0 t.partial_decryption k8,
      )
