-- ===== src/Tasks/Decrypting/Accepted.antt =====
-- The decryption that a trustee's server posts (`process_partial_decryption` of tasks.rs), against the
-- validation of the store that it was made from (decryption.rs).
use mathlib.Core.Path.{subst}
use cryptoballot.Prelude.{
  leb, ◌≡◌, ◌≤◌, refl, sym, ap, ◌∙◌, true, List, [], ◌∷◌, some, ok, map, map_err, arith, length,
  unwind, >>=-eq-ok, map_err-eq-ok, unwind-eq-ok, and_then-eq-some, ok-injective, some-injective,
}
use cryptoballot.External.{External, Selection}
use cryptoballot.Errors.{Error}
use cryptoballot.Identifier.{TransactionType, new}
use cryptoballot.Identifier.Order.{id_eq_iff}
use cryptoballot.Election.{ElectionTransaction, get_full_trustees}
use cryptoballot.Transaction.{
  Cbor, Signed, SignedTransaction, KeyGenPublicKeyTransaction, PartialDecryptionTransaction,
  DecryptionTransaction, transaction_type, tx_id,
}
use cryptoballot.Transaction.Convert.{
  inner_key_gen_public_key, signed_key_gen_public_key, inner_partial_decryption, convert_all,
}
use cryptoballot.Transaction.Ids.{new_decryption, decryption_id}
use cryptoballot.Store.{Store, get_election, get_multiple}
use cryptoballot.Validate.Decrypt.{decrypt_vote}
use cryptoballot.Validate.Decryption.{fetch_partials, validate_decryption}
use cryptoballot.Validate.Upstream.{encrypted_vote_from_upstream_tx}
use cryptoballot.Validate.Traits.{decryption_trait}
use cryptoballot.Validate.Signed.{sign_tx, validate, verify_any, validate_tx, unsigned}
use cryptoballot.Validate.Signed.Laws.{validate_iff, sign_tx-verify_signature}
use cryptoballot.Tasks.{read_all}
use cryptoballot.Tasks.Decrypting.Inputs.{
  selections_eq_refl, length-convert_all, convert_all-signed, decrypted_as,
}
use cryptoballot.Tasks.Decrypting.{
  upstream_of, make_decryption, partials_bound, process_partial_decryption,
}

module _ {x : External} where
  -- What the validation of a decryption asks of the store for a partial decryption, the ciphertexts of
  -- its upstream, and all the partial decryptions that the server has read.
  pub record IsReady (s : Store x) (e : Signed x (ElectionTransaction x))
      (p : PartialDecryptionTransaction x) (cs : List x.Ciphertext)
      (partials : List (PartialDecryptionTransaction x)) : Type 0 where
    pub elected : get_election s e.tx.id ≡ ok e
    pub upstream :
        encrypted_vote_from_upstream_tx s p.upstream_id p.upstream_index p.contest_index
          e.tx.mix_config
        ≡ ok cs
    pub fetched :
        (vote : List Selection)
        → fetch_partials s e.tx
            (new_decryption e.tx.id p.upstream_id p.contest_index p.upstream_index
              (map (λ q. q.trustee_index) partials)
              vote)
            (map (λ q. q.trustee_index) partials)
          ≡ ok partials

module _ {x : External} (b : Cbor x) where
  open x use {SecretKey, Ciphertext}

  decryption_head :
      {u v : Signed x (DecryptionTransaction x)} {ts us : List (SignedTransaction x)}
      → ◌≡◌ {A = List (SignedTransaction x)}
          (SignedTransaction.decryption u ∷ ts)
          (SignedTransaction.decryption v ∷ us)
      → u ≡ v
  decryption_head h = cc

  validate_decryption-made :
      (s : Store x) (e : Signed x (ElectionTransaction x)) (p : PartialDecryptionTransaction x)
      (cs : List Ciphertext) (partials : List (PartialDecryptionTransaction x))
      (ptxs : List (SignedTransaction x)) (ss : List (Signed x (KeyGenPublicKeyTransaction x)))
      (vote : List Selection)
      → IsReady s e p cs partials
      → e.tx.trustees_threshold ≤ length partials
      → get_multiple s e.tx.id TransactionType.key_gen_public_key ≡ some ptxs
      → convert_all signed_key_gen_public_key ptxs ≡ some ss
      → decrypt_vote cs e.tx.trustees_threshold e.tx.trustees (map (λ k. k.tx) ss) partials
        ≡ ok vote
      → validate_decryption s (
          new_decryption e.tx.id p.upstream_id p.contest_index p.upstream_index
            (map (λ q. q.trustee_index) partials)
            vote)
        ≡ ok tt
  unfolding validate_decryption new_decryption
  validate_decryption-made s e p cs partials ptxs ss vote ready enough there signed decrypted =
      let id = decryption_id e.tx.id p.upstream_id p.contest_index p.upstream_index in
      let composed = (id_eq_iff id id).1 refl in
      let above : leb e.tx.trustees_threshold (length partials) ≡ true = ground (arith, enough) in
      rw
        (
          composed,
          ready.elected,
          ready.upstream,
          there,
          signed,
          ready.fetched vote,
          above,
          decrypted,
          selections_eq_refl vote,
        )
        refl

  make_decryption-validate :
      (secret : SecretKey) (s : Store x) (e : Signed x (ElectionTransaction x))
      (p : PartialDecryptionTransaction x) (txs : List (SignedTransaction x)) (cs : List Ciphertext)
      (partials : List (PartialDecryptionTransaction x)) (u : Signed x (DecryptionTransaction x))
      → convert_all inner_partial_decryption txs ≡ some partials
      → upstream_of p.upstream_id.transaction_type s p ≡ ok cs
      → IsReady s e p cs partials
      → e.tx.trustees_threshold ≤ length partials
      → make_decryption b secret s e.tx p txs ≡ ok (SignedTransaction.decryption u ∷ [])
      → validate b s (SignedTransaction.decryption u) ≡ ok tt
  unfolding make_decryption verify_any tx_id transaction_type new_decryption decryption_id new
      validate_tx unsigned validate_decryption read_all get_full_trustees decrypt_vote
  make_decryption-validate secret s e p txs cs partials u converted found_ ready enough made =
      let (ps, read, k) = >>=-eq-ok (unwind (convert_all inner_partial_decryption txs)) _ made in
      let (cs', got, k2) = >>=-eq-ok (upstream_of p.upstream_id.transaction_type s p) _ k in
      let (ks, keys, k3) =
        >>=-eq-ok
          (unwind (read_all s inner_key_gen_public_key e.tx.id TransactionType.key_gen_public_key))
          _ k2 in
      let (vote, decrypted, k4) =
        >>=-eq-ok
          (map_err Error.validation_error
            (decrypt_vote cs' e.tx.trustees_threshold (get_full_trustees e.tx) ks ps))
          _ k3 in
      let t : DecryptionTransaction x =
        new_decryption e.tx.id p.upstream_id p.contest_index p.upstream_index
          (map (λ q. q.trustee_index) ps) vote in
      let (v, signs, k5) = >>=-eq-ok (sign_tx b decryption_trait secret t) _ k4 in
      let same_u : v ≡ u = decryption_head (ok-injective k5) in
      let (kept, good) = sign_tx-verify_signature b decryption_trait secret t v signs in
      let same_ps : ps ≡ partials = some-injective (sym (unwind-eq-ok _ read) ∙ converted) in
      let same_cs : cs' ≡ cs = ok-injective (sym got ∙ found_) in
      let (ptxs, there, inners) =
        and_then-eq-some (get_multiple s e.tx.id TransactionType.key_gen_public_key) _
          (unwind-eq-ok _ keys) in
      let (ss, signed, same_ks) = convert_all-signed ptxs ks inners in
      let decrypted' =
        decrypted_as e.tx ks ps cs' vote same_ps same_cs same_ks (map_err-eq-ok _ _ decrypted) in
      let valid =
        validate_decryption-made s e p cs partials ptxs ss vote ready enough there signed
          decrypted' in
      let accepted : validate b s (SignedTransaction.decryption v) ≡ ok tt =
        (validate_iff b s (SignedTransaction.decryption v)).1 (
          ap (λ (d : DecryptionTransaction x). d.id.transaction_type) kept,
          (
            good,
            ap (validate_decryption s) (
                  kept
                  ∙ ap
                      (λ qs.
                        new_decryption e.tx.id p.upstream_id p.contest_index p.upstream_index
                          (map (λ q. q.trustee_index) qs) vote)
                      same_ps)
                ∙ valid,
          ),
        ) in
      subst (λ w. validate b s (SignedTransaction.decryption w) ≡ ok tt) same_u accepted

  -- A decryption comes out only of enough partial decryptions.
  process_partial_decryption-made :
      (secret : SecretKey) (s : Store x) (e : Signed x (ElectionTransaction x))
      (p : PartialDecryptionTransaction x) (txs : List (SignedTransaction x))
      (t : SignedTransaction x) (ts : List (SignedTransaction x))
      → get_election s p.election_id ≡ ok e
      → s.range (partials_bound e.tx.id p.id 0) (partials_bound e.tx.id p.id 255) ≡ some txs
      → process_partial_decryption b secret s p ≡ ok (t ∷ ts)
      → (leb e.tx.trustees_threshold (length txs) ≡ true)
        × (make_decryption b secret s e.tx p txs ≡ ok (t ∷ ts))
  unfolding process_partial_decryption
  process_partial_decryption-made secret s e p txs t ts there ranged made =
      ground (arith, there, ranged, made)

  -- The decryption that a server posts in answer to a partial decryption is accepted by its store, when
  -- the validation finds the same ciphertexts upstream, and under the trustees' indices the same partial
  -- decryptions, as the server has read from the range around the partial decryption.
  pub process_partial_decryption-validate :
      (secret : SecretKey) (s : Store x) (e : Signed x (ElectionTransaction x))
      (p : PartialDecryptionTransaction x) (txs : List (SignedTransaction x)) (cs : List Ciphertext)
      (partials : List (PartialDecryptionTransaction x)) (u : Signed x (DecryptionTransaction x))
      → get_election s p.election_id ≡ ok e
      → s.range (partials_bound e.tx.id p.id 0) (partials_bound e.tx.id p.id 255) ≡ some txs
      → convert_all inner_partial_decryption txs ≡ some partials
      → upstream_of p.upstream_id.transaction_type s p ≡ ok cs
      → IsReady s e p cs partials
      → process_partial_decryption b secret s p ≡ ok (SignedTransaction.decryption u ∷ [])
      → validate b s (SignedTransaction.decryption u) ≡ ok tt
  process_partial_decryption-validate secret s e p txs cs partials u there ranged converted found_
        ready made =
      let (above, run) =
        process_partial_decryption-made secret s e p txs (SignedTransaction.decryption u) [] there
          ranged made in
      let same = length-convert_all inner_partial_decryption txs partials converted in
      make_decryption-validate secret s e p txs cs partials u converted found_ ready
        (ground (arith, above, same)) run
