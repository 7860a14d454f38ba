-- ===== src/Validate/Decryption/Laws.antt =====
-- What the validation of a decryption (decryption.rs) tells.
use mathlib.Core.Path.{subst}
use cryptoballot.Prelude.{
  map, require_last, ok-injective, ◌≤◌, ◌==◌, ap, ◌∙◌, leb-le, not, if◌then◌else◌, find, find-In, ℕ,
  suc, ◌≡◌, refl, sym, Bool, true, List, [], ◌∷◌, some, ok, length, arith, eq_iff, In, ==_iff,
  and-eq-true, require-eq-ok, unwind-eq-ok, ok_or-eq-ok, >>=-eq-ok, unwind, ok_or,
}
use cryptoballot.External.{External, Selection}
use cryptoballot.Identifier.{TransactionType}
use cryptoballot.Identifier.Order.{id_eq_iff}
use cryptoballot.Election.{get_trustee, ElectionTransaction, Trustee}
use cryptoballot.Transaction.{
  DecryptionTransaction, Signed, SignedTransaction, KeyGenPublicKeyTransaction,
  PartialDecryptionTransaction,
}
use cryptoballot.Transaction.Ids.{decryption_id, partial_decryption_id}
use cryptoballot.Store.{get_multiple, get_partial_decryption, Store, get_election}
use cryptoballot.Validate.{found-bind}
use cryptoballot.Validate.Upstream.{encrypted_vote_from_upstream_tx}
use cryptoballot.Validate.Decrypt.Laws.{DecryptsAll, decrypt_vote_iff}
use cryptoballot.Validate.Decryption.{
  decrypt_vote, signed_key_gen_public_key, convert_all, validate_decryption, fetch_partials,
  selection_eq, selections_eq,
}

same_bool : (a b : Bool) → (if a then b else not b) ≡ true → a ≡ b
same_bool a b h = ground arith

selection_eq-eq : (a b : Selection) → selection_eq a b ≡ true → a ≡ b
unfolding selection_eq
selection_eq-eq a b h =
    let (p, q) = and-eq-true _ _ h in
    let (q, r) = and-eq-true _ _ q in
    let p' = same_bool a.write_in b.write_in p in
    let q' = (==_iff a.score b.score).0 q in
    let r' = (eq_iff a.selection b.selection).0 r in cc (p', q', r')

selections_eq-eq : (xs ys : List Selection) → selections_eq xs ys ≡ true → xs ≡ ys
unfolding selections_eq
selections_eq-eq [] [] h = refl
selections_eq-eq [] (y ∷ ys) h = cc
selections_eq-eq (a ∷ xs) [] h = cc
selections_eq-eq (a ∷ xs) (b ∷ bs) h =
    let (p, q) = and-eq-true _ _ h in
    let p' = selection_eq-eq a b p in let q' = selections_eq-eq xs bs q in cc (p', q')

module _ {x : External} where
  open x use {Ciphertext, DecryptShare, PubkeyProof, share_verify, key_eq_iff}

  -- Each listed trustee is one of the election's, and its partial decryption is in the store.
  pub Fetched :
      Store x
      → ElectionTransaction x
      → DecryptionTransaction x
      → List ℕ
      → List (PartialDecryptionTransaction x)
      → Type 0
  Fetched s e t [] [] = Unit {0}
  Fetched s e t [] (p ∷ ps) = ⊥
  Fetched s e t (i ∷ is) [] = ⊥
  Fetched s e t (i ∷ is) (p ∷ ps) =
      ((trustee : Trustee x) × In trustee e.trustees × (trustee.index ≡ i))
      × ((signed : Signed x (PartialDecryptionTransaction x)) × (get_partial_decryption s
              (partial_decryption_id t.election_id t.upstream_id t.contest_index t.upstream_index i)
            ≡ ok signed)
          × (signed.tx ≡ p))
      × Fetched s e t is ps

  fetch_partials-Fetched :
      (s : Store x) (e : ElectionTransaction x) (t : DecryptionTransaction x) (is : List ℕ)
      (ps : List (PartialDecryptionTransaction x))
      → fetch_partials s e t is ≡ ok ps
      → Fetched s e t is ps
  unfolding fetch_partials Fetched get_trustee
  fetch_partials-Fetched s e t [] [] h = tt
  fetch_partials-Fetched s e t [] (p ∷ ps) h = cc
  fetch_partials-Fetched s e t (i ∷ is) ps h =
      let (u, fu, k) = >>=-eq-ok (ok_or (find (λ t. i == t.index) e.trustees) _) _ h in
      let (m, same) = find-In _ e.trustees (ok_or-eq-ok _ _ fu) in
      let index = sym ((==_iff _ _).0 same) in
      let (p, there, k2) =
        found-bind
          (get_partial_decryption s (
            partial_decryption_id t.election_id t.upstream_id t.contest_index t.upstream_index
              u.index))
          _ k in
      let (more, rest, k3) = >>=-eq-ok (fetch_partials s e t is) _ k2 in
      subst (Fetched s e t (i ∷ is)) (ok-injective k3) (
        (u, m, index),
        (
          p,
          subst
              (λ j.
                get_partial_decryption s (
                  partial_decryption_id t.election_id t.upstream_id t.contest_index t.upstream_index
                    j)
                ≡ ok p)
              index there,
          refl,
        ),
        fetch_partials-Fetched s e t is more rest,
      )

  length-Fetched :
      (s : Store x) (e : ElectionTransaction x) (t : DecryptionTransaction x) (is : List ℕ)
      (ps : List (PartialDecryptionTransaction x))
      → Fetched s e t is ps
      → length ps ≡ length is
  unfolding Fetched
  length-Fetched s e t [] [] h = refl
  length-Fetched s e t [] (p ∷ ps) h = absurd h
  length-Fetched s e t (i ∷ is) [] h = absurd h
  length-Fetched s e t (i ∷ is) (p ∷ ps) h = ap suc (length-Fetched s e t is ps h.2)

  abbrev pub IsAcceptedDecryption : Store x → DecryptionTransaction x → Type 0
  IsAcceptedDecryption s t =
      (e : Signed x (ElectionTransaction x)) × (cs : List Ciphertext) × (txs : List
        (SignedTransaction x))
      × (keys : List (Signed x (KeyGenPublicKeyTransaction x))) × (partials : List
          (PartialDecryptionTransaction x))
      × (t.id ≡ decryption_id t.election_id t.upstream_id t.contest_index t.upstream_index)
      × (get_election s t.election_id ≡ ok e)
      × (encrypted_vote_from_upstream_tx s t.upstream_id t.upstream_index t.contest_index
            e.tx.mix_config
          ≡ ok cs)
      × (get_multiple s t.election_id TransactionType.key_gen_public_key ≡ some txs)
      × (convert_all signed_key_gen_public_key txs ≡ some keys)
      × Fetched s e.tx t t.trustees partials
      × (e.tx.trustees_threshold ≤ length t.trustees)
      × DecryptsAll e.tx.trustees_threshold e.tx.trustees (map (λ p. p.tx) keys) partials 0 cs
          t.decrypted_vote

  -- An accepted decryption has the composed identifier; each trustee that it lists is one of the
  -- election's and has its partial decryption in the store; at least the threshold are listed; and its
  -- vote is what those shares, with the public key transactions of the store, decrypt the upstream
  -- ciphertexts to.
  pub validate_decryption_sound :
      (s : Store x) (t : DecryptionTransaction x)
      → validate_decryption s t ≡ ok tt
      → IsAcceptedDecryption s t
  unfolding validate_decryption
  validate_decryption_sound s t h =
      let (composed, k) = require-eq-ok _ _ _ h in
      let (e, there, k2) = found-bind (get_election s t.election_id) _ k in
      let (cs, up, k3) =
        >>=-eq-ok
          (encrypted_vote_from_upstream_tx s t.upstream_id t.upstream_index t.contest_index
            e.tx.mix_config)
          _ k2 in
      let (txs, many, k4) =
        >>=-eq-ok (unwind (get_multiple s t.election_id TransactionType.key_gen_public_key)) _ k3 in
      let (keys, all_keys, k5) =
        >>=-eq-ok (unwind (convert_all signed_key_gen_public_key txs)) _ k4 in
      let (partials, fetched, k6) = >>=-eq-ok (fetch_partials s e.tx t t.trustees) _ k5 in
      let (enough, k7) = require-eq-ok _ _ _ k6 in
      let (vote, made, k8) =
        >>=-eq-ok
          (decrypt_vote cs e.tx.trustees_threshold e.tx.trustees (map (λ p. p.tx) keys) partials) _
          k7 in
      let same = selections_eq-eq vote t.decrypted_vote (require_last _ _ k8) in
      let listed = fetch_partials-Fetched s e.tx t t.trustees partials fetched in
      (
        e,
        cs,
        txs,
        keys,
        partials,
        sym ((id_eq_iff _ _).0 composed),
        there,
        up,
        unwind-eq-ok _ many,
        unwind-eq-ok _ all_keys,
        listed,
        subst (λ n. e.tx.trustees_threshold ≤ n)
            (length-Fetched s e.tx t t.trustees partials listed) (leb-le _ _ enough),
        (decrypt_vote_iff _ _ _ partials cs t.decrypted_vote).0 (made ∙ ap ok same),
      )
