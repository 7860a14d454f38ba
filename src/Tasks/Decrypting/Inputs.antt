-- ===== src/Tasks/Decrypting/Inputs.antt =====
-- What a decryption is made of (`make_decryption` of tasks.rs), as the validation of decryption.rs reads
-- it: the public keys by another conversion, the trustees without their full information.
use cryptoballot.Prelude.{
  suc, Option, ℕ, ◌≡◌, refl, sym, ap, ◌∙◌, true, List, [], ◌∷◌, some, none, ok, map, arith, length,
  and_then, and_then-eq-some, some-injective,
}
use text.Mathlib.TextEquality.{eq_iff}
use cryptoballot.External.{External, Selection}
use cryptoballot.Election.{ElectionTransaction, Trustee, get_full_trustees, full_trustee}
use cryptoballot.Transaction.{
  Signed, SignedTransaction, KeyGenPublicKeyTransaction, PartialDecryptionTransaction,
}
use cryptoballot.Transaction.Convert.{
  inner_key_gen_public_key, signed_key_gen_public_key, convert_all,
}
use cryptoballot.Validate.Decrypt.{
  decrypt_vote, decrypt_from, add_trustees, add_trustee, add_share_of, get_last,
}
use cryptoballot.Validate.Decryption.{selection_eq, selections_eq}

selection_eq_refl : (a : Selection) → selection_eq a a ≡ true
unfolding selection_eq
selection_eq_refl a = ground (arith, eq_iff a.selection a.selection)

pub selections_eq_refl : (xs : List Selection) → selections_eq xs xs ≡ true
unfolding selections_eq
selections_eq_refl [] = refl
selections_eq_refl (a ∷ xs) = rw (selection_eq_refl a, selections_eq_refl xs) refl

and_then-ap :
    {A B : Type 0} (o : Option A) {f g : A → Option B}
    → ((a : A) → f a ≡ g a)
    → and_then o f ≡ and_then o g
and_then-ap none h = refl
and_then-ap (some a) h = h a

pub length-convert_all :
    {A B : Type 0} (f : A → Option B) (xs : List A) (ys : List B)
    → convert_all f xs ≡ some ys
    → length ys ≡ length xs
unfolding convert_all
length-convert_all f [] ys h = ap length (sym (some-injective h))
length-convert_all f (a ∷ xs) ys h =
    let (y, one, h2) = and_then-eq-some (f a) _ h in
    let (rest, more, h3) = and_then-eq-some (convert_all f xs) _ h2 in
    ap length (sym (some-injective h3)) ∙ ap suc (length-convert_all f xs rest more)

module _ {x : External} where
  inner_key_gen_public_key-eq-some :
      (t : SignedTransaction x) (k : KeyGenPublicKeyTransaction x)
      → inner_key_gen_public_key t ≡ some k
      → (s : Signed x (KeyGenPublicKeyTransaction x)) × (signed_key_gen_public_key t ≡ some s)
        × (s.tx ≡ k)
  unfolding inner_key_gen_public_key signed_key_gen_public_key
  inner_key_gen_public_key-eq-some (SignedTransaction.key_gen_public_key s) k h =
      (s, refl, some-injective h)
  inner_key_gen_public_key-eq-some _ k h = absurd cc

  -- What converts to contents converts to signed transactions with these contents.
  pub convert_all-signed :
      (txs : List (SignedTransaction x)) (ks : List (KeyGenPublicKeyTransaction x))
      → convert_all inner_key_gen_public_key txs ≡ some ks
      → (ss : List (Signed x (KeyGenPublicKeyTransaction x))) × (convert_all
            signed_key_gen_public_key txs
          ≡ some ss)
        × (map (λ s. s.tx) ss ≡ ks)
  unfolding convert_all
  convert_all-signed [] ks h = ([], refl, some-injective h)
  convert_all-signed (t ∷ txs) ks h =
      let (k, first, h2) = and_then-eq-some (inner_key_gen_public_key t) _ h in
      let (rest, others, h3) = and_then-eq-some (convert_all inner_key_gen_public_key txs) _ h2 in
      let (s, signed, same) = inner_key_gen_public_key-eq-some t k first in
      let (ss, signeds, sames) = convert_all-signed txs rest others in
      (
        s ∷ ss,
        rw (signed, signeds) refl,
        ap (λ j. j ∷ map (λ s. s.tx) ss) same ∙ ap (λ r. k ∷ r) sames ∙ some-injective h3,
      )

  module _ (e : ElectionTransaction x) (pubkeys : List (KeyGenPublicKeyTransaction x))
      (partials : List (PartialDecryptionTransaction x)) where
    -- Only the indices of the trustees count.
    add_share_of-full :
        (p : Option (PartialDecryptionTransaction x)) (k : Option (KeyGenPublicKeyTransaction x))
        (i : ℕ) (t : Trustee x) (d : x.Decryption)
        → add_share_of p k i (full_trustee e t) d ≡ add_share_of p k i t d
    unfolding full_trustee
    add_share_of-full none k i t d = refl
    add_share_of-full (some p) none i t d = refl
    add_share_of-full (some p) (some k) i t d = refl

    add_trustee-full :
        (i : ℕ) (t : Trustee x) (d : x.Decryption)
        → add_trustee pubkeys partials i (full_trustee e t) d ≡ add_trustee pubkeys partials i t d
    unfolding add_trustee full_trustee
    add_trustee-full i t d =
        add_share_of-full
          (get_last (λ (p : PartialDecryptionTransaction x). p.trustee_index) none t.index partials)
          (get_last (λ (p : KeyGenPublicKeyTransaction x). p.trustee_index) none t.index pubkeys) i
          t d

    add_trustees-full :
        (i : ℕ) (trustees : List (Trustee x)) (d : x.Decryption)
        → add_trustees pubkeys partials i (map (full_trustee e) trustees) d
          ≡ add_trustees pubkeys partials i trustees d
    unfolding add_trustees full_trustee
    add_trustees-full i [] d = refl
    add_trustees-full i (t ∷ trustees) d =
        rw (add_trustee-full i t d)
          (and_then-ap (add_trustee pubkeys partials i t d) (add_trustees-full i trustees))

    decrypt_from-full :
        (n i : ℕ) (cs : List x.Ciphertext) (trustees : List (Trustee x))
        → decrypt_from n (map (full_trustee e) trustees) pubkeys partials i cs
          ≡ decrypt_from n trustees pubkeys partials i cs
    unfolding decrypt_from
    decrypt_from-full n i [] trustees = refl
    decrypt_from-full n i (c ∷ cs) trustees =
        rw
          (
            add_trustees-full i trustees (x.decryption_new n c),
            decrypt_from-full n (suc i) cs trustees,
          )
          refl

module _ {x : External} where
  pub decrypted_as :
      (e : ElectionTransaction x) (ks : List (KeyGenPublicKeyTransaction x))
      (ps : List (PartialDecryptionTransaction x)) (cs : List x.Ciphertext) (vote : List Selection)
      {ps' : List (PartialDecryptionTransaction x)} {cs' : List x.Ciphertext}
      {ks' : List (KeyGenPublicKeyTransaction x)}
      → ps ≡ ps'
      → cs ≡ cs'
      → ks' ≡ ks
      → decrypt_vote cs e.trustees_threshold (get_full_trustees e) ks ps ≡ ok vote
      → decrypt_vote cs' e.trustees_threshold e.trustees ks' ps' ≡ ok vote
  unfolding decrypt_vote get_full_trustees
  decrypted_as e ks ps cs vote a c k h =
      rw (← a, ← c, k) (sym (decrypt_from-full e ks ps e.trustees_threshold 0 cs e.trustees) ∙ h)
