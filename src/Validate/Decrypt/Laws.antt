-- ===== src/Validate/Decrypt/Laws.antt =====
-- `decrypt_vote` of decryption.rs: its result against the ciphertexts, and what it looks at.
use mathlib.Core.Path.{subst, fun_ext}
use cryptoballot.Prelude.{
  and_then, ==_iff, ap, inl, ◌↔◌, any, Bool-cases, ℕ, suc, ◌≡◌, refl, true, List, [], ◌∷◌, Option,
  none, some, ok, ◌==◌, arith, >>=-eq-ok, unwind-eq-ok, ok-injective, from_sum-eq-ok, inr, unwind,
  from_sum,
}
use cryptoballot.External.{External, Selection}
use cryptoballot.Election.{Trustee}
use cryptoballot.Transaction.{KeyGenPublicKeyTransaction, PartialDecryptionTransaction}
use cryptoballot.Validate.Decrypt.Shares.{Adds, Adds-add_trustees, add_trustees-Adds}
use cryptoballot.Validate.Decrypt.{
  add_share_of, get_last, add_trustee, add_trustees, decrypt_from, decrypt_vote,
}

-- An entry that comes later hides all that is before it.
get_last_hidden :
    {A : Type 0} (index : A → ℕ) (l r : Option A) (k : ℕ) (xs : List A)
    → any (λ a. index a == k) xs ≡ true
    → get_last index l k xs ≡ get_last index r k xs
unfolding get_last
get_last_hidden index l r k [] h = cc
get_last_hidden index l r k (a ∷ xs) h = elim (Bool-cases (index a == k)) [
  | inl here ↦ rw here
  | inr there ↦ rw there (get_last_hidden index l r k xs (ground arith))
]

get_last_overwritten :
    {A : Type 0} (index : A → ℕ) (a : A) (xs : List A) (k : ℕ)
    → any (λ b. index b == index a) xs ≡ true
    → get_last index none k (a ∷ xs) ≡ get_last index none k xs
unfolding get_last
get_last_overwritten index a xs k h = elim (Bool-cases (index a == k)) [
  | inl here ↦ rw here (
      get_last_hidden index (some a) none k xs
        (subst (λ n. any (λ b. index b == n) xs ≡ true) ((==_iff _ _).0 here) h))
  | inr there ↦ rw there
]

module _ {x : External} where
  open x use {Ciphertext, Decryption, decryption_new, finish, selection_decode}

  -- the selection that the shares of the trustees give for the `i`th ciphertext
  pub Decrypts :
      ℕ
      → List (Trustee x)
      → List (KeyGenPublicKeyTransaction x)
      → List (PartialDecryptionTransaction x)
      → ℕ
      → Ciphertext
      → Selection
      → Type 0
  Decrypts threshold trustees pubkeys partials i c selection =
      (d : Decryption) × (raw : List ℕ) × Adds pubkeys partials i trustees
        (decryption_new threshold c) d
      × (finish d ≡ inr raw)
      × (selection_decode raw ≡ inr selection)

  pub DecryptsAll :
      ℕ
      → List (Trustee x)
      → List (KeyGenPublicKeyTransaction x)
      → List (PartialDecryptionTransaction x)
      → ℕ
      → List Ciphertext
      → List Selection
      → Type 0
  unfolding Decrypts
  DecryptsAll threshold trustees pubkeys partials i [] [] = Unit {0}
  DecryptsAll threshold trustees pubkeys partials i [] (s ∷ ss) = ⊥
  DecryptsAll threshold trustees pubkeys partials i (c ∷ cs) [] = ⊥
  DecryptsAll threshold trustees pubkeys partials i (c ∷ cs) (s ∷ ss) =
      Decrypts threshold trustees pubkeys partials i c s
      × DecryptsAll threshold trustees pubkeys partials (suc i) cs ss

  decrypt_from-DecryptsAll :
      (threshold : ℕ) (trustees : List (Trustee x)) (pubkeys : List (KeyGenPublicKeyTransaction x))
      (partials : List (PartialDecryptionTransaction x)) (i : ℕ) (cs : List Ciphertext)
      (ss : List Selection)
      → decrypt_from threshold trustees pubkeys partials i cs ≡ ok ss
      → DecryptsAll threshold trustees pubkeys partials i cs ss
  unfolding decrypt_from DecryptsAll Decrypts
  decrypt_from-DecryptsAll threshold trustees pubkeys partials i [] [] h = tt
  decrypt_from-DecryptsAll threshold trustees pubkeys partials i [] (s ∷ ss) h = cc
  decrypt_from-DecryptsAll threshold trustees pubkeys partials i (c ∷ cs) ss h =
      let (d, made, k) =
        >>=-eq-ok (unwind (add_trustees pubkeys partials i trustees (decryption_new threshold c))) _
          h in
      let (raw, fin, k2) = >>=-eq-ok (from_sum _ (finish d)) _ k in
      let (s, dec, k3) = >>=-eq-ok (from_sum _ (selection_decode raw)) _ k2 in
      let (more, rest, k4) =
        >>=-eq-ok (decrypt_from threshold trustees pubkeys partials (suc i) cs) _ k3 in
      let first : Decrypts threshold trustees pubkeys partials i c s = (
        d,
        raw,
        add_trustees-Adds pubkeys partials i trustees _ d (unwind-eq-ok _ made),
        from_sum-eq-ok _ _ fin,
        from_sum-eq-ok _ _ dec,
      ) in
      let others =
        decrypt_from-DecryptsAll threshold trustees pubkeys partials (suc i) cs more rest in
      subst (DecryptsAll threshold trustees pubkeys partials i (c ∷ cs)) (ok-injective k4)
        (first, others)

  DecryptsAll-decrypt_from :
      (threshold : ℕ) (trustees : List (Trustee x)) (pubkeys : List (KeyGenPublicKeyTransaction x))
      (partials : List (PartialDecryptionTransaction x)) (i : ℕ) (cs : List Ciphertext)
      (ss : List Selection)
      → DecryptsAll threshold trustees pubkeys partials i cs ss
      → decrypt_from threshold trustees pubkeys partials i cs ≡ ok ss
  unfolding decrypt_from DecryptsAll Decrypts
  DecryptsAll-decrypt_from threshold trustees pubkeys partials i [] [] h = refl
  DecryptsAll-decrypt_from threshold trustees pubkeys partials i [] (s ∷ ss) h = absurd h
  DecryptsAll-decrypt_from threshold trustees pubkeys partials i (c ∷ cs) [] h = absurd h
  DecryptsAll-decrypt_from threshold trustees pubkeys partials i (c ∷ cs) (s ∷ ss) h =
      let ((d, raw, made, fin, dec), more) = h in
      rw (
        Adds-add_trustees pubkeys partials i made,
        fin,
        dec,
        DecryptsAll-decrypt_from threshold trustees pubkeys partials (suc i) cs ss more,
      )

  -- `decrypt_vote` returns exactly these selections, one for each ciphertext in order: the trustees with
  -- a partial decryption and a public key transaction, each in the order of the trustees and by the last
  -- of both that has its index, add their share of the ciphertext under their index and proof; finishing
  -- that gives bytes which decode to the selection.
  pub decrypt_vote_iff :
      (threshold : ℕ) (trustees : List (Trustee x)) (pubkeys : List (KeyGenPublicKeyTransaction x))
      (partials : List (PartialDecryptionTransaction x)) (cs : List Ciphertext)
      (ss : List Selection)
      → (decrypt_vote cs threshold trustees pubkeys partials ≡ ok ss)
        ↔ DecryptsAll threshold trustees pubkeys partials 0 cs ss
  unfolding decrypt_vote
  decrypt_vote_iff threshold trustees pubkeys partials cs ss = (
    decrypt_from-DecryptsAll threshold trustees pubkeys partials 0 cs ss,
    DecryptsAll-decrypt_from threshold trustees pubkeys partials 0 cs ss,
  )

  abbrev trustee_of : PartialDecryptionTransaction x → ℕ
  trustee_of p = p.trustee_index

  add_trustee_overwritten :
      (pubkeys : List (KeyGenPublicKeyTransaction x)) (p : PartialDecryptionTransaction x)
      (partials : List (PartialDecryptionTransaction x)) (i : ℕ) (trustee : Trustee x)
      (decrypt : Decryption)
      → any (λ (q : PartialDecryptionTransaction x). q.trustee_index == p.trustee_index) partials
        ≡ true
      → add_trustee pubkeys (p ∷ partials) i trustee decrypt
        ≡ add_trustee pubkeys partials i trustee decrypt
  unfolding add_trustee
  add_trustee_overwritten pubkeys p partials i trustee decrypt h =
      ap
        (λ o.
          add_share_of {x = x} o
            (get_last (λ (q : KeyGenPublicKeyTransaction x). q.trustee_index) none trustee.index
              pubkeys)
            i trustee decrypt)
        (get_last_overwritten trustee_of p partials trustee.index h)

  add_trustees_overwritten :
      (pubkeys : List (KeyGenPublicKeyTransaction x)) (p : PartialDecryptionTransaction x)
      (partials : List (PartialDecryptionTransaction x)) (i : ℕ) (trustees : List (Trustee x))
      (decrypt : Decryption)
      → any (λ (q : PartialDecryptionTransaction x). q.trustee_index == p.trustee_index) partials
        ≡ true
      → add_trustees pubkeys (p ∷ partials) i trustees decrypt
        ≡ add_trustees pubkeys partials i trustees decrypt
  unfolding add_trustees
  add_trustees_overwritten pubkeys p partials i [] decrypt h = refl
  add_trustees_overwritten pubkeys p partials i (t ∷ ts) decrypt h =
      rw (add_trustee_overwritten pubkeys p partials i t decrypt h) (
        ap (and_then (add_trustee pubkeys partials i t decrypt))
          (fun_ext (λ d. add_trustees_overwritten pubkeys p partials i ts d h)))

  decrypt_from_overwritten :
      (cs : List Ciphertext) (threshold i : ℕ) (trustees : List (Trustee x))
      (pubkeys : List (KeyGenPublicKeyTransaction x)) (p : PartialDecryptionTransaction x)
      (partials : List (PartialDecryptionTransaction x))
      → any (λ (q : PartialDecryptionTransaction x). q.trustee_index == p.trustee_index) partials
        ≡ true
      → decrypt_from threshold trustees pubkeys (p ∷ partials) i cs
        ≡ decrypt_from threshold trustees pubkeys partials i cs
  unfolding decrypt_from
  decrypt_from_overwritten [] threshold i trustees pubkeys p partials h = refl
  decrypt_from_overwritten (c ∷ cs) threshold i trustees pubkeys p partials h = rw (
    add_trustees_overwritten pubkeys p partials i trustees (decryption_new threshold c) h,
    decrypt_from_overwritten cs threshold (suc i) trustees pubkeys p partials h,
  )

  -- A partial decryption that a later one of the same trustee follows adds nothing: the result is the
  -- same without it.
  pub decrypt_vote_overwritten :
      (cs : List Ciphertext) (threshold : ℕ) (trustees : List (Trustee x))
      (pubkeys : List (KeyGenPublicKeyTransaction x)) (p : PartialDecryptionTransaction x)
      (partials : List (PartialDecryptionTransaction x))
      → any (λ (q : PartialDecryptionTransaction x). q.trustee_index == p.trustee_index) partials
        ≡ true
      → decrypt_vote cs threshold trustees pubkeys (p ∷ partials)
        ≡ decrypt_vote cs threshold trustees pubkeys partials
  unfolding decrypt_vote
  decrypt_vote_overwritten cs threshold trustees pubkeys p partials h =
      decrypt_from_overwritten cs threshold 0 trustees pubkeys p partials h
