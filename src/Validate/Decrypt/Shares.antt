-- ===== src/Validate/Decrypt/Shares.antt =====
-- The shares that `decrypt_vote` of decryption.rs adds for one ciphertext, as a relation.
use cryptoballot.Prelude.{
  ℕ, ◌≡◌, ◌≢◌, ◌⊎◌, refl, sym, ap, ◌∙◌, List, [], ◌∷◌, Option, none, some, ◌==◌, ==_iff, Bool-cases,
  inl, inr, All, get_elem?, and_then, and_then-eq-some, some-injective, if◌then◌else◌,
}
use mathlib.Core.Path.{subst}
use cryptoballot.External.{External}
use cryptoballot.Election.{Trustee}
use cryptoballot.Transaction.{KeyGenPublicKeyTransaction, PartialDecryptionTransaction}
use cryptoballot.Validate.Decrypt.{add_share_of, get_last, add_trustee, add_trustees}

-- No element of the list has the index.
abbrev pub HasNone : {A : Type 0} → (A → ℕ) → ℕ → List A → Type 0
HasNone index k xs = All (λ a. index a ≢ k) xs

-- The element has the index, and none after it has.
abbrev pub IsLast : {A : Type 0} → (A → ℕ) → ℕ → A → List A → Type 0
IsLast index k a [] = ⊥
IsLast index k a (b ∷ xs) = ((b ≡ a) × (index b ≡ k) × HasNone index k xs) ⊎ IsLast index k a xs

module _ {A : Type 0} (index : A → ℕ) (k : ℕ) where
  HasNone-get_last : (l : Option A) (xs : List A) → HasNone index k xs → get_last index l k xs ≡ l
  unfolding get_last
  HasNone-get_last l [] h = refl
  HasNone-get_last l (b ∷ xs) (h, hs) = elim (Bool-cases (index b == k)) [
    | inl e ↦ absurd (h ((==_iff _ _).0 e))
    | inr e ↦ rw e (HasNone-get_last l xs hs)
  ]

  IsLast-get_last :
      (l : Option A) (a : A) (xs : List A) → IsLast index k a xs → get_last index l k xs ≡ some a
  unfolding get_last
  IsLast-get_last l a [] h = absurd h
  IsLast-get_last l a (b ∷ xs) (inl (e, here, none_later)) =
      HasNone-get_last (if index b == k then some b else l) xs none_later
      ∙ rw ((==_iff _ _).1 here) (ap some e)
  IsLast-get_last l a (b ∷ xs) (inr later) =
      IsLast-get_last (if index b == k then some b else l) a xs later

  -- One of the two holds of every list.
  IsLast-cases : (xs : List A) → ((a : A) × IsLast index k a xs) ⊎ HasNone index k xs
  IsLast-cases [] = inr tt
  IsLast-cases (b ∷ xs) = elim (IsLast-cases xs) [
    | inl (a, later) ↦ inl (a, inr later)
    | inr none_later ↦ elim (Bool-cases (index b == k)) [
      | inl e ↦ inl (b, inl (refl, (==_iff _ _).0 e, none_later))
      | inr e ↦ inr ((λ same. let p = (==_iff _ _).1 same in cc (p, e)), none_later)
    ]
  ]

module _ {x : External} where
  abbrev pub partial_index : PartialDecryptionTransaction x → ℕ
  partial_index p = p.trustee_index

  abbrev pub key_index : KeyGenPublicKeyTransaction x → ℕ
  key_index p = p.trustee_index

module _ {x : External} (pubkeys : List (KeyGenPublicKeyTransaction x))
    (partials : List (PartialDecryptionTransaction x)) (i : ℕ) where
  open x use {Decryption, add_share}

  abbrev pub IsPartialOf : ℕ → PartialDecryptionTransaction x → Type 0
  IsPartialOf k p = IsLast partial_index k p partials

  abbrev pub IsKeyOf : ℕ → KeyGenPublicKeyTransaction x → Type 0
  IsKeyOf k p = IsLast key_index k p pubkeys

  -- The trustee has no partial decryption or no public key transaction.
  abbrev pub HasNoShare : ℕ → Type 0
  HasNoShare k = HasNone partial_index k partials ⊎ HasNone key_index k pubkeys

  -- From one decryption to another by the `i`th shares of the trustees, in order: each trustee with a
  -- partial decryption and a public key transaction adds a share of its last ones, and no other does.
  pub data Adds : List (Trustee x) → Decryption → Decryption → Type 0 where
    done : {d : Decryption} → Adds [] d d
    counted :
        {t : Trustee x} {ts : List (Trustee x)} {d d' : Decryption}
        (p : PartialDecryptionTransaction x) (k : KeyGenPublicKeyTransaction x)
        (share : x.DecryptShare)
        → IsPartialOf t.index p
        → IsKeyOf t.index k
        → get_elem? p.partial_decryption i ≡ some share
        → Adds ts (add_share d t.index k.public_key_proof share) d'
        → Adds (t ∷ ts) d d'
    left_out :
        {t : Trustee x} {ts : List (Trustee x)} {d d' : Decryption}
        → HasNoShare t.index
        → Adds ts d d'
        → Adds (t ∷ ts) d d'

  add_share_of-none :
      (p : Option (PartialDecryptionTransaction x)) (t : Trustee x) (d : Decryption)
      → add_share_of p none i t d ≡ some d
  add_share_of-none none t d = refl
  add_share_of-none (some p) t d = refl

  pub Adds-add_trustees :
      {ts : List (Trustee x)} {d d' : Decryption}
      → Adds ts d d'
      → add_trustees pubkeys partials i ts d ≡ some d'
  unfolding add_trustees add_trustee
  Adds-add_trustees done = refl
  Adds-add_trustees (counted p k share last_p last_k there rest) =
      rw
        (
          IsLast-get_last _ _ none p partials last_p,
          IsLast-get_last _ _ none k pubkeys last_k,
          there,
        )
        (Adds-add_trustees rest)
  Adds-add_trustees (left_out {t = t} (inl no_partial) rest) =
      rw (HasNone-get_last _ _ none partials no_partial) (Adds-add_trustees rest)
  Adds-add_trustees (left_out {t = t} {ts = ts} {d = d} (inr no_key) rest) =
      rw (HasNone-get_last _ _ none pubkeys no_key)
        (rw (add_share_of-none (get_last _ none t.index partials) t d) (Adds-add_trustees rest))

  -- What a trustee does to the decryption.
  add_trustee-cases :
      (t : Trustee x) (d d' : Decryption)
      → add_trustee pubkeys partials i t d ≡ some d'
      → ((p : PartialDecryptionTransaction x) × (k : KeyGenPublicKeyTransaction x)
          × (share : x.DecryptShare) × IsPartialOf t.index p
          × IsKeyOf t.index k
          × (get_elem? p.partial_decryption i ≡ some share)
          × (add_share d t.index k.public_key_proof share ≡ d'))
        ⊎ (HasNoShare t.index × (d ≡ d'))
  unfolding add_trustee
  add_trustee-cases t d d' h = elim (IsLast-cases partial_index t.index partials) [
    | inr no_partial ↦
        let missing = HasNone-get_last _ _ none partials no_partial in
        inr (inl no_partial, some-injective (sym (rw missing refl) ∙ h))
    | inl (p, last_p) ↦
        let found_p = IsLast-get_last _ _ none p partials last_p in
        elim (IsLast-cases key_index t.index pubkeys) [
          | inr no_key ↦
              let missing = HasNone-get_last _ _ none pubkeys no_key in
              inr (inr no_key, some-injective (sym (rw (found_p, missing) refl) ∙ h))
          | inl (k, last_k) ↦
              let found_k = IsLast-get_last _ _ none k pubkeys last_k in
              let run : and_then (get_elem? p.partial_decryption i)
                    (λ share. some (add_share d t.index k.public_key_proof share))
                  ≡ some d' =
                sym (rw (found_p, found_k) refl) ∙ h in
              let (share, there, added) =
                and_then-eq-some (get_elem? p.partial_decryption i) _ run in
              inl (p, k, share, last_p, last_k, there, some-injective added)
        ]
  ]

  pub add_trustees-Adds :
      (ts : List (Trustee x)) (d d' : Decryption)
      → add_trustees pubkeys partials i ts d ≡ some d'
      → Adds ts d d'
  unfolding add_trustees
  add_trustees-Adds [] d d' h = subst (Adds [] d) (some-injective h) done
  add_trustees-Adds (t ∷ ts) d d' h =
      let (e, one, others) = and_then-eq-some (add_trustee pubkeys partials i t d) _ h in
      elim (add_trustee-cases t d e one) [
        | inl (p, k, share, last_p, last_k, there, added) ↦
            counted p k share last_p last_k there
              (subst (λ c. Adds ts c d') (sym added) (add_trustees-Adds ts e d' others))
        | inr (no_share, same) ↦
            left_out no_share
              (subst (λ c. Adds ts c d') (sym same) (add_trustees-Adds ts e d' others))
      ]
