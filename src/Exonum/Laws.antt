-- ===== src/Exonum/Laws.antt =====
-- The calls of the Exonum ledger (cryptoballot_exonum/src/lib.rs), and sequences of them.
use mathlib.Core.Path.{subst}
use cryptoballot.Prelude.{
  Bool-cases, inl, inr, ◌∙◌, ℕ, ◌≡◌, ◌↔◌, refl, false, List, Option, none, some, ok, require-eq-ok,
  >>=-eq-ok, >>-eq-ok, ok_or, ok_or-eq-ok, map_err, map_err-eq-ok, ok-injective, not-true,
}
use cryptoballot.Bytes.{bytes_eq}
use cryptoballot.Bytes.Order.{bytes_eq_iff}
use cryptoballot.External.{External}
use cryptoballot.Transaction.{Cbor, SignedTransaction}
use cryptoballot.Validate.Signed.{validate}
use cryptoballot.Exonum.{is_some, Envelope, MapIndex, schema, verify_and_store}

pub is_some-eq-false : {A : Type 0} (o : Option A) → is_some o ≡ false → o ≡ none
is_some-eq-false none h = refl
is_some-eq-false (some a) h = cc

module _ {x : External} (b : Cbor x) (i : MapIndex) (to_bytes : SignedTransaction x → List ℕ)
    (from_bytes : List ℕ → Option (SignedTransaction x)) where
  open i use {Map, get, put, get-put}

  -- The call succeeds exactly when nothing is stored under the id of the envelope, and its data unpack
  -- to a transaction that is valid in the store; it then puts the envelope under that id. The id of the
  -- transaction inside is not compared with it.
  pub verify_and_store_iff :
      (m m' : Map) (tx : Envelope)
      → (verify_and_store b i to_bytes from_bytes m tx ≡ ok m') ↔ (
          (t : SignedTransaction x) × (get tx.id m ≡ none)
          × (from_bytes tx.payload ≡ some t)
          × (validate b (schema b i to_bytes from_bytes m) t ≡ ok tt)
          × (put tx.id tx m ≡ m'))
  unfolding verify_and_store
  verify_and_store_iff m m' tx = (
    λ h.
        let (fresh, k) = require-eq-ok _ _ _ h in
        let (t, unpacked, k2) = >>=-eq-ok (ok_or (from_bytes tx.payload) _) _ k in
        let (valid, k3) =
          >>-eq-ok (map_err _ (validate b (schema b i to_bytes from_bytes m) t)) _ k2 in
        (
          t,
          is_some-eq-false _ (not-true _ fresh),
          ok_or-eq-ok _ _ unpacked,
          map_err-eq-ok _ _ valid,
          ok-injective k3,
        ),
    λ (t, fresh, unpacked, valid, same). rw (fresh, unpacked, valid, same),
  )

  -- A sequence of calls that succeed.
  pub data Run : Map → Map → Type 0 where
    stop : {m : Map} → Run m m
    call :
        {m m' m'' : Map} (tx : Envelope)
        → verify_and_store b i to_bytes from_bytes m tx ≡ ok m'
        → Run m' m''
        → Run m m''

  kept :
      (k : List ℕ) (v : Envelope) (m m' : Map) (tx : Envelope)
      → verify_and_store b i to_bytes from_bytes m tx ≡ ok m'
      → get k m ≡ some v
      → get k m' ≡ some v
  kept k v m m' tx h there =
      let (t, fresh, unpacked, valid, same) = (verify_and_store_iff m m' tx).0 h in
      subst (λ n. get k n ≡ some v) same
        (elim (Bool-cases (bytes_eq tx.id k)) [
          | inl e ↦ let p = (bytes_eq_iff tx.id k).0 e in cc (fresh, p, there)
          | inr e ↦ get-put tx.id k tx m ∙ rw e there
        ])

  -- Whatever calls succeed afterwards, what is stored under an id stays as it is.
  pub Run-get :
      {m m' : Map} (k : List ℕ) (v : Envelope) → Run m m' → get k m ≡ some v → get k m' ≡ some v
  Run-get k v stop h = h
  Run-get k v (call {m = m} {m' = m'} tx accepted rest) h =
      Run-get k v rest (kept k v m m' tx accepted h)
