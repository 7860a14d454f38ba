-- ===== src/Service/Laws.antt =====
-- What the service broadcasts, what its interface reads back, and when it panics (service.rs, api.rs).
use mathlib.Core.Path.{subst}
use cryptoballot.Prelude.{
  ℕ, suc, ◌≡◌, refl, ◌∙◌, Bool-cases, inl, inr, List, [], ◌∷◌, Option, none, some, Result, ok, err,
  panic, unwrap, unwrap-eq-some, and_then, and_then-eq-some, some-injective, All, All-append,
  length,
}
use cryptoballot.Bytes.Order.{bytes_eq_iff}
use cryptoballot.External.{External}
use cryptoballot.Identifier.{Identifier}
use cryptoballot.Identifier.Text.{from_str}
use cryptoballot.Identifier.Text.RoundTrip.{from_str_short}
use cryptoballot.Transaction.{Cbor, SignedTransaction, tx_id}
use cryptoballot.Validate.{is_some}
use cryptoballot.Validate.Signed.{validate}
use cryptoballot.Exonum.{Envelope, MapIndex, schema, envelope, verify_and_store}
use cryptoballot.Exonum.Laws.{verify_and_store_iff, is_some-eq-false}
use cryptoballot.Tasks.Sound.{IsSigned}
use cryptoballot.Tasks.Mixing.{ContestVotes}
use cryptoballot.Tasks.Generate.{generate_transactions}
use cryptoballot.Tasks.Generate.Laws.{generate_transactions_sound}
use cryptoballot.Service.{
  get_tx, broadcasts, answer, answer_at, process_tx, process_block, process_read,
}

module _ {x : External} (b : Cbor x) (i : MapIndex) (to_bytes : SignedTransaction x → List ℕ)
    (from_bytes : List ℕ → Option (SignedTransaction x)) where
  open i use {Map, get, put, get-put}
  open x use {SecretKey, Rng}

  -- What is broadcast: the envelope of a signed transaction that the store does not have.
  abbrev pub IsNew : Map → Envelope → Type 0
  IsNew m e =
      (t : SignedTransaction x) × (e ≡ envelope b i to_bytes from_bytes t)
      × IsSigned b t
      × ((schema b i to_bytes from_bytes m).get_transaction (tx_id t) ≡ none)

  broadcasts-All :
      (m : Map) (ts : List (SignedTransaction x))
      → All (IsSigned b) ts
      → All (IsNew m) (broadcasts b i to_bytes from_bytes m ts)
  unfolding broadcasts
  broadcasts-All m [] h = tt
  broadcasts-All m (t ∷ ts) (signed, h) =
      let known = (schema b i to_bytes from_bytes m).get_transaction (tx_id t) in
      elim (Bool-cases (is_some known)) [
        | inl e ↦ rw (e) (broadcasts-All m ts h)
        | inr e ↦ rw (e) ((t, refl, signed, is_some-eq-false known e), broadcasts-All m ts h)
      ]

  -- A transaction that the ledger has taken is read back by the id of its envelope.
  pub verify_and_store-get_tx :
      (m m' : Map) (e : Envelope)
      → verify_and_store b i to_bytes from_bytes m e ≡ ok m'
      → (t : SignedTransaction x) × (from_bytes e.payload ≡ some t)
        × (get_tx b i to_bytes from_bytes m' e.id ≡ ok t)
  unfolding get_tx
  verify_and_store-get_tx m m' e h =
      let (t, fresh, unpacked, valid, same) =
        (verify_and_store_iff b i to_bytes from_bytes m m' e).0 h in
      let there : get e.id m' ≡ some e =
        subst (λ n. get e.id n ≡ some e) same
          (get-put e.id e.id e m ∙ rw ((bytes_eq_iff e.id e.id).1 refl) refl) in
      (t, unpacked, rw (there, unpacked) refl)

  module _ (order : List (ContestVotes x) → List (ContestVotes x)) (secret : SecretKey) where
    answer-All :
        (rng : Rng) (m : Map) (o : Option (SignedTransaction x)) (out : List Envelope)
        → answer b i to_bytes from_bytes order secret rng m o ≡ some out
        → All (IsNew m) out
    unfolding answer
    answer-All rng m none out h = subst (All (IsNew m)) (some-injective h) tt
    answer-All rng m (some tx) out h =
        let (txs, made, k) =
          and_then-eq-some
            (unwrap
              (generate_transactions b order rng secret tx (schema b i to_bytes from_bytes m)))
            _ h in
        subst (All (IsNew m)) (some-injective k) (
          broadcasts-All m txs (
            generate_transactions_sound b order rng secret tx (schema b i to_bytes from_bytes m) txs
              (unwrap-eq-some _ made)))

    answer_at-All :
        {E : Type 0} (rng : Rng) (m : Map) (parsed : Result E Identifier) (out : List Envelope)
        → answer_at b i to_bytes from_bytes order secret rng m parsed ≡ some out
        → All (IsNew m) out
    answer_at-All rng m (ok id) out h =
        answer-All rng m ((schema b i to_bytes from_bytes m).get_transaction id) out h
    answer_at-All rng m (err e) out h = subst (All (IsNew m)) (some-injective h) tt
    answer_at-All rng m panic out h = cc

    process_read-All :
        (rng : Rng) (m : Map) (o : Option Envelope) (out : List Envelope)
        → process_read b i to_bytes from_bytes order secret rng m o ≡ some out
        → All (IsNew m) out
    unfolding process_tx
    process_read-All rng m none out h = subst (All (IsNew m)) (some-injective h) tt
    process_read-All rng m (some e) out h = answer_at-All rng m (from_str x e.id) out h

    module _ {Hash Raw : Type 0} (all_txs : Hash → Option Raw) (parse : Raw → Option Envelope)
        (rngs : ℕ → Rng) where
      -- Whatever a node broadcasts for a block is new to its store and carries a valid signature, under
      -- an identifier of its own type.
      pub process_block_sound :
          (m : Map) (n : ℕ) (block : List Hash) (out : List Envelope)
          → process_block b i to_bytes from_bytes order secret all_txs parse rngs m n block
            ≡ some out
          → All (IsNew m) out
      unfolding process_block
      process_block_sound m n [] out h = subst (All (IsNew m)) (some-injective h) tt
      process_block_sound m n (tx_hash ∷ rest) out h =
          let (sent, first, k) =
            and_then-eq-some
              (process_read b i to_bytes from_bytes order secret (rngs n) m
                (and_then (all_txs tx_hash) parse))
              _ h in
          let (more, others, k2) =
            and_then-eq-some
              (process_block b i to_bytes from_bytes order secret all_txs parse rngs m (suc n) rest)
              _ k in
          subst (All (IsNew m)) (some-injective k2) (
            All-append (IsNew m) sent more (process_read-All (rngs n) m _ sent first)
              (process_block_sound m (suc n) rest more others))

      -- When an envelope holds a valid transaction and its id is unused and is the text of 16 bytes, the
      -- ledger takes the envelope, and a node panics on a block that begins with it.
      pub process_block_panics :
          (m : Map) (n : ℕ) (e : Envelope) (t : SignedTransaction x) (bytes : List ℕ)
          (tx_hash : Hash) (rest : List Hash)
          → get e.id m ≡ none
          → from_bytes e.payload ≡ some t
          → validate b (schema b i to_bytes from_bytes m) t ≡ ok tt
          → x.decode e.id ≡ some bytes
          → length bytes ≡ 16
          → and_then (all_txs tx_hash) parse ≡ some e
          → (verify_and_store b i to_bytes from_bytes m e ≡ ok (put e.id e m))
            × (process_block b i to_bytes from_bytes order secret all_txs parse rngs
                  (put e.id e m)
                  n
                  (tx_hash ∷ rest)
                ≡ none)
      unfolding process_block process_tx
      process_block_panics m n e t bytes tx_hash rest fresh unpacked valid decoded short there = (
        (verify_and_store_iff b i to_bytes from_bytes m (put e.id e m) e).1
            (t, fresh, unpacked, valid, refl),
        rw (there, from_str_short x e.id bytes decoded short) refl,
      )
