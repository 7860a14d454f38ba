-- ===== src/Validate/Upstream/Laws.antt =====
-- The results of `encrypted_vote_from_upstream_tx` (decryption.rs), and its indices.
use cryptoballot.Prelude.{
  not, ltb, unwind, ok_or_total, require-eq-panic, unwind-eq-panic, zero, suc, ◌∙◌, sym, suc,
  ok-injective, not-true, ltb-lt, [], ◌∷◌, inl, inr, refl, Bool-cases, ==_iff, inr, Bool-cases, ◌⊎◌,
  ◌∷◌, inl, ℕ, ◌≡◌, ◌≢◌, ◌%◌, ◌<◌, true, false, List, Option, some, ok, panic, require-eq-ok,
  unwind-eq-ok, arith, length, get_elem?, In, ◌==◌,
}
use cryptoballot.External.{External}
use cryptoballot.Identifier.{Identifier, TransactionType}
use cryptoballot.Election.{MixConfig}
use cryptoballot.Transaction.{Signed, EncryptedVote, VoteTransaction, MixTransaction}
use cryptoballot.Store.{Store, get_vote, get_mix}
use cryptoballot.Validate.{found-bind_panic, found-bind, is_some}
use cryptoballot.Validate.Upstream.{
  find_contest, vote_ciphertexts, mix_ciphertexts, upstream_ciphertexts,
  encrypted_vote_from_upstream_tx, swap_remove,
}

pub get_elem?_total :
    {A : Type 0} (xs : List A) (i : ℕ) → i < length xs → (a : A) × (get_elem? xs i ≡ some a)
get_elem?_total [] i h = ground arith
get_elem?_total (x ∷ xs) zero h = (x, refl)
get_elem?_total (x ∷ xs) (suc i) h = get_elem?_total xs i (ground arith)

below_cut : (i n : ℕ) → i < n % 65536 → i < n
below_cut i n h = omega arith

in_range : {E A : Type 0} {a : A} (o : Option A) → o ≡ some a → unwind {E = E} o ≢ panic
in_range o p h = let q = unwind-eq-panic o h in cc (p, q)

module _ {x : External} where
  open x use {Ciphertext}

  find_contest-In :
      (contest : ℕ) (vs : List (EncryptedVote x)) {cs : List Ciphertext}
      → find_contest {x = x} contest vs ≡ ok cs
      → (e : EncryptedVote x) × In e vs × (e.contest_index ≡ contest) × (e.selections ≡ cs)
  unfolding find_contest
  find_contest-In contest [] h = cc
  find_contest-In contest (v ∷ vs) h = elim (Bool-cases (v.contest_index == contest)) [
    | inl here ↦ (v, inl refl, (==_iff _ _).0 here, ground arith)
    | inr there ↦
        let (e, i, c, same) = find_contest-In contest vs (ground arith) in (e, inr i, c, same)
  ]

  -- The source that the ciphertexts come from: a vote of an election without mixes, or a mix of the
  -- contest in an election with mixes.
  pub IsUpstream : Store x → Identifier → ℕ → ℕ → Option MixConfig → List Ciphertext → Type 0
  IsUpstream s id index contest config cs =
      ((v : Signed x (VoteTransaction x)) × (id.transaction_type ≡ TransactionType.vote)
        × (get_vote s id ≡ ok v)
        × (is_some config ≡ false)
        × (index ≡ 0)
        × (e : EncryptedVote x) × In e v.tx.encrypted_votes
        × (e.contest_index ≡ contest)
        × (e.selections ≡ cs))
      ⊎ ((m : Signed x (MixTransaction x)) × (id.transaction_type ≡ TransactionType.mix)
          × (get_mix s id ≡ ok m)
          × (is_some config ≡ true)
          × (m.tx.contest_index ≡ contest)
          × (index < length m.tx.mixed_ciphertexts % 65536)
          × (get_elem? m.tx.mixed_ciphertexts index ≡ some cs))

  vote_ciphertexts-eq-ok :
      (s : Store x) (id : Identifier) (index contest : ℕ) (config : Option MixConfig)
      {cs : List Ciphertext}
      → vote_ciphertexts s id index contest config ≡ ok cs
      → (v : Signed x (VoteTransaction x)) × (get_vote s id ≡ ok v)
        × (is_some config ≡ false)
        × (index ≡ 0)
        × (e : EncryptedVote x) × In e v.tx.encrypted_votes
        × (e.contest_index ≡ contest)
        × (e.selections ≡ cs)
  unfolding vote_ciphertexts
  vote_ciphertexts-eq-ok s id index contest config h =
      let (p, k) = require-eq-ok _ _ _ h in
      let (q, k2) = require-eq-ok _ _ _ k in
      let (v, g, k3) = found-bind (get_vote s id) _ k2 in
      let (e, i, c, same) = find_contest-In contest v.tx.encrypted_votes k3 in
      (v, g, not-true _ p, (==_iff _ _).0 q, e, i, c, same)

  mix_ciphertexts-eq-ok :
      (s : Store x) (id : Identifier) (index contest : ℕ) (config : Option MixConfig)
      {cs : List Ciphertext}
      → mix_ciphertexts s id index contest config ≡ ok cs
      → (m : Signed x (MixTransaction x)) × (get_mix s id ≡ ok m)
        × (is_some config ≡ true)
        × (m.tx.contest_index ≡ contest)
        × (index < length m.tx.mixed_ciphertexts % 65536)
        × (get_elem? m.tx.mixed_ciphertexts index ≡ some cs)
  unfolding mix_ciphertexts swap_remove
  mix_ciphertexts-eq-ok s id index contest config h =
      let (m, g, k) = found-bind (get_mix s id) _ h in
      let (p, k2) = require-eq-ok _ _ _ k in
      let (q, k3) = require-eq-ok _ _ _ k2 in
      let (r, k4) = require-eq-ok _ _ _ k3 in
      (m, g, q, (==_iff _ _).0 p, ltb-lt _ _ r, unwind-eq-ok _ k4)

  by_type :
      (t : TransactionType) (s : Store x) (id : Identifier) (index contest : ℕ)
      (config : Option MixConfig) {cs : List Ciphertext}
      → id.transaction_type ≡ t
      → upstream_ciphertexts t s id index contest config ≡ ok cs
      → IsUpstream s id index contest config cs
  unfolding upstream_ciphertexts IsUpstream
  by_type TransactionType.vote s id index contest config p h = inl (
      let (v, g, c, i, e, m, n, o) = vote_ciphertexts-eq-ok s id index contest config h in
      (v, p, g, c, i, e, m, n, o))
  by_type TransactionType.mix s id index contest config p h = inr (
      let (m, g, c, i, n, o) = mix_ciphertexts-eq-ok s id index contest config h in
      (m, p, g, c, i, n, o))
  by_type _ s id index contest config p h = cc

  -- What `encrypted_vote_from_upstream_tx` returns is the selections of the contest in the named vote,
  -- for an election without mixes and index 0, or the entry at the index of the named mix of the
  -- contest, for an election with mixes; the index is below the number of entries cut to 16 bits.
  pub encrypted_vote_from_upstream_tx-IsUpstream :
      (s : Store x) (id : Identifier) (index contest : ℕ) (config : Option MixConfig)
      (cs : List Ciphertext)
      → encrypted_vote_from_upstream_tx s id index contest config ≡ ok cs
      → IsUpstream s id index contest config cs
  unfolding encrypted_vote_from_upstream_tx
  encrypted_vote_from_upstream_tx-IsUpstream s id index contest config cs h =
      by_type id.transaction_type s id index contest config refl h

  get_mix_total : (s : Store x) (id : Identifier) → get_mix s id ≢ panic
  unfolding get_mix
  get_mix_total s id = ok_or_total _ _

  get_vote_total : (s : Store x) (id : Identifier) → get_vote s id ≢ panic
  unfolding get_vote
  get_vote_total s id = ok_or_total _ _

  mix_total :
      (s : Store x) (id : Identifier) (index contest : ℕ) (config : Option MixConfig)
      → mix_ciphertexts s id index contest config ≢ panic
  unfolding mix_ciphertexts swap_remove
  mix_total s id index contest config h =
      let (m, _, k) = found-bind_panic (get_mix s id) _ (get_mix_total s id) h in
      let (_, k2) = require-eq-panic (m.tx.contest_index == contest) _ _ k in
      let (_, k3) = require-eq-panic (is_some config) _ _ k2 in
      let (r, k4) = require-eq-panic (ltb index (length m.tx.mixed_ciphertexts % 65536)) _ _ k3 in
      let (cs, there) =
        get_elem?_total m.tx.mixed_ciphertexts index (below_cut _ _ (ltb-lt _ _ r)) in
      let out = unwind-eq-panic _ k4 in cc (there, out)

  find_contest_total :
      (contest : ℕ) (vs : List (EncryptedVote x)) → find_contest {x = x} contest vs ≢ panic
  unfolding find_contest
  find_contest_total contest [] h = cc
  find_contest_total contest (v ∷ vs) h = elim (Bool-cases (v.contest_index == contest)) [
    | inl here ↦ ground arith
    | inr there ↦ find_contest_total contest vs (ground arith)
  ]

  vote_total :
      (s : Store x) (id : Identifier) (index contest : ℕ) (config : Option MixConfig)
      → vote_ciphertexts s id index contest config ≢ panic
  unfolding vote_ciphertexts
  vote_total s id index contest config h =
      let (_, k) = require-eq-panic (not (is_some config)) _ _ h in
      let (_, k2) = require-eq-panic (index == 0) _ _ k in
      let (v, _, k3) = found-bind_panic (get_vote s id) _ (get_vote_total s id) k2 in
      find_contest_total contest v.tx.encrypted_votes k3

  by_type_total :
      (t : TransactionType) (s : Store x) (id : Identifier) (index contest : ℕ)
      (config : Option MixConfig)
      → upstream_ciphertexts t s id index contest config ≢ panic
  unfolding upstream_ciphertexts
  by_type_total TransactionType.vote s id index contest config h =
      vote_total s id index contest config h
  by_type_total TransactionType.mix s id index contest config h =
      mix_total s id index contest config h
  by_type_total _ s id index contest config h = cc

  -- It never panics: the index that it takes out of the mix is in range.
  pub upstream_total :
      (s : Store x) (id : Identifier) (index contest : ℕ) (config : Option MixConfig)
      → encrypted_vote_from_upstream_tx s id index contest config ≢ panic
  unfolding encrypted_vote_from_upstream_tx
  upstream_total s id index contest config =
      by_type_total id.transaction_type s id index contest config

  -- A mix whose number of entries is a multiple of 65536 can be no upstream, whatever the index.
  pub upstream_cut :
      (s : Store x) (id : Identifier) (index contest : ℕ) (config : Option MixConfig)
      (m : Signed x (MixTransaction x)) (cs : List Ciphertext)
      → id.transaction_type ≡ TransactionType.mix
      → get_mix s id ≡ ok m
      → length m.tx.mixed_ciphertexts % 65536 ≡ 0
      → encrypted_vote_from_upstream_tx s id index contest config ≢ ok cs
  unfolding IsUpstream
  upstream_cut s id index contest config m cs p q r h =
      elim (encrypted_vote_from_upstream_tx-IsUpstream s id index contest config cs h) [
        | inl (_, t, _, _, _, _, _, _, _) ↦ cc (p, t)
        | inr (n, t, g, _, _, below, _) ↦ let same = ok-injective (sym q ∙ g) in ground arith
      ]
