-- ===== src/Tasks/Mixing/Rejected.antt =====
-- When the first mixes that a server makes (`process_voting_end` of tasks.rs) are refused (mix.rs).
use mathlib.Core.Path.{subst}
use cryptoballot.Prelude.{
  ℕ, suc, ◌≡◌, ◌≢◌, refl, sym, ap, ◌∙◌, List, [], ◌∷◌, none, some, ok, >>=-eq-ok, ok-injective,
  some-injective, length, map,
}
use cryptoballot.External.{External}
use cryptoballot.Identifier.{Identifier, TransactionType, start, end}
use cryptoballot.Election.{ElectionTransaction, Trustee}
use cryptoballot.Transaction.{Cbor, Signed, SignedTransaction, MixTransaction}
use cryptoballot.Transaction.Ids.{new_mix}
use cryptoballot.Store.{Store, get_multiple}
use cryptoballot.Validate.Mix.{mix, validate_mix}
use cryptoballot.Validate.Mix.Laws.{length-ids_of}
use cryptoballot.Validate.Mix.Accepted.{validate_mix_first}
use cryptoballot.Validate.Traits.{mix_trait}
use cryptoballot.Validate.Signed.{sign_tx}
use cryptoballot.Validate.Signed.Laws.{sign_tx-verify_signature}
use cryptoballot.Tasks.Mixing.{ContestVotes, mix_contests}

length-map : {A B : Type 0} (f : A → B) (xs : List A) → length (map f xs) ≡ length xs
length-map f [] = refl
length-map f (a ∷ xs) = ap suc (length-map f xs)

module _ {x : External} (b : Cbor x) where
  open x use {Rng, SecretKey, EncryptionKey, Ciphertext}

  -- The store's votes, as the first mix has to list them.
  get_multiple-range :
      (s : Store x) (id lo hi : Identifier) (votes stored : List (SignedTransaction x))
      → start id TransactionType.vote none ≡ some lo
      → end id TransactionType.vote none ≡ some hi
      → s.range lo hi ≡ some votes
      → get_multiple s id TransactionType.vote ≡ some stored
      → votes ≡ stored
  unfolding get_multiple
  get_multiple-range s id lo hi votes stored low high there h =
      some-injective (sym (rw (low, high) there) ∙ h)

  mix_head :
      {u v : Signed x (MixTransaction x)} {ts us : List (SignedTransaction x)}
      → ◌≡◌ {A = List (SignedTransaction x)}
          (SignedTransaction.mix u ∷ ts)
          (SignedTransaction.mix v ∷ us)
      → u ≡ v
  mix_head h = cc

  -- The mix that the loop makes of the votes for a contest is its first transaction.
  abbrev pub IsMixOf :
      ElectionTransaction x → List (Identifier × List Ciphertext) → MixTransaction x → Type 0
  IsMixOf e votes t =
      (t.vote_ids ≡ map (λ v. v.0) votes) × (t.prev_mix_id ≡ none) × (t.election_id ≡ e.id)

  mix_contests-IsMixOf :
      (rng : Rng) (secret : SecretKey) (e : ElectionTransaction x) (trustee : Trustee x)
      (key : EncryptionKey) (c : ℕ) (votes : List (Identifier × List Ciphertext))
      (rest : List (ContestVotes x)) (u : Signed x (MixTransaction x))
      (txs : List (SignedTransaction x))
      → mix_contests b rng secret e trustee key ((c, votes) ∷ rest)
        ≡ ok (SignedTransaction.mix u ∷ txs)
      → IsMixOf e votes u.tx
  unfolding mix_contests new_mix
  mix_contests-IsMixOf rng secret e trustee key c votes rest u txs h =
      let run = mix {x = x} rng (map (λ v. v.1) votes) key trustee.index 0 c 0 in
      let (mixed, made, k) = >>=-eq-ok run.1 _ h in
      let t = new_mix e.id none trustee 0 c 0 (map (λ v. v.0) votes) mixed.0 mixed.1 in
      let (u', signs, k2) = >>=-eq-ok (sign_tx b mix_trait secret t) _ k in
      let (more, others, k3) = >>=-eq-ok (mix_contests b run.0 secret e trustee key rest) _ k2 in
      let (same, good) = sign_tx-verify_signature b mix_trait secret t u' signs in
      let first : u'.tx ≡ u.tx =
        ap (λ (r : Signed x (MixTransaction x)). r.tx) (mix_head (ok-injective k3)) in
      (
        ap (λ (m : MixTransaction x). m.vote_ids) (sym first ∙ same),
        ap (λ (m : MixTransaction x). m.prev_mix_id) (sym first ∙ same),
        ap (λ (m : MixTransaction x). m.election_id) (sym first ∙ same),
      )

  -- A first mix that a server makes of fewer or more votes than the store has for the election is
  -- refused. The server makes it of the votes for one contest, the store asks for all votes.
  pub mix_contests-validate_mix :
      (rng : Rng) (secret : SecretKey) (s : Store x) (e : ElectionTransaction x)
      (trustee : Trustee x) (key : EncryptionKey) (c : ℕ)
      (votes : List (Identifier × List Ciphertext)) (rest : List (ContestVotes x))
      (u : Signed x (MixTransaction x)) (txs stored : List (SignedTransaction x))
      → mix_contests b rng secret e trustee key ((c, votes) ∷ rest)
        ≡ ok (SignedTransaction.mix u ∷ txs)
      → get_multiple s e.id TransactionType.vote ≡ some stored
      → length votes ≢ length stored
      → validate_mix s u.tx ≢ ok tt
  mix_contests-validate_mix rng secret s e trustee key c votes rest u txs stored made known differ
        h =
      let (ids, first, of) =
        mix_contests-IsMixOf rng secret e trustee key c votes rest u txs made in
      let a = validate_mix_first s u.tx h first in
      let (
        lo, hi, all, inputs, k, zeroth, ascends, low, high, there, accounted, counted, collected,
        shuffled,
      ) =
        a in
      let low' = subst (λ (id : Identifier). start id TransactionType.vote none ≡ some lo) of low in
      let high' = subst (λ (id : Identifier). end id TransactionType.vote none ≡ some hi) of high in
      let same = get_multiple-range s e.id lo hi all stored low' high' there known in
      differ (
        sym (length-map (λ v. v.0) votes)
        ∙ ap length (sym ids ∙ accounted)
        ∙ length-ids_of all
        ∙ ap length same)
