-- ===== src/Tasks/Mixing/Entries.antt =====
-- The entries of the map from contests to votes (`process_voting_end` of tasks.rs).
use mathlib.Core.Path.{subst}
use cryptoballot.Prelude.{
  ℕ, ◌≡◌, ◌≢◌, ◌⊎◌, refl, sym, ap, ◌∙◌, List, [], ◌∷◌, Option, none, some, inl, inr, arith, In,
  ◌==◌, ==_iff, Bool-cases, some-injective,
}
use cryptoballot.External.{External}
use cryptoballot.Identifier.{Identifier}
use cryptoballot.Transaction.{EncryptedVote, VoteTransaction}
use cryptoballot.Trustee.{index_get}
use cryptoballot.Tasks.Mixing.{ContestVotes, push_vote, push_votes, contest_votes}
use cryptoballot.Tasks.Mixing.Contests.{or_empty, votes_for, contest_votes_exact}

-- A map that has no key twice.
abbrev HasKey : {V : Type 0} → ℕ → List (ℕ × V) → Type 0
HasKey c [] = ⊥
HasKey c ((k, v) ∷ m) = (k ≡ c) ⊎ HasKey c m

abbrev HasDistinctKeys : {V : Type 0} → List (ℕ × V) → Type 0
HasDistinctKeys [] = Unit
HasDistinctKeys ((k, v) ∷ m) = (HasKey k m → ⊥) × HasDistinctKeys m

HasKey-push_vote :
    {V : Type 0} (c d : ℕ) (v : V) (m : List (ℕ × List V))
    → HasKey c (push_vote d v m)
    → (d ≡ c) ⊎ HasKey c m
unfolding push_vote
HasKey-push_vote c d v [] h = h
HasKey-push_vote c d v ((k, vs) ∷ m) h = elim (Bool-cases (k == d)) [
  | inl e ↦ inr (rw e at h)
  | inr e ↦ elim (rw e at h) [
    | inl here ↦ inr (inl here)
    | inr later ↦ elim (HasKey-push_vote c d v m later) [
      | inl same ↦ inl same
      | inr there ↦ inr (inr there)
    ]
  ]
]

push_vote-HasDistinctKeys :
    {V : Type 0} (d : ℕ) (v : V) (m : List (ℕ × List V))
    → HasDistinctKeys m
    → HasDistinctKeys (push_vote d v m)
unfolding push_vote
push_vote-HasDistinctKeys d v [] h = ((λ k. k), tt)
push_vote-HasDistinctKeys d v ((k, vs) ∷ m) (new_, rest) = elim (Bool-cases (k == d)) [
  | inl e ↦ rw e (new_, rest)
  | inr e ↦ rw e (
    (λ h. elim (HasKey-push_vote k d v m h) [
      | inl same ↦ let p = (==_iff k d).1 (sym same) in absurd cc
      | inr there ↦ new_ there
    ]),
    push_vote-HasDistinctKeys d v m rest,
  )
]

In-HasKey : {V : Type 0} (c : ℕ) (v : V) (m : List (ℕ × V)) → In (c, v) m → HasKey c m
In-HasKey c v [] i = absurd i
In-HasKey c v ((k, u) ∷ m) (inl e) = inl (ap (λ p. p.0) (sym e))
In-HasKey c v ((k, u) ∷ m) (inr i) = inr (In-HasKey c v m i)

-- Where no key stands twice, an entry is what the map has for its key.
In-index_get :
    {V : Type 0} (c : ℕ) (v : V) (m : List (ℕ × V))
    → HasDistinctKeys m
    → In (c, v) m
    → index_get c m ≡ some v
unfolding index_get
In-index_get c v [] d i = absurd i
In-index_get c v ((k, u) ∷ m) (new_, rest) (inl e) =
    let same : c ≡ k = ap (λ p. p.0) e in
    let value : v ≡ u = ap (λ p. p.1) e in ground (arith, same, value)
In-index_get c v ((k, u) ∷ m) (new_, rest) (inr i) = elim (Bool-cases (k == c)) [
  | inl e ↦ absurd (new_ (subst (λ j. HasKey j m) (sym ((==_iff k c).0 e)) (In-HasKey c v m i)))
  | inr e ↦ ground (arith, e, In-index_get c v m rest i)
]

index_get-In :
    {V : Type 0} (c : ℕ) (v : V) (m : List (ℕ × V)) → index_get c m ≡ some v → In (c, v) m
unfolding index_get
index_get-In c v [] h = absurd cc
index_get-In c v ((k, u) ∷ m) h = elim (Bool-cases (k == c)) [
  | inl e ↦
      let same = (==_iff k c).0 e in
      let value : u ≡ v = some-injective (ground (arith, e, h)) in inl cc
  | inr e ↦ inr (index_get-In c v m (ground (arith, e, h)))
]

Option-cases : {A : Type 0} (o : Option A) → (o ≡ none) ⊎ ((a : A) × (o ≡ some a))
Option-cases none = inl refl
Option-cases (some a) = inr (a, refl)

module _ {x : External} where
  push_votes-HasDistinctKeys :
      (id : Identifier) (vs : List (EncryptedVote x)) (m : List (ContestVotes x))
      → HasDistinctKeys m
      → HasDistinctKeys (push_votes id vs m)
  unfolding push_votes
  push_votes-HasDistinctKeys id [] m d = d
  push_votes-HasDistinctKeys id (v ∷ vs) m d =
      push_votes-HasDistinctKeys id vs (push_vote v.contest_index (id, v.selections) m)
        (push_vote-HasDistinctKeys v.contest_index (id, v.selections) m d)

  contest_votes-HasDistinctKeys :
      (ts : List (VoteTransaction x)) (m : List (ContestVotes x))
      → HasDistinctKeys m
      → HasDistinctKeys (contest_votes ts m)
  unfolding contest_votes
  contest_votes-HasDistinctKeys [] m d = d
  contest_votes-HasDistinctKeys (t ∷ ts) m d =
      contest_votes-HasDistinctKeys ts (push_votes t.id t.encrypted_votes m)
        (push_votes-HasDistinctKeys t.id t.encrypted_votes m d)

  -- Each entry of the map has the votes for its contest.
  pub In-contest_votes :
      (c : ℕ) (votes : List (Identifier × List x.Ciphertext)) (ts : List (VoteTransaction x))
      → In (c, votes) (contest_votes ts [])
      → votes ≡ votes_for c ts
  In-contest_votes c votes ts i =
      let found = In-index_get c votes _ (contest_votes-HasDistinctKeys ts [] tt) i in
      sym (ap or_empty found) ∙ contest_votes_exact c ts

  -- A contest with votes has an entry.
  pub votes_for-In :
      (c : ℕ) (ts : List (VoteTransaction x))
      → votes_for c ts ≢ []
      → (votes : List (Identifier × List x.Ciphertext)) × In (c, votes) (contest_votes ts [])
  votes_for-In c ts some_votes = elim (Option-cases (index_get c (contest_votes ts []))) [
    | inl missing ↦ absurd (some_votes (sym (contest_votes_exact c ts) ∙ ap or_empty missing))
    | inr (votes, found) ↦ (votes, index_get-In c votes _ found)
  ]
