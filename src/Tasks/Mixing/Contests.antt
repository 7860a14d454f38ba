-- ===== src/Tasks/Mixing/Contests.antt =====
-- The votes that a server mixes for a contest (`process_voting_end` of tasks.rs), against the votes of
-- the store.
use cryptoballot.Prelude.{
  ℕ, ◌≡◌, refl, sym, ap, ◌∙◌, Bool, true, false, List, [], ◌∷◌, ◌++◌, Option, none, some, ◌==◌,
  arith,
}
use cryptoballot.External.{External}
use cryptoballot.Identifier.{Identifier}
use cryptoballot.Transaction.{EncryptedVote, VoteTransaction}
use cryptoballot.Trustee.{index_get}
use cryptoballot.Tasks.Mixing.{ContestVotes, push_vote, push_votes, contest_votes}

-- The entry of the map, empty where there is none.
abbrev pub or_empty : {V : Type 0} → Option (List V) → List V
or_empty none = []
or_empty (some votes) = votes

abbrev pub entry : {V : Type 0} → ℕ → List (ℕ × List V) → List V
entry c m = or_empty (index_get c m)

append_nil : {V : Type 0} (xs : List V) → xs ++ [] ≡ xs
append_nil [] = refl
append_nil (a ∷ xs) = ap (λ r. a ∷ r) (append_nil xs)

append_assoc : {V : Type 0} (xs ys zs : List V) → (xs ++ ys) ++ zs ≡ xs ++ (ys ++ zs)
append_assoc [] ys zs = refl
append_assoc (a ∷ xs) ys zs = ap (λ r. a ∷ r) (append_assoc xs ys zs)

abbrev pub when : {V : Type 0} → Bool → V → List V
when true v = v ∷ []
when false v = []

index_get-push_vote :
    {V : Type 0} (c d : ℕ) (v : V) (m : List (ℕ × List V))
    → or_empty (index_get c (push_vote d v m)) ≡ or_empty (index_get c m) ++ when (d == c) v
unfolding index_get push_vote
index_get-push_vote c d v [] = ground arith
index_get-push_vote c d v ((k, votes) ∷ m) =
    ground
      (arith, append_nil votes, append_nil (or_empty (index_get c m)), index_get-push_vote c d v m)

-- What a map holds for a contest after more votes.
module _ {x : External} where
  -- the selections for a contest in the votes, with the identifiers of the votes, in their order
  abbrev pub selections_of :
      ℕ → Identifier → List (EncryptedVote x) → List (Identifier × List x.Ciphertext)
  selections_of c id [] = []
  selections_of c id (v ∷ vs) =
      when (v.contest_index == c) (id, v.selections) ++ selections_of c id vs

  abbrev pub votes_for : ℕ → List (VoteTransaction x) → List (Identifier × List x.Ciphertext)
  votes_for c [] = []
  votes_for c (t ∷ ts) = selections_of c t.id t.encrypted_votes ++ votes_for c ts

  index_get-push_votes :
      (c : ℕ) (id : Identifier) (vs : List (EncryptedVote x)) (m : List (ContestVotes x))
      → entry c (push_votes id vs m) ≡ entry c m ++ selections_of c id vs
  unfolding push_votes
  index_get-push_votes c id [] m = sym (append_nil (entry c m))
  index_get-push_votes c id (v ∷ vs) m =
      index_get-push_votes c id vs (push_vote v.contest_index (id, v.selections) m)
      ∙ ap (λ r. r ++ selections_of c id vs)
          (index_get-push_vote c v.contest_index (id, v.selections) m)
      ∙ append_assoc (entry c m) (when (v.contest_index == c) (id, v.selections))
          (selections_of c id vs)

  index_get-contest_votes :
      (c : ℕ) (ts : List (VoteTransaction x)) (m : List (ContestVotes x))
      → entry c (contest_votes ts m) ≡ entry c m ++ votes_for c ts
  unfolding contest_votes
  index_get-contest_votes c [] m = sym (append_nil (entry c m))
  index_get-contest_votes c (t ∷ ts) m =
      index_get-contest_votes c ts (push_votes t.id t.encrypted_votes m)
      ∙ ap (λ r. r ++ votes_for c ts) (index_get-push_votes c t.id t.encrypted_votes m)
      ∙ append_assoc (entry c m) (selections_of c t.id t.encrypted_votes) (votes_for c ts)

  -- The map from contests to votes holds for each contest the selections of all votes for it, with their
  -- identifiers, in the order of the votes.
  pub contest_votes_exact :
      (c : ℕ) (ts : List (VoteTransaction x)) → entry c (contest_votes ts []) ≡ votes_for c ts
  unfolding index_get
  contest_votes_exact c ts = index_get-contest_votes c ts []
