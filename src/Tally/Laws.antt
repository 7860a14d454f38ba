-- ===== src/Tally/Laws.antt =====
-- What the order and the number of a voter's selections do to the tally of a contest (tally.rs).
use mathlib.Core.Path.{subst}
use cryptoballot.Prelude.{
  ℕ, ◌≡◌, ◌≢◌, refl, ap, ◌∙◌, List, [], ◌∷◌, ◌++◌, Option, some, none, String, map, length, arith,
  and_then, some-injective,
}
use cryptoballot.External.{Selection}
use cryptoballot.Election.{ContestType}
use cryptoballot.Tally.{
  Tallystick, TallyResult, insert_by_score, sort_by_score, add_all, add_plurality, report,
  tally_plurality, tally_sorted, tally, tally_score, tally_approval, tally_condorcet, tally_schulze,
  tally_borda,
}

-- A vote becomes another one when selections with different scores change places.
pub data Reorders : List Selection → List Selection → Type 0 where
  same : (vote : List Selection) → Reorders vote vote
  keep :
      (a : Selection) {vote vote' : List Selection}
      → Reorders vote vote'
      → Reorders (a ∷ vote) (a ∷ vote')
  swap :
      (a b : Selection) (vote : List Selection)
      → a.score ≢ b.score
      → Reorders (a ∷ b ∷ vote) (b ∷ a ∷ vote)
  chain :
      {vote vote' vote'' : List Selection}
      → Reorders vote vote'
      → Reorders vote' vote''
      → Reorders vote vote''

insert_by_score_comm :
    (a b : Selection) (vote : List Selection)
    → a.score ≢ b.score
    → insert_by_score a (insert_by_score b vote) ≡ insert_by_score b (insert_by_score a vote)
unfolding insert_by_score
insert_by_score_comm a b [] h = ground (arith, h)
insert_by_score_comm a b (c ∷ vote) h = ground (arith, h, insert_by_score_comm a b vote h)

sort_by_score-Reorders :
    (vote vote' : List Selection) → Reorders vote vote' → sort_by_score vote ≡ sort_by_score vote'
unfolding sort_by_score
sort_by_score-Reorders _ _ (same vote) = refl
sort_by_score-Reorders _ _ (keep a r) = ap (insert_by_score a) (sort_by_score-Reorders _ _ r)
sort_by_score-Reorders _ _ (swap a b vote h) = insert_by_score_comm a b (sort_by_score vote) h
sort_by_score-Reorders _ _ (chain r q) = sort_by_score-Reorders _ _ r ∙ sort_by_score-Reorders _ _ q

-- The votes of one list are those of the other, one by one, up to such changes.
abbrev pub AreReordered : List (List Selection) → List (List Selection) → Type 0
AreReordered [] [] = Unit
AreReordered [] (w ∷ ws) = ⊥
AreReordered (v ∷ vs) [] = ⊥
AreReordered (v ∷ vs) (w ∷ ws) = Reorders v w × AreReordered vs ws

sort-AreReordered :
    (votes votes' : List (List Selection))
    → AreReordered votes votes'
    → (map sort_by_score votes ≡ map sort_by_score votes') × (length votes ≡ length votes')
sort-AreReordered [] [] h = (refl, refl)
sort-AreReordered [] (w ∷ ws) h = absurd h
sort-AreReordered (v ∷ vs) [] h = absurd h
sort-AreReordered (v ∷ vs) (w ∷ ws) (r, h) =
    let (e, n) = sort-AreReordered vs ws h in
    let e' = sort_by_score-Reorders v w r in (rw (e, e') refl, rw (n) refl)

module _ (t : Tallystick) (contest_id : String) (contest_index num_winners : ℕ) where
  -- Selections with different scores may stand in any order within a vote: the tally is the same for
  -- every contest type.
  pub tally-AreReordered :
      (contest_type : ContestType) (votes votes' : List (List Selection))
      → AreReordered votes votes'
      → tally t contest_id contest_index num_winners contest_type votes
        ≡ tally t contest_id contest_index num_winners contest_type votes'
  unfolding tally
  tally-AreReordered contest_type votes votes' h =
      let (e, n) = sort-AreReordered votes votes' h in rw (e, n) refl

-- Every selection as a vote of its own.
abbrev pub split : List (List Selection) → List (List Selection)
split [] = []
split (vote ∷ votes) = map (λ s. s ∷ []) vote ++ split votes

sort-singles :
    (vote : List Selection) (votes : List (List Selection))
    → map sort_by_score (map (λ s. s ∷ []) vote ++ votes)
      ≡ map (λ s. s ∷ []) vote ++ map sort_by_score votes
unfolding sort_by_score insert_by_score
sort-singles [] votes = refl
sort-singles (s ∷ vote) votes = rw (sort-singles vote votes) refl

sort-split : (votes : List (List Selection)) → map sort_by_score (split votes) ≡ split votes
sort-split [] = refl
sort-split (vote ∷ votes) =
    sort-singles vote (split votes) ∙ ap (λ m. map (λ s. s ∷ []) vote ++ m) (sort-split votes)

module _ (t : Tallystick) where
  add_plurality-singles :
      (state : t.plurality.Tally) (vote : List Selection) (votes : List (List Selection))
      → add_plurality t state (map (λ s. s ∷ []) vote ++ votes)
        ≡ add_plurality t (add_all t t.plurality_add state (map (λ s. s.selection) vote)) votes
  unfolding add_plurality
  add_plurality-singles state [] votes = refl
  add_plurality-singles state (s ∷ vote) votes =
      add_plurality-singles (t.plurality_add state s.selection) vote votes

  add_plurality-split :
      (state : t.plurality.Tally) (votes : List (List Selection))
      → add_plurality t state (split votes) ≡ add_plurality t state votes
  unfolding add_plurality
  add_plurality-split state [] = refl
  add_plurality-split state (vote ∷ votes) =
      add_plurality-singles state vote (split votes)
      ∙ add_plurality-split (add_all t t.plurality_add state (map (λ s. s.selection) vote)) votes

  -- Two tallies that agree on all but the number of votes.
  abbrev pub Agree : Option (TallyResult t) → Option (TallyResult t) → Type 0
  Agree a b =
      (p : TallyResult t) × (q : TallyResult t) × (a ≡ some p)
      × (b ≡ some q)
      × (q ≡ record p { num_votes = q.num_votes })

  module _ (contest_id : String) (contest_index num_winners : ℕ) where
    -- In a plurality contest every selection of a vote counts like a vote of its own: when the selections
    -- of the sorted votes are made votes, the totals, the ranking and the winners stay the same.
    pub tally_plurality-split :
        (votes : List (List Selection))
        → Agree (tally t contest_id contest_index num_winners ContestType.plurality votes) (
            tally t contest_id contest_index num_winners ContestType.plurality
              (split (map sort_by_score votes)))
    unfolding tally tally_sorted tally_plurality report
    tally_plurality-split votes =
        let sorted = sort-split (map sort_by_score votes) in
        let counted = add_plurality-split (t.plurality_new num_winners) (map sort_by_score votes) in
        (_, _, refl, refl, rw (sorted, counted) refl)

    -- What every result says of the votes.
    abbrev pub Counts : List (List Selection) → TallyResult t → Type 0
    Counts votes r =
        (r.num_votes ≡ length votes)
        × (r.spoiled_ballots ≡ [])
        × (r.contest_id ≡ contest_id)
        × (r.contest_index ≡ contest_index)

    Counts-and_then :
        {T : Type 0} (votes : List (List Selection)) (o : Option T) (f : T → TallyResult t)
        (r : TallyResult t)
        → ((state : T) → Counts votes (f state))
        → and_then o (λ state. some (f state)) ≡ some r
        → Counts votes r
    Counts-and_then votes none f r h k = cc
    Counts-and_then votes (some state) f r h k = subst (Counts votes) (some-injective k) (h state)

    -- A result is for the contest, counts all votes that were given, and never lists a ballot as spoiled;
    -- the three methods without ranks always return one, and the ratio variant of Schulze never.
    pub tally_sound :
        (votes : List (List Selection))
        → ((contest_type : ContestType) (r : TallyResult t)
            → tally t contest_id contest_index num_winners contest_type votes ≡ some r
            → Counts votes r)
          × (tally t contest_id contest_index num_winners ContestType.plurality votes ≢ none)
          × (tally t contest_id contest_index num_winners ContestType.score votes ≢ none)
          × (tally t contest_id contest_index num_winners ContestType.approval votes ≢ none)
          × (tally t contest_id contest_index num_winners ContestType.schulze_ratio votes ≡ none)
    unfolding tally tally_sorted tally_plurality tally_score tally_approval tally_condorcet
        tally_schulze tally_borda report
    tally_sound votes = (
      (λ contest_type r h.
          elim contest_type
              as (λ ct.
                tally t contest_id contest_index num_winners ct votes ≡ some r → Counts votes r) [
                  | ContestType.plurality ↦
                      λ k. subst (Counts votes) (some-injective k) (refl, refl, refl, refl)
                  | ContestType.score ↦
                      λ k. subst (Counts votes) (some-injective k) (refl, refl, refl, refl)
                  | ContestType.approval ↦
                      λ k. subst (Counts votes) (some-injective k) (refl, refl, refl, refl)
                  | ContestType.condorcet ↦
                      Counts-and_then votes _ _ r (λ state. (refl, refl, refl, refl))
                  | ContestType.borda ↦
                      Counts-and_then votes _ _ r (λ state. (refl, refl, refl, refl))
                  | ContestType.borda_classic ↦
                      Counts-and_then votes _ _ r (λ state. (refl, refl, refl, refl))
                  | ContestType.borda_dowdall ↦
                      Counts-and_then votes _ _ r (λ state. (refl, refl, refl, refl))
                  | ContestType.borda_modified_classic ↦
                      Counts-and_then votes _ _ r (λ state. (refl, refl, refl, refl))
                  | ContestType.schulze_winning ↦
                      Counts-and_then votes _ _ r (λ state. (refl, refl, refl, refl))
                  | ContestType.schulze_ratio ↦ λ k. cc
                  | ContestType.schulze_margin ↦
                      Counts-and_then votes _ _ r (λ state. (refl, refl, refl, refl))
                ]
            h),
      (λ h. cc),
      (λ h. cc),
      (λ h. cc),
      refl,
    )
