-- ===== src/Tests/Tallies.antt =====
-- The theorems on the tally, with a small instance of tallystick: a tally is the list of the names it
-- was given.
use cryptoballot.Prelude.{ℕ, false, ◌≡◌, List, [], ◌∷◌, ◌++◌, inr, String, map, length, arith}
use cryptoballot.External.{Selection}
use cryptoballot.Election.{ContestType}
use cryptoballot.Tally.{Tallystick, Report, tally, sort_by_score}
use cryptoballot.Tally.Laws.{Reorders, tally-AreReordered, split, Agree, tally_plurality-split}

abbrev names : Report ℕ (List String) ℕ String
names = record {
  Tally = List String;
  totals = map (λ c. (c, 1));
  ranked = λ cs. cs;
  winners = length;
}

abbrev pairs : Report ℕ (List String) ℕ (String × String)
pairs = record {
  Tally = List String;
  totals = map (λ c. ((c, c), 1));
  ranked = λ cs. cs;
  winners = length;
}

abbrev pub toy_tally : Tallystick
toy_tally = record {
  Decimal = ℕ;
  Ranked = List String;
  Winners = ℕ;
  DuplicateCandidate = Unit {0};
  plurality = names;
  plurality_new = λ n. [];
  plurality_add = λ cs c. cs ++ (c ∷ []);
  score = names;
  score_new = λ n. [];
  score_add = λ cs vote. cs ++ map (λ p. p.0) vote;
  approval = names;
  approval_new = λ n. [];
  approval_add = λ cs vote. cs ++ vote;
  condorcet = pairs;
  condorcet_new = λ n. [];
  condorcet_add = λ cs vote. inr (cs ++ map (λ p. p.0) vote);
  schulze = pairs;
  schulze_new = λ n variant. [];
  schulze_add = λ cs vote. inr (cs ++ map (λ p. p.0) vote);
  borda = names;
  borda_new = λ n variant. [];
  borda_add = λ cs vote. inr (cs ++ vote);
}

abbrev choice : String → ℕ → Selection
choice name score = record { write_in = false; score = score; selection = name }

abbrev two : List Selection
two = choice "A" 0 ∷ choice "B" 1 ∷ []

abbrev swapped : List Selection
swapped = choice "B" 1 ∷ choice "A" 0 ∷ []

tally-AreReordered_example :
    tally toy_tally "c" 0 1 ContestType.borda (two ∷ [])
    ≡ tally toy_tally "c" 0 1 ContestType.borda (swapped ∷ [])
tally-AreReordered_example =
    tally-AreReordered toy_tally "c" 0 1 ContestType.borda (two ∷ []) (swapped ∷ [])
      (Reorders.swap (choice "A" 0) (choice "B" 1) [] (λ h. absurd (omega arith)), tt)

tally_plurality-split_example :
    Agree toy_tally
      (tally toy_tally "c" 0 1 ContestType.plurality (swapped ∷ []))
      (tally toy_tally "c" 0 1 ContestType.plurality (split (map sort_by_score (swapped ∷ []))))
tally_plurality-split_example = tally_plurality-split toy_tally "c" 0 1 (swapped ∷ [])
