-- ===== src/Tally.antt =====
-- The tally of a contest: cryptoballot/src/tally.rs, with `SpoiledBallotError` of error.rs and the
-- conversions of `Selection` in ballot.rs. The package tallystick, which counts, is a parameter.
pub mod Laws
use Prim.Native.String.{◌++◌ as text_append}
use cryptoballot.Prelude.{
  ℕ, List, [], ◌∷◌, ◌⊎◌, Option, none, some, String, map, expect, and_then, leb, length,
  if◌then◌else◌,
}
use cryptoballot.External.{Selection}
use cryptoballot.Identifier.{Identifier}
use cryptoballot.Election.{ContestType}
use cryptoballot.Authn.{insert_key}

-- `SpoiledBallotError`, the message texts left out
pub data SpoiledBallotError : Type 0 where
  incorrect_protobuf_format no_selections too_many_selections duplicate_candidate :
      SpoiledBallotError
  invalid_ranking score_over_limit write_in_not_allowed candidate_not_found : SpoiledBallotError

-- the variants of two methods of tallystick
pub data SchulzeVariant : Type 0 where
  winning margin : SchulzeVariant

pub data BordaVariant : Type 0 where
  borda classic_borda dowdall modified_classic_borda : BordaVariant

-- What a tally of tallystick reports: totals by `Key`, the ranked candidates and the winners.
pub record Report (Decimal Ranked Winners Key : Type 0) : Type 1 where
  pub Tally : Type 0
  pub totals : Tally → List (Key × Decimal)
  pub ranked : Tally → Ranked
  pub winners : Tally → Winners

-- The tallies of tallystick, which are made for a number of winners. Those of ranked methods refuse a
-- vote that names a candidate twice.
pub record Tallystick : Type 1 where
  pub Decimal : Type 0
  pub Ranked : Type 0
  pub Winners : Type 0
  pub DuplicateCandidate : Type 0
  pub plurality : Report Decimal Ranked Winners String
  pub plurality_new : ℕ → plurality.Tally
  pub plurality_add : plurality.Tally → String → plurality.Tally
  pub score : Report Decimal Ranked Winners String
  pub score_new : ℕ → score.Tally
  pub score_add : score.Tally → List (String × ℕ) → score.Tally
  pub approval : Report Decimal Ranked Winners String
  pub approval_new : ℕ → approval.Tally
  pub approval_add : approval.Tally → List String → approval.Tally
  pub condorcet : Report Decimal Ranked Winners (String × String)
  pub condorcet_new : ℕ → condorcet.Tally
  pub condorcet_add : condorcet.Tally → List (String × ℕ) → DuplicateCandidate ⊎ condorcet.Tally
  pub schulze : Report Decimal Ranked Winners (String × String)
  pub schulze_new : ℕ → SchulzeVariant → schulze.Tally
  pub schulze_add : schulze.Tally → List (String × ℕ) → DuplicateCandidate ⊎ schulze.Tally
  pub borda : Report Decimal Ranked Winners String
  pub borda_new : ℕ → BordaVariant → borda.Tally
  pub borda_add : borda.Tally → List String → DuplicateCandidate ⊎ borda.Tally

-- the stable sort by the score
unfoldable pub insert_by_score : Selection → List Selection → List Selection
insert_by_score a [] = a ∷ []
insert_by_score a (b ∷ rest) =
    let more = insert_by_score a rest in if leb a.score b.score then a ∷ b ∷ rest else b ∷ more

unfoldable pub sort_by_score : List Selection → List Selection
unfolding insert_by_score
sort_by_score [] = []
sort_by_score (a ∷ vote) = insert_by_score a (sort_by_score vote)

-- `Into<(String, u64)>` and `Into<(String, u32)>`, whose numbers fit both types
unfoldable pub into_pair : Selection → String × ℕ
into_pair s = (s.selection, s.score)

module _ (t : Tallystick) where
  open t use {Decimal, Ranked, Winners}

  pub record TallyResult : Type 0 where
    pub contest_id : String
    pub contest_index : ℕ
    pub num_votes : ℕ
    pub totals : List (String × Decimal)
    pub results : Ranked
    pub winners : Winners
    pub spoiled_ballots : List (Identifier × SpoiledBallotError)

  -- The loops over the votes. A ranked method panics where tallystick refuses a vote.
  abbrev pub add_all : {T B : Type 0} → (T → B → T) → T → List B → T
  add_all add tally [] = tally
  add_all add tally (vote ∷ votes) = add_all add (add tally vote) votes

  abbrev pub try_add_all :
      {T B : Type 0} → (T → B → t.DuplicateCandidate ⊎ T) → T → List B → Option T
  try_add_all add tally [] = some tally
  try_add_all add tally (vote ∷ votes) =
      and_then (expect (add tally vote)) λ tally'. try_add_all add tally' votes

  -- the two loops of the plurality method, over the votes and over their selections
  unfoldable pub add_plurality : t.plurality.Tally → List (List Selection) → t.plurality.Tally
  add_plurality tally [] = tally
  add_plurality tally (vote ∷ votes) =
      add_plurality (add_all t.plurality_add tally (map (λ s. s.selection) vote)) votes

  -- the loop that copies the totals into an IndexMap
  abbrev pub copy_totals :
      {K : Type 0}
      → (K → String)
      → List (String × Decimal)
      → List (K × Decimal)
      → List (String × Decimal)
  copy_totals name totals [] = totals
  copy_totals name totals ((key, total) ∷ rest) =
      copy_totals name (insert_key (name key) total totals) rest

  -- `format!("{} > {}", candidate.0, candidate.1)`
  abbrev pub pair_name : String × String → String
  pair_name p = text_append p.0 (text_append " > " p.1)

  -- the end of every branch
  unfoldable pub report :
      {K : Type 0} (r : Report Decimal Ranked Winners K)
      → (K → String)
      → String
      → ℕ
      → ℕ
      → r.Tally
      → TallyResult
  unfolding insert_key
  report r name contest_id contest_index num_votes tally = record {
    contest_id = contest_id;
    contest_index = contest_index;
    num_votes = num_votes;
    totals = copy_totals name [] (r.totals tally);
    results = r.ranked tally;
    winners = r.winners tally;
    spoiled_ballots = [];
  }

  -- The branches: those with scores, those with candidates in order, and those without an order.
  module _ (contest_id : String) (contest_index num_winners : ℕ) where
    unfoldable pub tally_plurality : List (List Selection) → ℕ → TallyResult
    unfolding add_plurality report
    tally_plurality votes num_votes =
        report t.plurality (λ c. c) contest_id contest_index num_votes
          (add_plurality (t.plurality_new num_winners) votes)

    unfoldable pub tally_score : List (List Selection) → ℕ → TallyResult
    unfolding report into_pair
    tally_score votes num_votes =
        report t.score (λ c. c) contest_id contest_index num_votes
          (add_all t.score_add (t.score_new num_winners) (map (map into_pair) votes))

    unfoldable pub tally_approval : List (List Selection) → ℕ → TallyResult
    unfolding report
    tally_approval votes num_votes =
        report t.approval (λ c. c) contest_id contest_index num_votes
          (add_all t.approval_add (t.approval_new num_winners) (map (map (λ s. s.selection)) votes))

    unfoldable pub tally_condorcet : List (List Selection) → ℕ → Option TallyResult
    unfolding report into_pair
    tally_condorcet votes num_votes =
        and_then
          (try_add_all t.condorcet_add (t.condorcet_new num_winners) (map (map into_pair) votes))
          λ tally. some (report t.condorcet pair_name contest_id contest_index num_votes tally)

    unfoldable pub tally_schulze : SchulzeVariant → List (List Selection) → ℕ → Option TallyResult
    unfolding report into_pair
    tally_schulze variant votes num_votes =
        and_then
          (try_add_all t.schulze_add (t.schulze_new num_winners variant)
            (map (map into_pair) votes))
          λ tally. some (report t.schulze pair_name contest_id contest_index num_votes tally)

    unfoldable pub tally_borda : BordaVariant → List (List Selection) → ℕ → Option TallyResult
    unfolding report
    tally_borda variant votes num_votes =
        and_then
          (try_add_all t.borda_add (t.borda_new num_winners variant)
            (map (map (λ s. s.selection)) votes))
          λ tally. some (report t.borda (λ c. c) contest_id contest_index num_votes tally)

    -- the match on the contest type, on the sorted votes; the ratio variant is `unimplemented!()`
    unfoldable pub tally_sorted : ContestType → List (List Selection) → ℕ → Option TallyResult
    unfolding tally_plurality tally_score tally_approval tally_condorcet tally_schulze tally_borda
    tally_sorted ContestType.plurality votes n = some (tally_plurality votes n)
    tally_sorted ContestType.score votes n = some (tally_score votes n)
    tally_sorted ContestType.approval votes n = some (tally_approval votes n)
    tally_sorted ContestType.condorcet votes n = tally_condorcet votes n
    tally_sorted ContestType.borda votes n = tally_borda BordaVariant.borda votes n
    tally_sorted ContestType.borda_classic votes n = tally_borda BordaVariant.classic_borda votes n
    tally_sorted ContestType.borda_dowdall votes n = tally_borda BordaVariant.dowdall votes n
    tally_sorted ContestType.borda_modified_classic votes n =
        tally_borda BordaVariant.modified_classic_borda votes n
    tally_sorted ContestType.schulze_winning votes n = tally_schulze SchulzeVariant.winning votes n
    tally_sorted ContestType.schulze_ratio votes n = none
    tally_sorted ContestType.schulze_margin votes n = tally_schulze SchulzeVariant.margin votes n

    -- `TallyResult::tally`
    unfoldable pub tally : ContestType → List (List Selection) → Option TallyResult
    unfolding sort_by_score tally_sorted
    tally contest_type votes = tally_sorted contest_type (map sort_by_score votes) (length votes)
