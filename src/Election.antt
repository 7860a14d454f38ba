-- ===== src/Election.antt =====
-- The election transaction and what it holds: cryptoballot/src/election.rs, the records of
-- ballot.rs, authn.rs and mix.rs, and `Trustee` of trustee.rs.
use cryptoballot.Prelude.{
  ℕ, Bool, true, false, List, [], ◌∷◌, Option, none, some, String, map, ◌==◌, str_eq, if◌then◌else◌,
  length, find, replicate, ◌&&◌,
}
use cryptoballot.External.{External}
use cryptoballot.Identifier.{Identifier, TransactionType}

pub data ContestType : Type 0 where
  plurality score approval condorcet : ContestType
  borda borda_classic borda_dowdall borda_modified_classic : ContestType
  schulze_winning schulze_ratio schulze_margin : ContestType

pub record MixConfig : Type 0 where
  pub timeout_secs : ℕ
  pub batch_size : Option ℕ

module _ (x : External) where
  open x use {PublicKey, RsaPublicKey, Uuid, JsonValue, key_eq, uuid_eq}

  pub record Ballot : Type 0 where
    pub id : String
    pub contests : List ℕ
    pub properties : List (String × JsonValue)

  pub record Candidate : Type 0 where
    pub id : String
    pub properties : List (String × JsonValue)

  pub record Contest : Type 0 where
    pub id : String
    pub index : ℕ
    pub contest_type : ContestType
    pub num_winners : ℕ
    pub write_in : Bool
    pub candidates : List Candidate
    pub properties : List (String × JsonValue)

  pub record Trustee : Type 0 where
    pub public_key : PublicKey
    pub index : ℕ
    pub num_trustees : ℕ
    pub threshold : ℕ

  -- `public_keys` is an IndexMap from ballot ids
  pub record Authenticator : Type 0 where
    pub id : Uuid
    pub public_keys : List (String × RsaPublicKey)

  pub record Authentication : Type 0 where
    pub authenticator : Uuid
    pub signature : List ℕ

  pub record ElectionTransaction : Type 0 where
    pub id : Identifier
    pub authority_public : PublicKey
    pub trustees : List Trustee
    pub trustees_threshold : ℕ
    pub authenticators : List Authenticator
    pub authenticators_threshold : ℕ
    pub mix_config : Option MixConfig
    pub ballots : List Ballot
    pub contests : List Contest
    pub properties : List (String × JsonValue)

-- `ElectionTransaction::build_id`
unfoldable pub build_id : List ℕ → Identifier
build_id election_id = record {
  election_id = election_id;
  transaction_type = TransactionType.election;
  unique_info = replicate 16 0;
}

module _ {x : External} where
  open x use {PublicKey, Uuid, key_eq, uuid_eq}

  -- `ElectionTransaction::new`, at the random election id
  unfoldable pub new_election : PublicKey → List ℕ → ElectionTransaction x
  unfolding build_id
  new_election authority_public election_id = record {
    id = build_id election_id;
    authority_public = authority_public;
    trustees = [];
    trustees_threshold = 1;
    authenticators = [];
    authenticators_threshold = 1;
    mix_config = none;
    ballots = [];
    contests = [];
    properties = [];
  }

  unfoldable pub get_authenticator : ElectionTransaction x → Uuid → Option (Authenticator x)
  get_authenticator e authn_id = find (λ a. uuid_eq authn_id a.id) e.authenticators

  unfoldable pub get_trustee : ElectionTransaction x → ℕ → Option (Trustee x)
  get_trustee e trustee_index = find (λ t. trustee_index == t.index) e.trustees

  unfoldable pub get_ballot : ElectionTransaction x → String → Option (Ballot x)
  get_ballot e ballot_id = find (λ b. str_eq b.id ballot_id) e.ballots

  unfoldable pub full_trustee : ElectionTransaction x → Trustee x → Trustee x
  full_trustee e t = record t { num_trustees = length e.trustees; threshold = e.trustees_threshold }

  unfoldable pub get_full_trustees : ElectionTransaction x → List (Trustee x)
  unfolding full_trustee
  get_full_trustees e = map (full_trustee e) e.trustees

  -- the loop of `Trustee::from_election_tx`, in which the last match stays
  unfoldable pub last_with_key :
      PublicKey → Option (Trustee x) → List (Trustee x) → Option (Trustee x)
  last_with_key pkey found [] = found
  last_with_key pkey found (t ∷ ts) =
      last_with_key pkey (if key_eq t.public_key pkey then some t else found) ts

  -- `Trustee::from_election_tx`: `none` is its panic, also at the index 0 of `Trustee::default`
  unfoldable pub from_election_tx : ElectionTransaction x → PublicKey → Option (Trustee x)
  unfolding last_with_key full_trustee
  from_election_tx e pkey = elim (last_with_key pkey none e.trustees) [
    | none ↦ none
    | some t ↦ if t.index == 0 then none else some (full_trustee e t)
  ]

  -- the loops over `election.trustees` that set `trustee_exists`
  unfoldable pub trustee_exists : List (Trustee x) → ℕ → PublicKey → Bool
  trustee_exists [] index key = false
  trustee_exists (t ∷ ts) index key =
      if t.index == index && key_eq t.public_key key then true else trustee_exists ts index key
