-- ===== src/Tests/Identifiers.antt =====
-- The theorems on identifiers and on the store in memory, at the sample election.
use cryptoballot.Transaction.Ids.Unique.{Place, IsPlace}
use cryptoballot.Prelude.{◌≡◌, refl, arith, arith, ◌≡◌, refl, some, ok, replicate}
use cryptoballot.Identifier.{Identifier, TransactionType, IsWellFormed}
use cryptoballot.Identifier.Text.{to_string, from_str}
use cryptoballot.Identifier.Text.RoundTrip.{from_str-to_string}
use cryptoballot.Transaction.{SignedTransaction, tx_id}
use cryptoballot.Store.Mem.{empty, set}
use cryptoballot.Store.Mem.Laws.{empty-IsValid, set-IsValid}
use cryptoballot.Store.Mem.Multiple.{ReturnsAll, get_multiple_exact}
use cryptoballot.Election.{build_id}
use cryptoballot.Tests.Toy.{toy}
use cryptoballot.Tests.Hex.{decode}
use cryptoballot.Tests.Sample.{election_id, election_with, signed, mix_config}

pub election_id-IsWellFormed : IsWellFormed election_id
unfolding build_id
election_id-IsWellFormed = record {
  election_length = refl;
  unique_length = refl;
  election_bytes = omega arith;
  unique_bytes = omega arith;
}

abbrev pub vote_tx_id : Identifier
vote_tx_id = record {
  election_id = replicate 15 7;
  transaction_type = TransactionType.vote;
  unique_info = replicate 16 4;
}

pub vote_tx_id-IsWellFormed : IsWellFormed vote_tx_id
vote_tx_id-IsWellFormed = record {
  election_length = refl;
  unique_length = refl;
  election_bytes = omega arith;
  unique_bytes = omega arith;
}

abbrev election_tx : SignedTransaction toy
election_tx = SignedTransaction.election (signed (election_with mix_config))

election_tx-IsWellFormed : IsWellFormed (tx_id election_tx)
unfolding tx_id
election_tx-IsWellFormed = election_id-IsWellFormed

from_str-to_string_example : from_str toy (to_string toy election_id) ≡ ok election_id
from_str-to_string_example = from_str-to_string toy election_id election_id-IsWellFormed

short_text : decode (replicate 32 48) ≡ some (replicate 16 0)
unfolding decode
short_text = refl

get_multiple_exact_example : ReturnsAll (set empty election_tx) election_id TransactionType.election
get_multiple_exact_example =
    get_multiple_exact (set empty election_tx) election_id TransactionType.election
      election_id-IsWellFormed
      (set-IsValid empty election_tx empty-IsValid election_tx-IsWellFormed)

abbrev place : Place
place = record { contest = 1; batch = 2; mix_index = 3; mixer = 4; entry = 5; trustee = 6 }

place-IsPlace : IsPlace place
place-IsPlace = record { contest_lt = omega arith; batch_lt = omega arith; entry_lt = omega arith }
