-- ===== src/Lib.antt =====
-- A verification library for cryptoballot, an electronic voting system in which an election is a set of
-- signed transactions: the election, the key generation of its trustees, the encryption key, the
-- votes, the end of voting, the mixes, the partial decryptions and the decryptions. Nothing is
-- believed but what `validate` accepts against a store of the transactions before it. The library is
-- about that validation and what it stands on, in the crate cryptoballot.
--
-- The parts, and the files that model them:
--   Identifier, Identifier/Text: `Identifier` and `TransactionType` of cryptoballot/src/transaction.rs.
--     `new`, `start`, `end`, `to_array`, `from_str`, `to_string` and `cmp` have the names of the source.
--   Errors: cryptoballot/src/error.rs, with `TransactionNotFound` of store.rs.
--   Election: the records of cryptoballot/src/election.rs, ballot.rs, authn.rs, mix.rs and trustee.rs
--     that an election is made of, and the lookups in them.
--   Transaction: the ten kinds of transaction; Transaction/Ids has their `build_id` and `new`
--     (`vote_id` for `VoteTransaction::build_id`, `new_vote` for `VoteTransaction::new`, and so on), and
--     Transaction/Convert and Transaction/Kinds the `From` and `AsRef` implementations of transaction.rs:
--     what Rust chooses by the expected type is chosen by a transaction type.
--   Store: the trait `Store` of cryptoballot/src/store.rs and its typed lookups, written once for every
--     store; Store/Mem: `MemStore`, on the sorted map of BTreeMap.
--   Validate: one child for each `validate_tx`: Election (with the end of voting), Keygen, Vote, Mix,
--     Upstream, Decrypt and Decryption (the three parts of decryption.rs); Traits and Signed hold the
--     trait `CryptoBallotTransaction`, `Signed` and the match of `SignedTransaction::validate`. Stored is
--     about stores that take validated transactions only.
--   Exonum: the ledger of cryptoballot_exonum/src/lib.rs, whose map index is a parameter.
--   Sawtooth: the processor of cryptoballot_sawtooth_tp/src/handler.rs, whose transaction context is a
--     parameter.
--   Authn: the rest of cryptoballot/src/authn.rs, in which an authenticator signs blindly (`Validate/Vote`
--     has `Authenticator::verify`); Voting: `encrypt_vote` of vote.rs.
--   Trustee: `Trustee` and `EncryptedShare` of cryptoballot/src/trustee.rs.
--   Tasks: cryptoballot_server/src/tasks.rs, which answers a transaction with further ones. Tasks/Keygen,
--     Tasks/Mixing, Tasks/Partials and Tasks/Decrypting have the `process_` functions and
--     `produce_partials` by those names, Tasks/Generate the dispatch.
--   Service: cryptoballot_server/src/service.rs and api.rs, which post what the tasks answer to a block.
--   Tally: `TallyResult::tally` of cryptoballot/src/tally.rs. The package tallystick, which counts, is the
--     parameter `Tallystick`.
--   Cli/E2e: `command_e2e` of cryptoballot_cli/src/command_e2e.rs, the audit of an election. Cli/Generate:
--     the election, the vote and the end of voting of command_election.rs, command_vote.rs and
--     command_voting_end.rs beside it. `exit(1)` is an error.
--   Bytes, Prelude: byte strings, and the tests, lists and results that all parts share.
--   Tests: a concrete instance of the parameter, a sample election, and the theorems applied to it.
--
-- The packages that the program calls (ed25519_dalek, x25519_dalek, cryptid, hkdf, aes_gcm, rand, rsa,
-- rsa_fdh, prost, hex, uuid, serde_json) are the record `External`, a parameter of every module that needs them: their types are
-- abstract, and its laws are the documented behaviour that the code relies on: equality tests decide
-- equality, a signature that is made verifies, also a blind one that is unblinded, an honest shuffle proof
-- verifies, and so does a party's share of a decryption, what is encrypted under a key and a nonce is
-- decrypted under them, both sides of a key exchange compute one secret, hexadecimal text can be read
-- back and keeps the order of bytes. The bytes that serde_cbor makes of a transaction are the
-- record `Cbor`.
--
-- A call returns `ok`, returns `err`, or panics (`panic`): unwraps, conversions from another kind of
-- transaction and indices out of range are written out. Where the only other outcome is a panic, the
-- call returns an Option. Arrays of a fixed length are lists, and what their types promise is the
-- predicate `IsWellFormed`. Numbers are natural; casts to a narrower type are written as remainders.
-- Loops are recursion on the list that they walk, so no fuel is needed. A random generator is a value
-- that is passed on.
--
-- A server's secret key is an argument of its tasks, and so is the order in which a HashMap gives its
-- entries.
--
-- What a service prints is left out, and what it has broadcast before a panic is not part of its result.
--
-- Not modelled: the remaining serialisation adapters, the arguments, files and requests of the command
-- line, and the wiring of the services, which are calls of other packages.
mod Prelude
pub mod Bytes
pub mod Identifier
pub mod External
pub mod Errors
pub mod Election
pub mod BTreeMap
pub mod Transaction
pub mod Store
pub mod Validate
pub mod Exonum
pub mod Sawtooth
pub mod Authn
pub mod Trustee
pub mod Voting
pub mod Tally
pub mod Tasks
pub mod Service
pub mod Cli
mod Tests
