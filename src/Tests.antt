-- ===== src/Tests.antt =====
-- The theorems at concrete inputs. `Hex` and `Toy` build an instance of what the program takes from
-- other packages; the other children apply the theorems to it.
mod Hex
mod Toy
mod Sample
mod Runs
mod Identifiers
mod Votes
mod Mixes
mod Ledgers
mod Trustees
mod Tallies
mod Servers
mod Services
mod Stores
mod Clients
mod Counts
mod Sawtooth
mod Contests
mod Tasks
