-- ===== src/Cli.antt =====
-- The command line client (cryptoballot_cli/src), as far as it computes: the end-to-end audit of an
-- election, and the transactions that it generates and posts. Arguments, files and requests are not
-- modelled.
pub mod E2e
pub mod Generate
