-- ===== src/Cli.antt =====
-- The command line (src/cli): the commands on nodes and on the core.
pub mod NodeCmd
pub mod CoreCmd
