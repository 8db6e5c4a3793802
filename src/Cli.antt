-- ===== src/Cli.antt =====
-- cmd/supergraph/: the command line.
pub mod Subscribe
