-- ===== src/Cli.antt =====
-- src/cli: the terminal input.
pub mod Input
mod Tests
