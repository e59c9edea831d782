-- ===== src/Cli.antt =====
-- internal/cli: the subcommands `logs` and `status` of logs.go, and those of upgrade.go. Lines and
-- outputs are ASCII bytes.
pub mod Tail
pub mod Errors
pub mod Format
pub mod Discover
pub mod Logs
pub mod Follow
pub mod Upgrade
