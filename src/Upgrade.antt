-- ===== src/Upgrade.antt =====
-- internal/upgrade: the files, the store, the manager, the worker, and what they keep together.
pub mod Command
pub mod Launchd
pub mod Plist
pub mod Identity
pub mod Formula
pub mod Verify
pub mod Host
pub mod Task
pub mod Active
pub mod Disk
pub mod Store
pub mod Manager
pub mod Safety
pub mod Health
pub mod Worker
pub mod Reach
