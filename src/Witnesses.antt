-- ===== src/Witnesses.antt =====
-- Concrete runs that the theorems on the program are applied to.
mod Data
mod Upgrade
mod Manager
mod Queries
mod Store
mod Plist
mod Identity
mod Worker
mod Cli
mod Formula
mod Service
mod ConfigHub
mod Assemble
