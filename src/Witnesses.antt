-- ===== src/Witnesses.antt =====
-- The theorems, applied at the sample database.
mod Claiming
mod Tables
mod Migrating
mod Working
mod Undoing
mod Polling
mod Interrupted
mod Upgrading
mod Naming
