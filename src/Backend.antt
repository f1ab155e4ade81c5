-- ===== src/Backend.antt =====
-- pyreljob/backends: SQLAlchemyBackend, and the claim of PostgresBackend. One child for each part,
-- with the proofs in the modules below it.
pub mod Jobs
pub mod Cleanup
pub mod Runs
pub mod Tasks
pub mod Claim
pub mod Beat
pub mod Reconcile
pub mod Lists
pub mod Validity
pub mod History
