-- ===== src/Backup/Transitions.antt =====
-- The states that a reconciliation writes into a backup's status.
pub mod Updates
pub mod Kept
pub mod Outcome
pub mod Locked
pub mod States
pub mod Reconciled
pub mod Graph
