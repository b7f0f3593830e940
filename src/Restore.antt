-- ===== src/Restore.antt =====
-- The PerconaPGRestore controller, percona/controller/pgrestore.
pub mod PgBackRest
pub mod Reconcile
pub mod Transitions
pub mod Ending
pub mod Snapshot
