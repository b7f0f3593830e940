-- ===== src/Backup.antt =====
-- The PerconaPGBackup controller: percona/controller/pgbackup/controller.go.
pub mod Status
pub mod Holder
pub mod Locking
pub mod Repo
pub mod Annotation
pub mod Jobs
pub mod Info
pub mod Snapshot
pub mod Finish
pub mod Finalizers
pub mod Latest
pub mod Reconcile
pub mod Transitions
