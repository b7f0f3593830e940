-- ===== src/Types.antt =====
-- The Kubernetes objects that the controllers read and write, with the fields that they use.
pub mod Meta
pub mod Cluster
pub mod Backup
pub mod Restore
pub mod Volume
pub mod Write
