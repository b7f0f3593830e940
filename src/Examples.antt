-- ===== src/Examples.antt =====
-- A small server and the theorems at concrete inputs.
mod Objects
mod Server
mod Leases
mod Backups
mod Restores
mod Snapshots
mod Instances
mod ScaleUp
mod Clusters
mod Standbys
