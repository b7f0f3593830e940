-- ===== src/Cluster.antt =====
-- The status of a PerconaPGCluster, percona/controller/pgcluster/status.go.
pub mod State
pub mod Host
pub mod Conditions
pub mod Status
pub mod Standby
