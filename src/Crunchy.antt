-- ===== src/Crunchy.antt =====
-- Crunchy's PostgresCluster controller, internal/controller/postgrescluster.
pub mod Instances
