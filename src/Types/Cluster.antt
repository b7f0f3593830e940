-- ===== src/Types/Cluster.antt =====
-- PerconaPGCluster (pkg/apis/pgv2.percona.com/v2/perconapgcluster_types.go) and crunchy's
-- PostgresCluster, with the fields that the backup and restore controllers and the cluster's
-- status use. A pointer is an `Option`.
use percona_postgresql_opera.Prelude.{
  ℕ, ℤ, String, Bool, true, false, not, List, Option, none, some, StringMap, ◌==◌, nat_eq,
}
use percona_postgresql_opera.Types.Meta.{ObjectMeta, Condition, EnvVar}

-- A repository with its bucket or container. At most one member is meant to be set.
pub record PgBackRestRepo : Type 0 where
  pub name : String
  pub azure : Option String
  pub gcs : Option String
  pub s3 : Option String
  pub volume : Bool

pub record PgBackRestManualBackup : Type 0 where
  pub repo_name : String
  pub options : List String
  pub env : List EnvVar
  pub env_from : List EnvVar

pub record PostgresClusterDataSource : Type 0 where
  pub repo_name : String
  pub options : List String
  pub env : List EnvVar
  pub env_from : List EnvVar
  pub tolerations : Option (List String)

pub record PgBackRestRestore : Type 0 where
  pub enabled : Option Bool
  pub data_source : Option PostgresClusterDataSource

pub record PgBackRestArchive : Type 0 where
  pub image : String
  pub repos : List PgBackRestRepo
  pub global : StringMap
  pub manual : Option PgBackRestManualBackup
  pub restore : Option PgBackRestRestore
  pub job_tolerations : Option (Option (List String))

pub record CheckpointConfig : Type 0 where
  pub enabled : Option Bool
  pub timeout_seconds : Option ℕ

pub record OfflineSnapshotConfig : Type 0 where
  pub checkpoint : Option CheckpointConfig

pub record VolumeSnapshots : Type 0 where
  pub mode : String
  pub class_name : String
  pub offline_config : Option OfflineSnapshotConfig

-- The claims of an instance set, of which only the name is looked into.
pub record InstanceSetSpec : Type 0 where
  pub name : String
  pub data_volume_claim : String
  pub wal_volume_claim : Option String
  pub tablespace_volumes : StringMap

pub record Backups : Type 0 where
  pub enabled : Option Bool
  pub pgbackrest : PgBackRestArchive
  pub volume_snapshots : Option VolumeSnapshots

pub record PgBouncerSpec : Type 0 where
  pub replicas : Option ℕ
  pub expose_type : Option String

pub record PgProxySpec : Type 0 where
  pub pgbouncer : Option PgBouncerSpec

pub record PgBackRestJobStatus : Type 0 where
  pub id : String
  pub finished : Bool
  pub completion_time : Option ℕ
  pub succeeded : ℕ
  pub failed : ℕ

pub record PgBackRestStatus : Type 0 where
  pub manual_backup : Option PgBackRestJobStatus
  pub repo_host_ready : Option Bool
  pub restore : Option PgBackRestJobStatus

pub record PatroniStatus : Type 0 where
  pub system_identifier : String
  pub switchover : Option String
  pub switchover_timeline : Option ℕ

pub data AppState : Type 0 where
  app_new app_init app_paused app_stopping app_ready : AppState

pub record InstanceSetStatus : Type 0 where
  pub name : String
  pub size : ℕ
  pub ready : ℕ

-- `max_acceptable_lag` is a `resource.Quantity` as it is written.
pub record StandbySpec : Type 0 where
  pub enabled : Bool
  pub repo_name : String
  pub host : String
  pub max_acceptable_lag : Option String

-- A time that is nil or zero is `none`.
pub record StandbyStatus : Type 0 where
  pub lag_last_computed_at : Option ℕ
  pub lag_bytes : ℤ

pub record PgClusterStatus : Type 0 where
  pub postgres_size : ℕ
  pub postgres_ready : ℕ
  pub instance_sets : List InstanceSetStatus
  pub pgbouncer_size : ℕ
  pub pgbouncer_ready : ℕ
  pub state : AppState
  pub patroni : Option PatroniStatus
  pub pgbackrest : Option PgBackRestStatus
  pub host : String
  pub installed_custom_extensions : List String
  pub standby : Option StandbyStatus
  pub conditions : List Condition
  pub observed_generation : ℕ

pub record PerconaPgCluster : Type 0 where
  pub meta : ObjectMeta
  pub unmanaged : Option Bool
  pub pause : Option Bool
  pub instance_sets : List InstanceSetSpec
  pub cr_version : String
  pub backups : Backups
  pub proxy : Option PgProxySpec
  pub custom_extensions : List String
  pub standby : Option StandbySpec
  pub status : PgClusterStatus

-- `PostgresInstanceSetStatus` of crunchy's API
pub record PostgresInstanceSetStatus : Type 0 where
  pub name : String
  pub ready_replicas : ℕ
  pub replicas : ℕ
  pub updated_replicas : ℕ

pub record PostgresClusterStatus : Type 0 where
  pub instance_sets : List PostgresInstanceSetStatus
  pub patroni : PatroniStatus
  pub pgbackrest : Option PgBackRestStatus
  pub pgbouncer_replicas : ℕ
  pub pgbouncer_ready_replicas : ℕ
  pub conditions : List Condition

pub record PostgresCluster : Type 0 where
  pub meta : ObjectMeta
  pub status : PostgresClusterStatus

-- `(Backups).IsVolumeSnapshotsEnabled`
unfoldable pub is_volume_snapshots_enabled : Backups → Bool
is_volume_snapshots_enabled b = elim b.volume_snapshots [
  | none ↦ false
  | some v ↦ not (v.class_name == "")
]

-- `(Backups).IsEnabled`
unfoldable pub is_enabled : Backups → Bool
is_enabled b = elim b.enabled [ none ↦ true | some e ↦ e ]

-- `(*PGProxySpec).PGBouncerEnabled`, with `IsSet`
unfoldable pub pgbouncer_enabled : Option PgProxySpec → Bool
pgbouncer_enabled none = false
pgbouncer_enabled (some p) = elim p.pgbouncer [
  | none ↦ false
  | some b ↦ elim b.replicas [ none ↦ true | some n ↦ not (nat_eq n 0) ]
]
