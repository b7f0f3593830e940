-- ===== src/Types/Backup.antt =====
-- PerconaPGBackup (pkg/apis/pgv2.percona.com/v2/perconapgbackup_types.go) and the output of
-- `pgbackrest info` (percona/pgbackrest/pgbackrest.go).
use Prim.Native.String.{◌++◌ as str_append}
use percona_postgresql_opera.Prelude.{
  ℕ, String, Bool, true, false, List, [], ◌∷◌, ◌++◌, Option, some, StringMap, deref,
}
use percona_postgresql_opera.Types.Meta.{ObjectMeta, Condition, ContainerOptions}
use percona_postgresql_opera.Types.Cluster.{PgBackRestRepo}

pub data BackupMethod : Type 0 where
  method_pgbackrest method_volume_snapshot : BackupMethod

pub data PgBackupState : Type 0 where
  backup_new backup_starting backup_running backup_failed backup_succeeded : PgBackupState

pub data StorageType : Type 0 where
  storage_unset storage_filesystem storage_azure storage_gcs storage_s3 : StorageType

pub record SnapshotStatus : Type 0 where
  pub data_volume_snapshot_ref : Option String
  pub wal_volume_snapshot_ref : Option String
  pub tablespace_volume_snapshot_refs : StringMap

pub record PgBackupSpec : Type 0 where
  pub pg_cluster : String
  pub repo_name : Option String
  pub method : Option BackupMethod
  pub options : List String
  pub container_options : ContainerOptions

pub record PgBackupStatus : Type 0 where
  pub job_name : String
  pub state : PgBackupState
  pub error : String
  pub completed_at : Option ℕ
  pub destination : String
  pub backup_type : String
  pub storage_type : StorageType
  pub repo : Option PgBackRestRepo
  pub image : String
  pub backup_name : String
  pub size : ℕ
  pub cr_version : String
  pub latest_restorable_time : Option ℕ
  pub snapshot : Option SnapshotStatus
  pub conditions : List Condition

pub record PerconaPgBackup : Type 0 where
  pub meta : ObjectMeta
  pub spec : PgBackupSpec
  pub status : PgBackupStatus

-- `(PGBackupState).IsTerminal`
abbrev pub is_terminal : PgBackupState → Bool
is_terminal backup_failed = true
is_terminal backup_succeeded = true
is_terminal _ = false

-- `(*PerconaPGBackup).Default`
abbrev pub method_of : PgBackupSpec → BackupMethod
method_of s = deref s.method method_pgbackrest

abbrev annotate_option : BackupMethod → String → List String → List String
annotate_option method_pgbackrest name options =
    options
    ++ (str_append "--annotation=\"percona.com/backup-name\"=\"" (str_append name "\"")) ∷ []
annotate_option method_volume_snapshot name options = options

unfoldable pub default : PerconaPgBackup → PerconaPgBackup
default b = record b {
  spec = record b.spec {
    method = some (method_of b.spec);
    options = annotate_option (method_of b.spec) b.meta.name b.spec.options;
  };
}

pub record InfoBackup : Type 0 where
  pub annotation : StringMap
  pub label : String
  pub kind : String
  pub delta : ℕ

pub record InfoStanza : Type 0 where
  pub name : String
  pub backup : List InfoBackup
