-- ===== src/Types/Restore.antt =====
-- PerconaPGRestore (pkg/apis/pgv2.percona.com/v2/perconapgrestore_types.go).
use percona_postgresql_opera.Prelude.{ℕ, String, Bool, true, false, List, Option}
use percona_postgresql_opera.Types.Meta.{ObjectMeta, ContainerOptions}

pub data PgRestoreState : Type 0 where
  restore_new restore_starting restore_running restore_failed restore_succeeded : PgRestoreState

pub record PgRestoreSpec : Type 0 where
  pub pg_cluster : String
  pub repo_name : Option String
  pub volume_snapshot_backup_name : String
  pub options : List String
  pub container_options : ContainerOptions

pub record PgRestoreStatus : Type 0 where
  pub job_name : String
  pub state : PgRestoreState
  pub completed_at : Option ℕ

pub record PerconaPgRestore : Type 0 where
  pub meta : ObjectMeta
  pub spec : PgRestoreSpec
  pub status : PgRestoreStatus

-- `(*PerconaPGRestore).IsCompleted`
abbrev pub is_completed : PgRestoreState → Bool
is_completed restore_succeeded = true
is_completed restore_failed = true
is_completed _ = false
