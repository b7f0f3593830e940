-- ===== src/Backup/Reconcile/States.antt =====
-- The cases of the `switch` on the state of a backup by pgBackRest.
use percona_postgresql_opera.Prelude.{
  ℕ, String, Bool, true, false, not, ◌||◌, ◌==◌, if◌then◌else◌, Option, some, deref, value_at,
  insert,
}
use percona_postgresql_opera.Exec.{
  Err, backup_job_not_found, errorf, Result, ok, err, Exec, pure, raise, read, attempt, ◌>>=◌, ◌>>◌,
  case_of, on_option, is_not_found,
}
use percona_postgresql_opera.Types.Meta.{
  Job, label_pgbackrest_backup, annotation_backup_job_type, finalizer_delete_backup,
  finalizer_keep_job, backup_manual, backup_replica_create,
}
use percona_postgresql_opera.Types.Cluster.{PgBackRestRepo, PerconaPgCluster, is_enabled}
use percona_postgresql_opera.Types.Backup.{
  PgBackupState, backup_starting, backup_running, backup_failed, backup_succeeded, PgBackupStatus,
  PerconaPgBackup,
}
use percona_postgresql_opera.Types.Write.{Write, update_backup}
use percona_postgresql_opera.Client.{Client, perform}
use percona_postgresql_opera.Controller.{remove_keep_job_finalizer, run_finalizer}
use percona_postgresql_opera.Backup.Status.{update_status, in_state, fail_backup}
use percona_postgresql_opera.Backup.Repo.{get_repo, get_destination, storage_type_of}
use percona_postgresql_opera.Backup.Jobs.{
  find_backup_job, check_backup_job, start_backup, fail_if_cluster_is_not_ready,
}
use percona_postgresql_opera.Backup.Finalizers.{delete_backup_finalizer, backup_finalizable}
use percona_postgresql_opera.Backup.Latest.{get_latest_backup}

abbrev is_no_backup_job : Err → Bool
is_no_backup_job backup_job_not_found = true
is_no_backup_job _ = false

abbrev started :
    PerconaPgCluster → PerconaPgBackup → PgBackRestRepo → PgBackupStatus → PgBackupStatus
started pg pb repo st = record st {
  destination = get_destination pg pb;
  image = pg.backups.pgbackrest.image;
  repo = some repo;
  cr_version = pg.cr_version;
  storage_type = storage_type_of repo;
  state = backup_starting;
}

abbrev running_as : String → PgBackupStatus → PgBackupStatus
running_as name st = record st { state = backup_running; job_name = name }

abbrev completed_as : PgBackupState → Option ℕ → PgBackupStatus → PgBackupStatus
completed_as x t st = record st { completed_at = t; state = x }

abbrev restorable_until : ℕ → PgBackupStatus → PgBackupStatus
restorable_until t st = record st { latest_restorable_time = some t }

abbrev typed_as : String → PerconaPgBackup → PerconaPgBackup
typed_as kind b = record b {
  meta = record b.meta { annotations = insert b.meta.annotations annotation_backup_job_type kind };
}

-- The result of a job that has ended.
abbrev pub is_over : PgBackupState → Bool
is_over backup_failed = true
is_over backup_succeeded = true
is_over _ = false

abbrev job_kind : Job → String
job_kind job = value_at job.meta.labels label_pgbackrest_backup

module _ {W : Type 0} (c : Client W) where
  -- The backup is started only if its job is not there yet.
  ensure_started : PerconaPgBackup → Exec W Write (Unit {0})
  ensure_started pb = do
    r ← attempt (find_backup_job c pb)
    case_of r (λ job. pure tt) (λ e. if is_no_backup_job e then start_backup c pb else raise e)

  begin : PerconaPgCluster → PerconaPgBackup → Exec W Write ℕ
  unfolding ensure_started
  begin pg pb = do
    ensure_started pb
    on_option (get_repo pg pb) (raise (errorf "repo not defined"))
        λ repo. do update_status c pb (started pg pb repo); pure 0

  new_with : PerconaPgCluster → PerconaPgBackup → Exec W Write ℕ
  unfolding begin
  new_with pg pb =
      if not (is_enabled pg.backups)
      then (do
        fail_backup c pb "Backups are not enabled in the PerconaPGCluster configuration"
        pure 0)
      else if deref pg.pause false
      then pure 5
      else begin pg pb

  unfoldable pub reconcile_new : Option PerconaPgCluster → PerconaPgBackup → Exec W Write ℕ
  unfolding new_with
  reconcile_new pg pb =
      on_option pg (raise (errorf "PostgresCluster is not found")) (λ g. new_with g pb)

  annotate_kind : PerconaPgBackup → Job → Exec W Write (Unit {0})
  annotate_kind pb job = c.retry_on_conflict do
    bcp ← read (c.get_backup pb.meta.name)
    if (job_kind job == backup_replica_create) || (job_kind job == backup_manual)
        then perform c (update_backup bcp (typed_as (job_kind job) bcp))
        else raise (errorf "unknown value for the backup label")

  follow : PerconaPgBackup → Job → Exec W Write ℕ
  unfolding annotate_kind
  follow pb job = do annotate_kind pb job; update_status c pb (running_as job.meta.name); pure 0

  await_job : PerconaPgCluster → PerconaPgBackup → Exec W Write ℕ
  await_job pg pb = do fail_if_cluster_is_not_ready c pg pb; pure 5

  starting_with : PerconaPgCluster → PerconaPgBackup → Exec W Write ℕ
  unfolding follow await_job
  starting_with pg pb = do
    r ← attempt (find_backup_job c pb)
    case_of r (follow pb) (λ e. if is_no_backup_job e then await_job pg pb else raise e)

  unfoldable pub reconcile_starting : Option PerconaPgCluster → PerconaPgBackup → Exec W Write ℕ
  unfolding starting_with
  reconcile_starting pg pb =
      on_option pg (raise (errorf "PostgresCluster is not found")) (λ g. starting_with g pb)

  -- The finalizer's work is done here, so the finalizer is no longer needed.
  complete : Option PerconaPgCluster → PerconaPgBackup → Job → PgBackupState → Exec W Write ℕ
  complete pg pb job status = do
    (done, _) ←
        run_finalizer c (backup_finalizable c) finalizer_delete_backup
          (delete_backup_finalizer c pg) pb
    if not done
        then pure 5
        else do update_status c pb (completed_as status job.completion_time); pure 0

  unfoldable pub observe : Option PerconaPgCluster → PerconaPgBackup → Job → Exec W Write ℕ
  unfolding complete
  observe pg pb job =
      if is_over (check_backup_job job) then complete pg pb job (check_backup_job job) else pure 5

  lose_job : PerconaPgBackup → Exec W Write ℕ
  lose_job pb = do update_status c pb (in_state backup_failed); pure 0

  unfoldable pub reconcile_running : Option PerconaPgCluster → PerconaPgBackup → Exec W Write ℕ
  unfolding observe lose_job
  reconcile_running pg pb = do
    r ← attempt (read (c.get_job pb.status.job_name))
    case_of r (observe pg pb) (λ e. if is_not_found e then lose_job pb else raise e)

  unfoldable pub free_job : Result Job → Exec W Write (Unit {0})
  free_job (err e) = pure tt
  free_job (ok job) =
      if c.contains_finalizer job.meta.finalizers finalizer_keep_job
      then remove_keep_job_finalizer c job
      else pure tt

  note_restorable : PerconaPgCluster → PerconaPgBackup → Exec W Write ℕ
  note_restorable pg pb = do
    r ← attempt (read (c.latest_commit pg pb))
    case_of r (λ t. do update_status c pb (restorable_until t); pure 0) (λ _. pure 0)

  refresh : PerconaPgCluster → PerconaPgBackup → Exec W Write ℕ
  unfolding note_restorable
  refresh pg pb = do
    latest ← get_latest_backup c pg
    if not (latest.meta.name == pb.meta.name) then pure 0 else note_restorable pg pb

  unfoldable pub reconcile_succeeded : Option PerconaPgCluster → PerconaPgBackup → Exec W Write ℕ
  unfolding refresh
  reconcile_succeeded pg pb = do
    r ← attempt (find_backup_job c pb)
    free_job r
    on_option pg (pure 0) (λ g. refresh g pb)
