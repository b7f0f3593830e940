-- ===== src/Backup/Reconcile.antt =====
-- `(*PGBackupReconciler).Reconcile`. The result is `RequeueAfter` in seconds, 0 for none.
pub mod States
use Prim.Native.String.{◌++◌}
use percona_postgresql_opera.Prelude.{
  ℕ, String, Bool, true, false, not, ◌&&◌, ◌||◌, ◌==◌, if◌then◌else◌, Option, none, some, is_some,
  deref,
}
use percona_postgresql_opera.Exec.{
  Err, errorf, Exec, pure, raise, read, attempt, ◌>>=◌, ◌>>◌, case_of, is_not_found,
}
use percona_postgresql_opera.Types.Cluster.{PerconaPgCluster}
use percona_postgresql_opera.Types.Backup.{
  BackupMethod, method_pgbackrest, method_volume_snapshot, PgBackupState, backup_new,
  backup_starting, backup_running, backup_failed, backup_succeeded, PerconaPgBackup, method_of,
  is_terminal, default,
}
use percona_postgresql_opera.Types.Write.{Write}
use percona_postgresql_opera.Client.{Client}
use percona_postgresql_opera.Backup.Status.{
  with_status, failed_with, fail_backup, finalized, ensure_finalizers,
}
use percona_postgresql_opera.Backup.Locking.{handle_lease}
use percona_postgresql_opera.Backup.Finalizers.{run_finalizers}
use percona_postgresql_opera.Backup.Repo.{repo_name_of}
use States.{reconcile_new, reconcile_starting, reconcile_running, reconcile_succeeded}

abbrev pub is_unmanaged : Option PerconaPgCluster → Bool
is_unmanaged none = false
is_unmanaged (some pg) = deref pg.unmanaged false

abbrev pub is_in_progress : PgBackupState → Bool
is_in_progress backup_starting = true
is_in_progress backup_running = true
is_in_progress _ = false

abbrev pub is_failed : PgBackupState → Bool
is_failed backup_failed = true
is_failed _ = false

-- The cluster that the rest of the reconciliation sees: none if it is being deleted.
abbrev pub usable : Option PerconaPgCluster → Option PerconaPgCluster
usable none = none
usable (some pg) = if pg.meta.is_deleting then none else some pg

abbrev pub missing_error : Option PerconaPgCluster → String → String
missing_error none name = "PerconaPGCluster " ++ (name ++ " is not found")
missing_error (some pg) name = "PerconaPGCluster " ++ (name ++ " is being deleted")

abbrev is_snapshot : BackupMethod → Bool
is_snapshot method_volume_snapshot = true
is_snapshot method_pgbackrest = false

-- The cluster is missing or being deleted, and the backup has started.
abbrev pub is_orphaned : Option PerconaPgCluster → PerconaPgBackup → Bool
is_orphaned pg pb = not (is_some (usable pg)) && is_in_progress pb.status.state

-- The backup in memory once an orphan has failed.
abbrev pub settled : Option PerconaPgCluster → PerconaPgBackup → PerconaPgBackup
settled pg pb =
    if is_orphaned pg pb
    then with_status (failed_with (missing_error pg pb.spec.pg_cluster)) pb
    else pb

module _ {W : Type 0} (c : Client W)
    (snapshots : PerconaPgBackup → PerconaPgCluster → Exec W Write ℕ) where
  -- The `switch` on the state.
  unfoldable pub dispatch :
      PgBackupState → Option PerconaPgCluster → PerconaPgBackup → Exec W Write ℕ
  dispatch backup_new pg pb = reconcile_new c pg pb
  dispatch backup_starting pg pb = reconcile_starting c pg pb
  dispatch backup_running pg pb = reconcile_running c pg pb
  dispatch backup_succeeded pg pb = reconcile_succeeded c pg pb
  dispatch backup_failed pg pb = pure 0

  unfoldable pub reject_no_repo : PerconaPgBackup → Exec W Write ℕ
  reject_no_repo pb = do
    fail_backup c pb "repoName is required when method is 'pgbackrest'"
    raise (errorf "'repoName' is required when method is 'pgbackrest'")

  unfoldable pub finalize : PerconaPgBackup → Exec W Write ℕ
  finalize pb = do run_finalizers c pb; pure 5

  -- The backup in memory once its finalizer is ensured.
  unfoldable pub ensured : PerconaPgBackup → PerconaPgBackup
  ensured pb = if is_terminal pb.status.state then pb else finalized c pb

  unfoldable pub continue_with : Option PerconaPgCluster → PerconaPgBackup → Exec W Write ℕ
  unfolding reject_no_repo
  continue_with pg pb =
      if repo_name_of pb == "" then reject_no_repo pb else dispatch pb.status.state pg pb

  -- What follows the lease, for a backup by pgBackRest.
  unfoldable pub reconcile_pgbackrest : Option PerconaPgCluster → PerconaPgBackup → Exec W Write ℕ
  unfolding finalize continue_with ensured
  reconcile_pgbackrest pg pb =
      if pb.meta.is_deleting || is_failed pb.status.state then finalize pb else (do
        if is_terminal pb.status.state then pure tt else ensure_finalizers c pb
        continue_with pg (ensured pb))

  unfoldable pub proceed : BackupMethod → Option PerconaPgCluster → PerconaPgBackup → Exec W Write ℕ
  proceed method_volume_snapshot (some pg) pb = snapshots pb pg
  proceed _ pg pb = reconcile_pgbackrest pg pb

  -- A backup in progress fails with its cluster.
  unfoldable pub fail_orphaned : Option PerconaPgCluster → PerconaPgBackup → Exec W Write (Unit {0})
  fail_orphaned pg pb =
      if is_orphaned pg pb then fail_backup c pb (missing_error pg pb.spec.pg_cluster) else pure tt

  unfoldable pub find_cluster : String → Exec W Write (Option PerconaPgCluster)
  find_cluster name = do
    r ← attempt (read (c.get_cluster name))
    case_of r (λ pg. pure (some pg)) (λ e. if is_not_found e then pure none else raise e)

  unfoldable pub with_lease : Option PerconaPgCluster → PerconaPgBackup → Exec W Write ℕ
  unfolding proceed
  with_lease pg pb = do
    ready ← handle_lease c pg pb
    if not ready then pure 10 else proceed (method_of pb.spec) pg pb

  unfoldable pub reconcile_backup : PerconaPgBackup → Exec W Write ℕ
  unfolding find_cluster fail_orphaned with_lease
  reconcile_backup pb = do
    pg ← find_cluster pb.spec.pg_cluster
    if is_unmanaged pg && not pb.meta.is_deleting
        then pure 0
        else do fail_orphaned pg pb; with_lease (usable pg) (settled pg pb)

  unfoldable pub reconcile : String → Exec W Write ℕ
  unfolding reconcile_backup
  reconcile name = do
    r ← attempt (read (c.get_backup name))
    case_of r (λ pb. reconcile_backup (default pb))
        (λ e. if is_not_found e then pure 0 else raise e)
