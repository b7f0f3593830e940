-- ===== src/Backup/Finalizers.antt =====
-- `deleteBackupFinalizer`, `snapshotInProgressFinalizer` and `runFinalizers`.
use percona_postgresql_opera.Prelude.{
  ℕ, String, Bool, true, false, not, ◌&&◌, ◌==◌, nat_eq, if◌then◌else◌, Option, none, some,
}
use percona_postgresql_opera.Exec.{
  Err, backup_job_not_found, finalizer_pending, Exec, pure, raise, read, ask, attempt, ◌>>=◌, ◌>>◌,
  case_of, on_option, is_not_found,
}
use percona_postgresql_opera.Types.Meta.{
  Job, finalizer_delete_backup, finalizer_snapshot_in_progress,
}
use percona_postgresql_opera.Types.Cluster.{PerconaPgCluster}
use percona_postgresql_opera.Types.Backup.{PgBackupStatus, PerconaPgBackup}
use percona_postgresql_opera.Types.Write.{Write, delete_job}
use percona_postgresql_opera.Client.{Client, perform, patch}
use percona_postgresql_opera.Controller.{
  ignore_not_found, remove_keep_job_finalizer, Finalizable, run_finalizer,
}
use percona_postgresql_opera.Backup.Status.{update_status}
use percona_postgresql_opera.Backup.Jobs.{find_backup_job}
use percona_postgresql_opera.Backup.Finish.{finish_backup}

abbrev is_no_job : Err → Bool
is_no_job backup_job_not_found = true
is_no_job e = is_not_found e

abbrev requeues : Option ℕ → Bool
requeues none = false
requeues (some n) = not (nat_eq n 0)

abbrev with_job_name : String → PgBackupStatus → PgBackupStatus
with_job_name name st = record st { job_name = name }

module _ {W : Type 0} (c : Client W) where
  delete_backup_job : Job → Exec W Write (Unit {0})
  delete_backup_job job = do
    r ← attempt (perform c (delete_job job))
    case_of r (λ _. pure tt) (ignore_not_found c)

  -- The cluster is gone: its annotations cannot be removed, so only the job is.
  abandon_job : Job → Exec W Write (Unit {0})
  abandon_job job = do
    if job.meta.is_deleting then pure tt else delete_backup_job job
    remove_keep_job_finalizer c job
    raise finalizer_pending

  delete_without_cluster : PerconaPgBackup → Exec W Write (Unit {0})
  unfolding abandon_job delete_backup_job
  delete_without_cluster pb = do
    r ← attempt (find_backup_job c pb)
    case_of r abandon_job (λ e. if is_no_job e then pure tt else raise e)

  -- Deleted too early, the backup does not own the job, which must be deleted by hand.
  delete_orphan : PerconaPgBackup → Option Job → Exec W Write (Unit {0})
  delete_orphan pb none = pure tt
  delete_orphan pb (some job) =
      if pb.meta.is_deleting
      then (do delete_backup_job job; remove_keep_job_finalizer c job)
      else pure tt

  finish_and_delete : PerconaPgBackup → Option Job → Exec W Write (Unit {0})
  finish_and_delete pb job = do
    rr ← finish_backup c pb job
    if requeues rr then raise finalizer_pending else delete_orphan pb job

  record_job_name : PerconaPgBackup → Job → Exec W Write (Unit {0})
  record_job_name pb job = do
    update_status c pb (with_job_name job.meta.name)
    raise finalizer_pending

  delete_with_job : PerconaPgBackup → Job → Exec W Write (Unit {0})
  delete_with_job pb job =
      if pb.status.job_name == "" then record_job_name pb job else finish_and_delete pb (some job)

  delete_with_cluster : PerconaPgBackup → Exec W Write (Unit {0})
  unfolding delete_with_job record_job_name finish_and_delete delete_orphan delete_backup_job
  delete_with_cluster pb = do
    r ← attempt (find_backup_job c pb)
    case_of r (delete_with_job pb) (λ e. if is_no_job e then finish_and_delete pb none else raise e)

  unfoldable pub delete_backup_finalizer :
      Option PerconaPgCluster → PerconaPgBackup → Exec W Write (Unit {0})
  unfolding delete_without_cluster delete_with_cluster
  delete_backup_finalizer pg pb =
      on_option pg (delete_without_cluster pb) (λ _. delete_with_cluster pb)

  unfoldable pub snapshot_in_progress_finalizer :
      Option PerconaPgCluster → PerconaPgBackup → Exec W Write (Unit {0})
  snapshot_in_progress_finalizer pg pb = on_option pg (pure tt) (λ _. raise finalizer_pending)

  abbrev pub backup_finalizable : Finalizable W PerconaPgBackup
  backup_finalizable = record {
    finalizers_of = λ b. b.meta.finalizers;
    with_finalizers = λ b fs. record b { meta = record b.meta { finalizers = fs } };
    patched = patch c;
  }

  run_delete_backup :
      Option PerconaPgCluster → PerconaPgBackup → Exec W Write (Bool × PerconaPgBackup)
  run_delete_backup pg =
      run_finalizer c backup_finalizable finalizer_delete_backup (delete_backup_finalizer pg)

  run_snapshot_in_progress :
      Option PerconaPgCluster → PerconaPgBackup → Exec W Write (Bool × PerconaPgBackup)
  run_snapshot_in_progress pg =
      run_finalizer c backup_finalizable finalizer_snapshot_in_progress
        (snapshot_in_progress_finalizer pg)

  unfoldable pub in_order : Bool → Option PerconaPgCluster → PerconaPgBackup → Exec W Write Bool
  unfolding run_delete_backup run_snapshot_in_progress
  in_order true pg pb = do
    (d, pb') ← run_delete_backup pg pb
    (e, _) ← run_snapshot_in_progress pg pb'
    pure (d && e)
  in_order false pg pb = do
    (e, pb') ← run_snapshot_in_progress pg pb
    (d, _) ← run_delete_backup pg pb'
    pure (e && d)

  abbrev alive : PerconaPgCluster → Option PerconaPgCluster
  alive pg = if pg.meta.is_deleting then none else some pg

  find_alive : String → Exec W Write (Option PerconaPgCluster)
  find_alive name = do
    r ← attempt (read (c.get_cluster name))
    case_of r (λ pg. pure (alive pg)) (λ e. if is_not_found e then pure none else raise e)

  -- The map of finalizers is walked in an order that Go does not fix.
  unfoldable pub run_finalizers : PerconaPgBackup → Exec W Write Bool
  unfolding find_alive
  run_finalizers pb = do
    pg ← find_alive pb.spec.pg_cluster
    first ← ask c.map_order
    in_order first pg pb
