-- ===== src/Backup/Finish.antt =====
-- `getBackupInProgress` and `finishBackup`.
pub mod Clearing
pub mod Sent
pub mod Completed
use percona_postgresql_opera.Prelude.{
  ℕ, String, Bool, true, false, not, ◌==◌, if◌then◌else◌, Option, none, some, is_some, lookup,
  value_at, delete,
}
use percona_postgresql_opera.Exec.{nil_dereference, Exec, pure, raise, read, ◌>>=◌, ◌>>◌, on_option}
use percona_postgresql_opera.Types.Meta.{
  Job, pgbackrest_backup, label_cluster, label_pgbackrest, label_pgbackrest_backup,
  annotation_backup_in_progress, backup_manual,
}
use percona_postgresql_opera.Types.Cluster.{PgBackRestStatus, PerconaPgCluster, PostgresCluster}
use percona_postgresql_opera.Types.Backup.{PgBackupState, backup_succeeded, PerconaPgBackup}
use percona_postgresql_opera.Types.Write.{Write, update_cluster, update_crunchy_status, update_job}
use percona_postgresql_opera.Client.{Client, perform}
use percona_postgresql_opera.Controller.{get_ready_instance_pod}
use percona_postgresql_opera.Backup.Annotation.{to_crunchy_annotation}
use percona_postgresql_opera.Backup.Jobs.{check_backup_job}
use percona_postgresql_opera.Backup.Info.{update_pgbackrest_info}

abbrev is_succeeded : PgBackupState → Bool
is_succeeded backup_succeeded = true
is_succeeded _ = false

abbrev pub without_annotation : String → PerconaPgCluster → PerconaPgCluster
without_annotation annotation pg = record pg {
  meta = record pg.meta { annotations = delete pg.meta.annotations annotation };
}

abbrev pub without_labels : Job → Job
without_labels j = record j {
  meta = record j.meta { labels = delete (delete j.meta.labels label_cluster) label_pgbackrest };
}

abbrev pub without_manual_backup : PostgresCluster → PgBackRestStatus → PostgresCluster
without_manual_backup pg st = record pg {
  status = record pg.status { pgbackrest = some (record st { manual_backup = none }) };
}

-- The job is a success: pgBackRest's list is to be updated.
abbrev pub succeeded_job : Option Job → Bool
succeeded_job none = false
succeeded_job (some job) = is_succeeded (check_backup_job job)

-- `job != nil && job.Labels[…] != "manual"`
abbrev pub is_not_manual : Option Job → Bool
is_not_manual none = false
is_not_manual (some job) = not (value_at job.meta.labels label_pgbackrest_backup == backup_manual)

module _ {W : Type 0} (c : Client W) where
  unfoldable pub get_backup_in_progress : String → Exec W Write String
  get_backup_in_progress cluster_name = do
    pg_cluster ← read (c.get_cluster cluster_name)
    crunchy ← read (c.get_crunchy cluster_name)
    let running =
        value_at crunchy.meta.annotations (to_crunchy_annotation annotation_backup_in_progress)
    if not (running == "")
        then pure running
        else pure (value_at pg_cluster.meta.annotations annotation_backup_in_progress)

  pub drop_annotation : String → String → Exec W Write (Unit {0})
  drop_annotation annotation cluster_name = c.retry_on_conflict do
    pg ← read (c.get_cluster cluster_name)
    if is_some (lookup pg.meta.annotations annotation)
        then perform c (update_cluster pg (without_annotation annotation pg))
        else pure tt

  -- `deleteAnnotation`: whether the annotation is gone from the crunchy cluster
  unfoldable pub delete_annotation : String → String → Exec W Write Bool
  unfolding drop_annotation
  delete_annotation annotation cluster_name = do
    crunchy ← read (c.get_crunchy cluster_name)
    if is_some (lookup crunchy.meta.annotations (to_crunchy_annotation annotation))
        then (do drop_annotation annotation cluster_name; pure false)
        else pure true

  -- The cluster's controller no longer takes the job for one of its own.
  pub unlabel_job : Job → Exec W Write (Unit {0})
  unlabel_job job =
      c.retry_on_conflict
        do j ← read (c.get_job job.meta.name); perform c (update_job j (without_labels j))

  -- A crunchy cluster with no pgBackRest status makes the assignment panic.
  pub clear_manual_backup : String → Exec W Write (Unit {0})
  clear_manual_backup cluster_name = c.retry_on_conflict do
    pg ← read (c.get_crunchy cluster_name)
    on_option pg.status.pgbackrest (raise nil_dereference)
        λ st. perform c (update_crunchy_status pg (without_manual_backup pg st))

  pub release_cluster : PerconaPgBackup → Option Job → Exec W Write (Option ℕ)
  unfolding unlabel_job clear_manual_backup
  release_cluster pb job = do
    deleted ← delete_annotation pgbackrest_backup pb.spec.pg_cluster
    if not deleted then pure (some 5) else do
      on_option job (pure tt) unlabel_job
      clear_manual_backup pb.spec.pg_cluster
      delete_annotation annotation_backup_in_progress pb.spec.pg_cluster
      pure (some 5)

  update_info : PerconaPgBackup → Exec W Write (Unit {0})
  update_info pb = do
    ready_pod ← get_ready_instance_pod c pb.spec.pg_cluster
    update_pgbackrest_info c ready_pod pb

  -- `none` is the return of a nil result, `some n` a request to come back in n seconds.
  unfoldable pub finish_backup : PerconaPgBackup → Option Job → Exec W Write (Option ℕ)
  unfolding release_cluster update_info
  finish_backup pb job = do
    if succeeded_job job then update_info pb else pure tt
    if is_not_manual job then pure none else do
      running ← get_backup_in_progress pb.spec.pg_cluster
      if not (running == pb.meta.name) then pure none else release_cluster pb job
