-- ===== src/Backup/Jobs.antt =====
-- `findBackupJob`, `checkBackupJob`, `startBackup` and `failIfClusterIsNotReady`.
pub mod Claim
use percona_postgresql_opera.Prelude.{
  ℕ, ◌+◌, String, Bool, true, false, not, ◌&&◌, ◌||◌, ◌==◌, ltb, if◌then◌else◌, List, [], ◌∷◌,
  Option, none, some, is_some, deref, StringMap, lookup, value_at, insert,
}
use percona_postgresql_opera.Exec.{
  backup_job_not_found, errorf, Exec, pure, raise, read, ask, ◌>>=◌, ◌>>◌, on_option,
}
use percona_postgresql_opera.Types.Meta.{
  ObjectMeta, Condition, ConditionStatus, Job, pgbackrest_backup, label_cluster, label_pgbackrest,
  label_pgbackrest_backup, label_pgbackrest_repo, annotation_backup_in_progress,
  annotation_backup_job_name, backup_manual, condition_cluster_is_ready_for_backup,
}
use percona_postgresql_opera.Types.Cluster.{
  PgBackRestArchive, PgBackRestManualBackup, PerconaPgCluster,
}
use percona_postgresql_opera.Types.Backup.{
  PgBackupState, backup_succeeded, backup_failed, backup_running, PerconaPgBackup,
}
use percona_postgresql_opera.Types.Write.{Write, update_cluster}
use percona_postgresql_opera.Client.{Client, perform}
use percona_postgresql_opera.Controller.{is_true, job_completed, job_failed}
use percona_postgresql_opera.Backup.Status.{update_status, in_state}
use percona_postgresql_opera.Backup.Repo.{repo_name_of}
use percona_postgresql_opera.Backup.Annotation.{to_crunchy_annotation}

unfoldable pub check_backup_job : Job → PgBackupState
check_backup_job job =
    if job_completed job
    then backup_succeeded
    else if job_failed job
    then backup_failed
    else backup_running

-- `naming.PGBackRestBackupJobSelector` at the type "manual"
abbrev pub backup_job_labels : String → String → StringMap
backup_job_labels cluster_name repo_name =
    (label_cluster, cluster_name)
    ∷ (label_pgbackrest, "")
    ∷ (label_pgbackrest_repo, repo_name)
    ∷ (label_pgbackrest_backup, backup_manual)
    ∷ []

-- The first job that is annotated with the backup's name.
unfoldable pub annotated_job : List Job → String → Option Job
annotated_job [] name = none
annotated_job (job ∷ jobs) name =
    let rest = annotated_job jobs name in
    elim (lookup job.meta.annotations pgbackrest_backup) [
      | none ↦ rest
      | some val ↦ if val == name then some job else rest
    ]

-- The name of the job, if the backup knows it already: its annotation comes first.
abbrev pub known_job_name : PerconaPgBackup → String
known_job_name pb =
    let job_name = value_at pb.meta.annotations annotation_backup_job_name in
    if job_name == "" then pb.status.job_name else job_name

-- `pg.Spec.Backups.PGBackRest.Manual` as `startBackup` fills it in
abbrev pub manual_of : PerconaPgBackup → PgBackRestManualBackup
manual_of pb = record {
  repo_name = repo_name_of pb;
  options = pb.spec.options;
  env = pb.spec.container_options.env;
  env_from = pb.spec.container_options.env_from;
}

abbrev pub marked_for : PerconaPgBackup → PerconaPgCluster → PerconaPgCluster
marked_for pb pg = record pg {
  meta = record pg.meta {
    annotations =
        insert (insert pg.meta.annotations pgbackrest_backup pb.meta.name)
          annotation_backup_in_progress pb.meta.name;
  };
  backups = record pg.backups {
    pgbackrest = record pg.backups.pgbackrest { manual = some (manual_of pb) };
  };
}

module _ {W : Type 0} (c : Client W) where
  unfoldable pub find_backup_job : PerconaPgBackup → Exec W Write Job
  find_backup_job pb =
      if not (known_job_name pb == "") then read (c.get_job (known_job_name pb)) else (do
        jobs ← read (c.list_jobs (backup_job_labels pb.spec.pg_cluster (repo_name_of pb)))
        on_option (annotated_job jobs pb.meta.name) (raise backup_job_not_found) pure)

  unfoldable pub claim_cluster : PerconaPgBackup → PerconaPgCluster → Exec W Write (Unit {0})
  claim_cluster pb pg =
      let a = value_at pg.meta.annotations annotation_backup_in_progress in
      if not (a == "") && not (a == pb.meta.name)
      then raise (errorf "another backup is already in progress")
      else perform c (update_cluster pg (marked_for pb pg))

  unfoldable pub start_backup : PerconaPgBackup → Exec W Write (Unit {0})
  unfolding claim_cluster
  start_backup pb =
      c.retry_on_conflict do pg ← read (c.get_cluster pb.spec.pg_cluster); claim_cluster pb pg

  -- For two minutes, in seconds, a condition that is not true is not held against the cluster.
  unfoldable pub is_not_ready : Option Condition → ℕ → Bool
  is_not_ready none now = false
  is_not_ready (some condition) now =
      not (is_true condition.status) && not (ltb now (condition.last_transition_time + 120))

  -- The crunchy cluster has received both annotations that `startBackup` adds.
  unfoldable pub has_received : StringMap → Bool
  has_received a =
      is_some (lookup a (to_crunchy_annotation pgbackrest_backup))
      && is_some (lookup a (to_crunchy_annotation annotation_backup_in_progress))

  unfoldable pub fail_if_cluster_is_not_ready :
      PerconaPgCluster → PerconaPgBackup → Exec W Write (Unit {0})
  unfolding is_not_ready has_received
  fail_if_cluster_is_not_ready pg_cluster pg_backup = do
    now ← ask c.now
    let condition =
        c.find_status_condition pg_cluster.status.conditions condition_cluster_is_ready_for_backup
    if not (is_not_ready condition now) then pure tt else do
      crunchy ← read (c.get_crunchy pg_cluster.meta.name)
      if has_received crunchy.meta.annotations
          then update_status c pg_backup (in_state backup_failed)
          else pure tt
