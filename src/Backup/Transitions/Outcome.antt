-- ===== src/Backup/Transitions/Outcome.antt =====
-- The final state of a backup is that of its job.
use percona_postgresql_opera.Prelude.{
  ◌≡◌, refl, ◌⊎◌, inl, inr, Bool, true, false, if◌then◌else◌, Option,
}
use percona_postgresql_opera.Exec.{Exec}
use percona_postgresql_opera.Exec.Writes.{Sends, Sends-weaken, sends_rules}
use percona_postgresql_opera.Types.Meta.{Job}
use percona_postgresql_opera.Types.Cluster.{PerconaPgCluster}
use percona_postgresql_opera.Types.Backup.{
  PgBackupState, backup_failed, backup_running, backup_succeeded, PerconaPgBackup,
}
use percona_postgresql_opera.Types.Write.{Write}
use percona_postgresql_opera.Client.{Client}
use percona_postgresql_opera.Client.Laws.{RetryLaw}
use percona_postgresql_opera.Controller.{job_completed, job_failed}
use percona_postgresql_opera.Backup.Jobs.{check_backup_job}
use percona_postgresql_opera.Backup.Reconcile.States.{is_over, observe}
use percona_postgresql_opera.Backup.Transitions.Graph.{OnStatus, OnStatus-weaken, KeepsState}
use percona_postgresql_opera.Backup.Transitions.Updates.{update_status-Sends}
use percona_postgresql_opera.Backup.Transitions.Kept.{run_delete_backup-Kept}

-- The state that a job's conditions give to its backup.
pub data Ended (job : Job) : PgBackupState → Type 0 where
  completed : job_completed job ≡ true → Ended job backup_succeeded
  failed : job_completed job ≡ false → job_failed job ≡ true → Ended job backup_failed

-- The state is kept, or it is the job's, with the job's time of completion.
abbrev pub HasOutcome : Job → Write → Type 0
HasOutcome job = OnStatus λ old new.
    (new.status.state ≡ old.status.state)
    ⊎ (Ended job new.status.state × (new.status.completed_at ≡ job.completion_time))

by_conditions :
    (job : Job) (c f : Bool)
    → job_completed job ≡ c
    → job_failed job ≡ f
    → is_over (if c then backup_succeeded else if f then backup_failed else backup_running) ≡ true
    → Ended job (if c then backup_succeeded else if f then backup_failed else backup_running)
by_conditions job true f ec ef h = completed ec
by_conditions job false true ec ef h = failed ec ef
by_conditions job false false ec ef h = absurd (cc h)

check_backup_job-Ended :
    (job : Job) → is_over (check_backup_job job) ≡ true → Ended job (check_backup_job job)
unfolding check_backup_job
check_backup_job-Ended job h = by_conditions job _ _ refl refl h

module _ {W : Type 0} (c : Client W) (law : RetryLaw c) where
  kept_outcome :
      {A : Type 0} (job : Job) (m : Exec W Write A) → Sends KeepsState m → Sends (HasOutcome job) m
  kept_outcome job m k = Sends-weaken m (OnStatus-weaken (λ old new h. inl h)) k

  -- Each status of a backup that following its job writes keeps the state that the write read, or is
  -- Succeeded and the job has the condition Complete, or is Failed and the job has the condition
  -- Failed and not Complete; the backup's time of completion is the job's then. The retry of the
  -- client library behaves as documented.
  pub observe-HasOutcome :
      (pg : Option PerconaPgCluster) (pb : PerconaPgBackup) (job : Job)
      → Sends (HasOutcome job) (observe c pg pb job)
  unfolding observe
  observe-HasOutcome pg pb job =
      search
        (
          sends_rules,
          check_backup_job-Ended,
          inr,
          update_status-Sends c law,
          kept_outcome job,
          run_delete_backup-Kept c law,
        )
        depth 16
