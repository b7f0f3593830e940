-- ===== src/Backup/Transitions/States.antt =====
-- Each case of the `switch` follows the diagram from the state that it is for.
use percona_postgresql_opera.Prelude.{
  ℕ, ◌≡◌, inl, inr, String, Bool, true, Option, none, some, List, [], ◌∷◌,
}
use percona_postgresql_opera.Exec.{Result, ok, err}
use percona_postgresql_opera.Exec.Writes.{Sends, sends_rules}
use percona_postgresql_opera.Types.Meta.{Job}
use percona_postgresql_opera.Types.Cluster.{PerconaPgCluster}
use percona_postgresql_opera.Types.Backup.{
  PgBackupState, backup_new, backup_starting, backup_running, backup_failed, backup_succeeded,
  PerconaPgBackup,
}
use percona_postgresql_opera.Types.Write.{Write}
use percona_postgresql_opera.Client.{Client}
use percona_postgresql_opera.Client.Laws.{RetryLaw, Sends-perform, Sends-retry}
use percona_postgresql_opera.Backup.Status.{fail_backup}
use percona_postgresql_opera.Backup.Jobs.{fail_if_cluster_is_not_ready}
use percona_postgresql_opera.Backup.Latest.{get_latest_backup, latest_of, chosen}
use percona_postgresql_opera.Backup.Reconcile.States.{
  reconcile_new, reconcile_starting, free_job, reconcile_running, reconcile_succeeded, is_over,
}
use percona_postgresql_opera.Backup.Transitions.Graph.{
  Step, begin, disable, run, abort, succeed, fail, Follows, KeepsState, Sends-Follows,
}
use percona_postgresql_opera.Backup.Transitions.Updates.{update_status-Sends}
use percona_postgresql_opera.Backup.Transitions.Kept.{
  start_backup-Kept, find_backup_job-Kept, run_delete_backup-Kept, remove_keep_job_finalizer-Kept,
}

module _ {W : Type 0} (c : Client W) (law : RetryLaw c) where
  pub fail_backup-Follows :
      (s : PgBackupState) (pb : PerconaPgBackup) (reason : String)
      → Step s backup_failed
      → Sends (Follows s) (fail_backup c pb reason)
  unfolding fail_backup
  fail_backup-Follows s pb reason h = update_status-Sends c law pb _ (λ old. inr h)

  pub reconcile_new-Follows :
      (pg : Option PerconaPgCluster) (pb : PerconaPgBackup)
      → Sends (Follows backup_new) (reconcile_new c pg pb)
  unfolding reconcile_new
  reconcile_new-Follows pg pb =
      search
        (
          sends_rules,
          fail_backup-Follows,
          disable,
          begin,
          inr,
          update_status-Sends c law,
          Sends-Follows,
          start_backup-Kept c law,
          find_backup_job-Kept c law,
        )
        depth 16

  fail_if_cluster_is_not_ready-Follows :
      (pg : PerconaPgCluster) (pb : PerconaPgBackup)
      → Sends (Follows backup_starting) (fail_if_cluster_is_not_ready c pg pb)
  unfolding fail_if_cluster_is_not_ready
  fail_if_cluster_is_not_ready-Follows pg pb =
      search (sends_rules, abort, inr, update_status-Sends c law) depth 12

  pub reconcile_starting-Follows :
      (pg : Option PerconaPgCluster) (pb : PerconaPgBackup)
      → Sends (Follows backup_starting) (reconcile_starting c pg pb)
  unfolding reconcile_starting
  reconcile_starting-Follows pg pb =
      search
        (
          sends_rules,
          run,
          inr,
          update_status-Sends c law,
          Sends-perform c,
          Sends-retry c _ law,
          Sends-Follows,
          find_backup_job-Kept c law,
          fail_if_cluster_is_not_ready-Follows,
        )
        depth 16

  over-Step : (x : PgBackupState) → is_over x ≡ true → Step backup_running x
  over-Step backup_failed h = fail
  over-Step backup_succeeded h = succeed
  over-Step backup_new h = cc
  over-Step backup_starting h = cc
  over-Step backup_running h = cc

  pub reconcile_running-Follows :
      (pg : Option PerconaPgCluster) (pb : PerconaPgBackup)
      → Sends (Follows backup_running) (reconcile_running c pg pb)
  unfolding reconcile_running
  reconcile_running-Follows pg pb =
      search
        (
          sends_rules,
          fail,
          over-Step,
          inr,
          update_status-Sends c law,
          Sends-Follows,
          run_delete_backup-Kept c law,
        )
        depth 16

  chosen-Sends :
      {P : Write → Type 0} (o : Option PerconaPgBackup) (t : Option ℕ) (running : Bool)
      → Sends P (chosen {W = W} o t running)
  unfolding chosen
  chosen-Sends (some b) (some t) running = search sends_rules
  chosen-Sends (some b) none running = search sends_rules
  chosen-Sends none t running = search sends_rules

  latest_of-Sends :
      {P : Write → Type 0} (bs : List PerconaPgBackup) → Sends P (latest_of {W = W} bs)
  unfolding latest_of
  latest_of-Sends [] = search sends_rules
  latest_of-Sends (b ∷ bs) = chosen-Sends _ _ _

  free_job-Kept : (r : Result Job) → Sends KeepsState (free_job c r)
  unfolding free_job
  free_job-Kept (ok job) = search (sends_rules, remove_keep_job_finalizer-Kept c law)
  free_job-Kept (err e) = search sends_rules

  pub reconcile_succeeded-Follows :
      (pg : Option PerconaPgCluster) (pb : PerconaPgBackup)
      → Sends (Follows backup_succeeded) (reconcile_succeeded c pg pb)
  unfolding reconcile_succeeded get_latest_backup
  reconcile_succeeded-Follows pg pb =
      search
        (
          sends_rules,
          inl,
          update_status-Sends c law,
          Sends-Follows,
          find_backup_job-Kept c law,
          free_job-Kept,
          latest_of-Sends,
        )
        depth 16
