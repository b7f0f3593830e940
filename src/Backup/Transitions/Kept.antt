-- ===== src/Backup/Transitions/Kept.antt =====
-- The methods that never write another state into a backup: locking, finalizers, finishing.
use percona_postgresql_opera.Prelude.{String, Bool, true, false, Option, List, [], ◌∷◌}
use percona_postgresql_opera.Exec.{Exec}
use percona_postgresql_opera.Exec.Writes.{Sends, sends_rules}
use percona_postgresql_opera.Types.Meta.{
  Job, Pod, finalizer_delete_backup, finalizer_snapshot_in_progress,
}
use percona_postgresql_opera.Types.Cluster.{PerconaPgCluster}
use percona_postgresql_opera.Types.Backup.{PerconaPgBackup}
use percona_postgresql_opera.Types.Write.{Write}
use percona_postgresql_opera.Client.{Client}
use percona_postgresql_opera.Client.Laws.{RetryLaw, Sends-perform, Sends-patch, Sends-retry}
use percona_postgresql_opera.Controller.{
  ignore_not_found, remove_keep_job_finalizer, ready_pod, get_ready_instance_pod, Finalizable,
  run_finalizer,
}
use percona_postgresql_opera.Backup.Jobs.{find_backup_job, start_backup}
use percona_postgresql_opera.Backup.Info.{update_pgbackrest_info}
use percona_postgresql_opera.Backup.Finish.{
  get_backup_in_progress, delete_annotation, finish_backup,
}
use percona_postgresql_opera.Backup.Finalizers.{
  delete_backup_finalizer, snapshot_in_progress_finalizer, in_order, run_finalizers,
  backup_finalizable,
}
use percona_postgresql_opera.Backup.Transitions.Graph.{KeepsState}
use percona_postgresql_opera.Backup.Transitions.Updates.{update_status-Sends}

abbrev K : Write → Type 0
K = KeepsState

module _ {W : Type 0} (c : Client W) (law : RetryLaw c) where
  pub remove_keep_job_finalizer-Kept : (job : Job) → Sends K (remove_keep_job_finalizer c job)
  unfolding remove_keep_job_finalizer
  remove_keep_job_finalizer-Kept job =
      search (sends_rules, Sends-perform c, Sends-retry c _ law) depth 12

  pub find_backup_job-Kept : (pb : PerconaPgBackup) → Sends K (find_backup_job c pb)
  unfolding find_backup_job
  find_backup_job-Kept pb = search sends_rules depth 12

  ready_pod-Kept : (ps : List Pod) → Sends K (ready_pod {W = W} ps)
  unfolding ready_pod
  ready_pod-Kept [] = search sends_rules
  ready_pod-Kept (p ∷ ps) = search (sends_rules, ready_pod-Kept ps)

  pub get_ready_instance_pod-Kept : (name : String) → Sends K (get_ready_instance_pod c name)
  unfolding get_ready_instance_pod
  get_ready_instance_pod-Kept name = search (sends_rules, ready_pod-Kept)

  pub start_backup-Kept : (pb : PerconaPgBackup) → Sends K (start_backup c pb)
  unfolding start_backup
  start_backup-Kept pb = search (sends_rules, Sends-perform c, Sends-retry c _ law) depth 12

  pub update_pgbackrest_info-Kept :
      (pod : Pod) (pb : PerconaPgBackup) → Sends K (update_pgbackrest_info c pod pb)
  unfolding update_pgbackrest_info
  update_pgbackrest_info-Kept pod pb =
      search (sends_rules, Sends-perform c, update_status-Sends c law) depth 12

  pub get_backup_in_progress-Kept : (name : String) → Sends K (get_backup_in_progress c name)
  unfolding get_backup_in_progress
  get_backup_in_progress-Kept name = search sends_rules depth 12

  pub delete_annotation-Kept : (a name : String) → Sends K (delete_annotation c a name)
  unfolding delete_annotation
  delete_annotation-Kept a name =
      search (sends_rules, Sends-perform c, Sends-retry c _ law) depth 12

  pub finish_backup-Kept :
      (pb : PerconaPgBackup) (job : Option Job) → Sends K (finish_backup c pb job)
  unfolding finish_backup
  finish_backup-Kept pb job =
      search
        (
          sends_rules,
          Sends-perform c,
          Sends-retry c _ law,
          get_ready_instance_pod-Kept,
          update_pgbackrest_info-Kept,
          get_backup_in_progress-Kept,
          delete_annotation-Kept,
        )
        depth 16

  pub delete_backup_finalizer-Kept :
      (pg : Option PerconaPgCluster) (pb : PerconaPgBackup)
      → Sends K (delete_backup_finalizer c pg pb)
  unfolding delete_backup_finalizer ignore_not_found
  delete_backup_finalizer-Kept pg pb =
      search
        (
          sends_rules,
          Sends-perform c,
          update_status-Sends c law,
          remove_keep_job_finalizer-Kept,
          find_backup_job-Kept,
          finish_backup-Kept,
        )
        depth 20

  -- Whatever a finalizer sends, taking it off adds a patch of the object.
  pub run_finalizer-Kept :
      {T : Type 0} (o : Finalizable W T) (finalizer : String) (f : T → Exec W Write (Unit {0}))
      (obj : T)
      → ((old new : T) → Sends K (o.patched old new))
      → Sends K (f obj)
      → Sends K (run_finalizer c o finalizer f obj)
  unfolding run_finalizer
  run_finalizer-Kept o finalizer f obj p k = search (sends_rules, p) depth 16

  run_finalizer_of_backup-Kept :
      (finalizer : String) (f : PerconaPgBackup → Exec W Write (Unit {0}))
      → ((pb : PerconaPgBackup) → Sends K (f pb))
      → (pb : PerconaPgBackup) → Sends K (run_finalizer c (backup_finalizable c) finalizer f pb)
  run_finalizer_of_backup-Kept finalizer f k pb =
      run_finalizer-Kept _ finalizer f pb (λ old new. Sends-patch c old new tt) (k pb)

  pub run_delete_backup-Kept :
      (pg : Option PerconaPgCluster) (pb : PerconaPgBackup)
      → Sends K (
          run_finalizer c
            (backup_finalizable c)
            finalizer_delete_backup
            (delete_backup_finalizer c pg)
            pb)
  run_delete_backup-Kept pg pb =
      run_finalizer_of_backup-Kept _ _ (delete_backup_finalizer-Kept pg) pb

  run_snapshot_in_progress-Kept :
      (pg : Option PerconaPgCluster) (pb : PerconaPgBackup)
      → Sends K (
          run_finalizer c
            (backup_finalizable c)
            finalizer_snapshot_in_progress
            (snapshot_in_progress_finalizer c pg)
            pb)
  unfolding snapshot_in_progress_finalizer
  run_snapshot_in_progress-Kept pg pb =
      run_finalizer_of_backup-Kept _ _ (λ pb. search sends_rules) pb

  in_order-Kept :
      (first : Bool) (pg : Option PerconaPgCluster) (pb : PerconaPgBackup)
      → Sends K (in_order c first pg pb)
  unfolding in_order
  in_order-Kept true pg pb =
      search (sends_rules, run_delete_backup-Kept, run_snapshot_in_progress-Kept) depth 12
  in_order-Kept false pg pb =
      search (sends_rules, run_delete_backup-Kept, run_snapshot_in_progress-Kept) depth 12

  pub run_finalizers-Kept : (pb : PerconaPgBackup) → Sends K (run_finalizers c pb)
  unfolding run_finalizers
  run_finalizers-Kept pb = search (sends_rules, in_order-Kept) depth 12
