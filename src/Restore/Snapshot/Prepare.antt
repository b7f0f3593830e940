-- ===== src/Restore/Snapshot/Prepare.antt =====
-- percona/controller/pgrestore/snapshot/reconcile.go: the job that prepares the volumes, and
-- the recovery by pgBackRest.
use Prim.Native.String.{◌++◌}
use percona_postgresql_opera.Prelude.{
  String, Bool, true, false, not, ◌&&◌, nat_eq, if◌then◌else◌, is_some, lookup, insert,
}
use percona_postgresql_opera.Exec.{
  Exec, pure, raise, lift, read, ask, attempt, ◌>>=◌, ◌>>◌, case_of, is_not_found,
}
use percona_postgresql_opera.Types.Meta.{Job, annotation_pvcs_prepared_at}
use percona_postgresql_opera.Types.Cluster.{PerconaPgCluster}
use percona_postgresql_opera.Types.Restore.{
  PgRestoreState, restore_new, restore_starting, restore_running, restore_failed, restore_succeeded,
  PerconaPgRestore,
}
use percona_postgresql_opera.Types.Write.{Write, patch_restore, create_job, delete_named_job}
use percona_postgresql_opera.Client.{Client, perform}
use percona_postgresql_opera.Controller.{ignore_not_found}
use percona_postgresql_opera.Restore.PgBackRest.{start, disable_restore, observe_status}
use percona_postgresql_opera.Restore.Snapshot.Status.{move_restore}

abbrev pub is_prepared : PerconaPgRestore → Bool
is_prepared pr = is_some (lookup pr.meta.annotations annotation_pvcs_prepared_at)

abbrev pub prepared_at : String → PerconaPgRestore → PerconaPgRestore
prepared_at t pr = record pr {
  meta = record pr.meta { annotations = insert pr.meta.annotations annotation_pvcs_prepared_at t };
}

abbrev has_completion_time : Job → Bool
has_completion_time job = is_some job.completion_time

module _ {W : Type 0} (c : Client W) where
  module _ (pg : PerconaPgCluster) where
    create_prepare_job : PerconaPgRestore → Exec W Write Bool
    create_prepare_job pr =
        let name = pr.meta.name ++ "-prepare" in
        do
          lift (c.set_controller_reference pr.meta.name name)
          perform c (create_job name)
          pure false

    unfoldable pub judge_prepare_job : PerconaPgRestore → Job → Exec W Write Bool
    unfolding move_restore
    judge_prepare_job pr job =
        if has_completion_time job && not (nat_eq job.succeeded 0)
        then pure true
        else if not (nat_eq job.failed 0)
        then (do move_restore c restore_failed pr; pure true)
        else pure false

    delete_prepare_job : PerconaPgRestore → Exec W Write Bool
    unfolding ignore_not_found
    delete_prepare_job pr = do
      r ← attempt (perform c (delete_named_job (pr.meta.name ++ "-prepare")))
      case_of r pure (ignore_not_found c)
      pure true

    observe_prepare_job : PerconaPgRestore → Exec W Write Bool
    unfolding create_prepare_job judge_prepare_job
    observe_prepare_job pr = do
      r ← attempt (read (c.get_job (pr.meta.name ++ "-prepare")))
      case_of r (judge_prepare_job pr)
          (λ e. if is_not_found e then create_prepare_job pr else raise e)

    -- Whether the claims are prepared. The job's pod template is left out.
    unfoldable pub run_prepare_job : PerconaPgRestore → Exec W Write Bool
    unfolding delete_prepare_job observe_prepare_job
    run_prepare_job pr = if is_prepared pr then delete_prepare_job pr else observe_prepare_job pr

    -- The restore in memory, which gets the annotation too, is not asked for it again.
    unfoldable pub reconcile_prepare_job_annotation : PerconaPgRestore → Exec W Write (Unit {0})
    reconcile_prepare_job_annotation pr =
        if is_prepared pr
        then pure tt
        else (do t ← ask c.now_text; perform c (patch_restore pr (prepared_at t pr)))

    -- The `switch` of `restorePITR`.
    unfoldable pub follow_pitr : PgRestoreState → PerconaPgRestore → Exec W Write Bool
    unfolding move_restore
    follow_pitr restore_new pr = pure false
    follow_pitr restore_starting pr = do start c pg pr; pure false
    follow_pitr restore_running pr = pure false
    follow_pitr restore_succeeded pr = do disable_restore c pg pr; pure true
    follow_pitr restore_failed pr = do move_restore c restore_failed pr; pure true

    unfoldable pub restore_pitr : PerconaPgRestore → Exec W Write Bool
    unfolding follow_pitr
    restore_pitr pr =
        if not (is_some pr.spec.repo_name)
        then pure true
        else (do (x, t) ← observe_status c pg; follow_pitr x pr)
