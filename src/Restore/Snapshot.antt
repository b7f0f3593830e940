-- ===== src/Restore/Snapshot.antt =====
-- percona/controller/pgrestore/snapshot/reconcile.go: restoring the volumes of a cluster from the
-- snapshots of a backup. The result is `RequeueAfter` in seconds, 0 for none.
pub mod Volumes
pub mod Status
pub mod Instances
pub mod Prepare
pub mod Allowed
pub mod Reconciled
pub mod Waiting
pub mod Deadlock
use Prim.Native.String.{◌++◌}
use percona_postgresql_opera.Prelude.{
  ℕ, String, Bool, true, false, not, ◌&&◌, ◌||◌, ◌==◌, nat_eq, if◌then◌else◌, Option, none, some,
  is_some, List, [], ◌∷◌, lookup, insert,
}
use percona_postgresql_opera.Exec.{
  Err, finalizer_pending, nil_dereference, Result, Exec, pure, raise, lift, read, ask, send,
  attempt, ◌>>=◌, ◌>>◌, case_of, on_option, is_not_found,
}
use percona_postgresql_opera.Types.Meta.{
  Job, Pod, annotation_pvcs_prepared_at, finalizer_snapshot_restore,
}
use percona_postgresql_opera.Types.Cluster.{PgBackRestRestore, PerconaPgCluster}
use percona_postgresql_opera.Types.Backup.{PerconaPgBackup}
use percona_postgresql_opera.Types.Restore.{
  PgRestoreState, restore_new, restore_starting, restore_running, restore_failed, restore_succeeded,
  PerconaPgRestore, is_completed,
}
use percona_postgresql_opera.Types.Volume.{StatefulSet}
use percona_postgresql_opera.Types.Write.{
  Write, update_restore_status, patch_restore, create_job, delete_named_job, delete_endpoints,
  remove_skip_file,
}
use percona_postgresql_opera.Client.{Client, perform}
use percona_postgresql_opera.Controller.{ignore_not_found, run_finalizer}
use percona_postgresql_opera.Instance.{suspend_instance, unsuspend_instance}
use percona_postgresql_opera.Restore.PgBackRest.{start, disable_restore, observe_status}
use percona_postgresql_opera.Restore.Reconcile.{
  in_restore_state, completed_restore, restore_finalizable,
}
use Volumes.{reconcile_instances}
use Status.{update_restore_with, move_restore}
use Instances.{
  suspend_all, unsuspend_all, remove_skip_files, suspend_all_instances, unsuspend_all_instances,
  reconcile_leader_endpoints, cleanup_skip_recovery_file, finalize_snapshot_restore,
}
use Prepare.{
  is_prepared, prepared_at, judge_prepare_job, run_prepare_job, reconcile_prepare_job_annotation,
  follow_pitr, restore_pitr,
}

-- `Spec.Backups.PGBackRest.Restore` is enabled.
abbrev pub is_restoring : Option PgBackRestRestore → Bool
is_restoring none = false
is_restoring (some r) = elim r.enabled [ none ↦ false | some b ↦ b ]

-- Another restore of the cluster that has not ended.
unfoldable pub is_other_restore : PerconaPgCluster → PerconaPgRestore → PerconaPgRestore → Bool
is_other_restore pg pr other = not (
    not (other.spec.pg_cluster == pg.meta.name)
    || (is_completed other.status.state || (other.meta.name == pr.meta.name)))

unfoldable pub has_other_restore :
    PerconaPgCluster → PerconaPgRestore → List PerconaPgRestore → Bool
has_other_restore pg pr [] = false
has_other_restore pg pr (x ∷ xs) =
    if is_other_restore pg pr x then true else has_other_restore pg pr xs

module _ {W : Type 0} (c : Client W) where
  module _ (pg : PerconaPgCluster) where
    -- The map of finalizers has one entry.
    unfoldable pub run_snapshot_finalizers : PerconaPgRestore → Exec W Write ℕ
    unfolding finalize_snapshot_restore
    run_snapshot_finalizers pr = do
      (done, pr') ←
          run_finalizer c (restore_finalizable c) finalizer_snapshot_restore
            (finalize_snapshot_restore c pg) pr
      pure (if done then 0 else 5)

    unfoldable pub reconcile_new_from_snapshot : PerconaPgRestore → Exec W Write ℕ
    unfolding has_other_restore move_restore
    reconcile_new_from_snapshot pr =
        if is_restoring pg.backups.pgbackrest.restore then pure 5 else (do
          restores ← read c.list_restores
          if has_other_restore pg pr restores
              then pure 5
              else do move_restore c restore_starting pr; pure 0)

    -- The restore in memory, which `AddFinalizer` changes, is not looked at again.
    unfoldable pub ensure_snapshot_finalizer : PerconaPgRestore → Exec W Write (Unit {0})
    ensure_snapshot_finalizer pr =
        let (fs, changed) = c.add_finalizer pr.meta.finalizers finalizer_snapshot_restore in
        if changed
        then perform c (patch_restore pr (record pr { meta = record pr.meta { finalizers = fs } }))
        else pure tt

    unfoldable pub reconcile_starting_from_snapshot : PerconaPgRestore → Exec W Write ℕ
    unfolding suspend_all_instances ensure_snapshot_finalizer move_restore
    reconcile_starting_from_snapshot pr = do
      suspended ← suspend_all_instances c pg
      if not suspended
          then pure 5
          else (do ensure_snapshot_finalizer pr; move_restore c restore_running pr; pure 0)

    -- The clock is read while the status is updated.
    unfoldable pub succeed_from_snapshot : PerconaPgRestore → Exec W Write (Unit {0})
    unfolding update_restore_with
    succeed_from_snapshot pr = update_restore_with c pr λ old. do
      now ← ask c.now
      pure (completed_restore (some now) (in_restore_state restore_succeeded old))

    unfoldable pub finish_from_snapshot : PerconaPgRestore → Exec W Write ℕ
    unfolding reconcile_leader_endpoints unsuspend_all_instances succeed_from_snapshot
    finish_from_snapshot pr = do
      reconcile_leader_endpoints c pg
      unsuspended ← unsuspend_all_instances c pg
      if not unsuspended then pure 5 else (do succeed_from_snapshot pr; pure 0)

    unfoldable pub recover_from_snapshot : PerconaPgRestore → Exec W Write ℕ
    unfolding restore_pitr finish_from_snapshot
    recover_from_snapshot pr = do
      recovered ← restore_pitr c pg pr
      if not recovered then pure 5 else finish_from_snapshot pr

    unfoldable pub prepare_from_snapshot : PerconaPgRestore → Exec W Write ℕ
    unfolding run_prepare_job reconcile_prepare_job_annotation recover_from_snapshot
    prepare_from_snapshot pr = do
      prepared ← run_prepare_job c pg pr
      if not prepared
          then pure 5
          else (do reconcile_prepare_job_annotation c pg pr; recover_from_snapshot pr)

    module _ (pb : PerconaPgBackup) where
      unfoldable pub reconcile_running_from_snapshot : PerconaPgRestore → Exec W Write ℕ
      unfolding prepare_from_snapshot
      reconcile_running_from_snapshot pr = do
        instances ← read (c.list_stateful_sets pg.meta.name)
        done ← reconcile_instances c pg pb pr instances true
        if not done then pure 5 else prepare_from_snapshot pr

      -- The `switch` on the state.
      unfoldable pub dispatch_from_snapshot : PgRestoreState → PerconaPgRestore → Exec W Write ℕ
      dispatch_from_snapshot restore_new pr = reconcile_new_from_snapshot pr
      dispatch_from_snapshot restore_starting pr = reconcile_starting_from_snapshot pr
      dispatch_from_snapshot restore_running pr = reconcile_running_from_snapshot pr
      dispatch_from_snapshot restore_failed pr = run_snapshot_finalizers pr
      dispatch_from_snapshot restore_succeeded pr = run_snapshot_finalizers pr

  -- `Reconcile`
  unfoldable pub restore_from_snapshot : PerconaPgCluster → PerconaPgRestore → Exec W Write ℕ
  unfolding dispatch_from_snapshot run_snapshot_finalizers
  restore_from_snapshot pg pr = if not c.backup_snapshots_enabled then pure 0 else (do
    pb ← read (c.get_backup pr.spec.volume_snapshot_backup_name)
    if pr.meta.is_deleting
        then run_snapshot_finalizers pg pr
        else dispatch_from_snapshot pg pb pr.status.state pr)
