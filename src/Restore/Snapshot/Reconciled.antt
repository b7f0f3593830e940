-- ===== src/Restore/Snapshot/Reconciled.antt =====
-- Every write of a restore from volume snapshots is allowed, and so is every write of the controller
-- that hands such a restore on.
use percona_postgresql_opera.Exec.Writes.{Sends, Sends-weaken, sends_rules}
use percona_postgresql_opera.Exec.Yields.{Yields-pure, Yields-ask}
use percona_postgresql_opera.Types.Meta.{Job}
use percona_postgresql_opera.Types.Cluster.{PerconaPgCluster}
use percona_postgresql_opera.Types.Backup.{PerconaPgBackup}
use percona_postgresql_opera.Types.Restore.{
  PgRestoreState, restore_new, restore_starting, restore_running, restore_failed, restore_succeeded,
  PerconaPgRestore,
}
use percona_postgresql_opera.Types.Write.{Write, update_restore_status}
use percona_postgresql_opera.Client.{Client}
use percona_postgresql_opera.Client.Laws.{RetryLaw, Sends-perform}
use percona_postgresql_opera.Restore.PgBackRest.{start, disable_restore, observe_status}
use percona_postgresql_opera.Restore.Reconcile.{reconcile_restore}
use percona_postgresql_opera.Restore.Transitions.{
  request, run, fail, succeed, Steps, reconcile_restore-Steps,
}
use percona_postgresql_opera.Restore.Snapshot.{
  reconcile_new_from_snapshot, ensure_snapshot_finalizer, reconcile_starting_from_snapshot,
  succeed_from_snapshot, finish_from_snapshot, recover_from_snapshot, prepare_from_snapshot,
  reconcile_running_from_snapshot, dispatch_from_snapshot, restore_from_snapshot,
}
use percona_postgresql_opera.Restore.Snapshot.Prepare.{
  judge_prepare_job, run_prepare_job, reconcile_prepare_job_annotation, follow_pitr, restore_pitr,
}
use percona_postgresql_opera.Restore.Snapshot.Allowed.{
  Allowed, update_restore_with-Allowed, move_restore-Allowed, ignore_not_found-Allowed,
  suspend_all_instances-Allowed, unsuspend_all_instances-Allowed,
  reconcile_leader_endpoints-Allowed, run_snapshot_finalizers-Allowed, reconcile_instances-Allowed,
}

module _ {W : Type 0} (c : Client W) (retry : RetryLaw c) (own : PerconaPgRestore)
    (pg : PerconaPgCluster) where
  new-Allowed : Sends (Allowed own restore_new) (reconcile_new_from_snapshot c pg own)
  unfolding reconcile_new_from_snapshot
  new-Allowed = search (sends_rules, move_restore-Allowed c retry, request) depth 14

  ensure-Allowed : (x : PgRestoreState) → Sends (Allowed own x) (ensure_snapshot_finalizer c pg own)
  unfolding ensure_snapshot_finalizer
  ensure-Allowed x = search (sends_rules, Sends-perform c)

  starting-Allowed :
      Sends (Allowed own restore_starting) (reconcile_starting_from_snapshot c pg own)
  unfolding reconcile_starting_from_snapshot
  starting-Allowed =
      search
        (
          sends_rules,
          suspend_all_instances-Allowed c retry,
          ensure-Allowed,
          move_restore-Allowed c retry,
          run,
        )
        depth 14

  judge-Allowed : (job : Job) → Sends (Allowed own restore_running) (judge_prepare_job c pg own job)
  unfolding judge_prepare_job
  judge-Allowed job = search (sends_rules, move_restore-Allowed c retry, fail) depth 14

  prepare-Allowed : Sends (Allowed own restore_running) (run_prepare_job c pg own)
  unfolding run_prepare_job
  prepare-Allowed =
      search (sends_rules, Sends-perform c, ignore_not_found-Allowed c retry, judge-Allowed) depth
        16

  annotate-Allowed : Sends (Allowed own restore_running) (reconcile_prepare_job_annotation c pg own)
  unfolding reconcile_prepare_job_annotation
  annotate-Allowed = search (sends_rules, Sends-perform c) depth 14

  start-Allowed : Sends (Allowed own restore_running) (start c pg own)
  unfolding start
  start-Allowed = search (sends_rules, Sends-perform c) depth 12

  disable-Allowed : Sends (Allowed own restore_running) (disable_restore c pg own)
  unfolding disable_restore
  disable-Allowed = search (sends_rules, Sends-perform c) depth 12

  follow-Allowed :
      (x : PgRestoreState) → Sends (Allowed own restore_running) (follow_pitr c pg x own)
  unfolding follow_pitr
  follow-Allowed restore_new = search sends_rules
  follow-Allowed restore_starting = search (sends_rules, start-Allowed)
  follow-Allowed restore_running = search sends_rules
  follow-Allowed restore_succeeded = search (sends_rules, disable-Allowed)
  follow-Allowed restore_failed = search (sends_rules, move_restore-Allowed c retry, fail) depth 12

  pitr-Allowed : Sends (Allowed own restore_running) (restore_pitr c pg own)
  unfolding restore_pitr observe_status
  pitr-Allowed = search (sends_rules, follow-Allowed) depth 16

  succeed-Allowed : Sends (Allowed own restore_running) (succeed_from_snapshot c pg own)
  unfolding succeed_from_snapshot
  succeed-Allowed =
      update_restore_with-Allowed c retry own restore_running own _ (λ old. search sends_rules)
        λ old. Yields-ask _ _ λ now. Yields-pure _ succeed

  finish-Allowed : Sends (Allowed own restore_running) (finish_from_snapshot c pg own)
  unfolding finish_from_snapshot
  finish-Allowed =
      search
        (
          sends_rules,
          reconcile_leader_endpoints-Allowed c retry,
          unsuspend_all_instances-Allowed c retry,
          succeed-Allowed,
        )
        depth 14

  recover-Allowed : Sends (Allowed own restore_running) (prepare_from_snapshot c pg own)
  unfolding prepare_from_snapshot recover_from_snapshot
  recover-Allowed =
      search (sends_rules, prepare-Allowed, annotate-Allowed, pitr-Allowed, finish-Allowed) depth 16

  running-Allowed :
      (pb : PerconaPgBackup)
      → Sends (Allowed own restore_running) (reconcile_running_from_snapshot c pg pb own)
  unfolding reconcile_running_from_snapshot
  running-Allowed pb =
      search (sends_rules, reconcile_instances-Allowed c retry, recover-Allowed) depth 14

  dispatch-Allowed :
      (x : PgRestoreState) (pb : PerconaPgBackup)
      → Sends (Allowed own x) (dispatch_from_snapshot c pg pb x own)
  unfolding dispatch_from_snapshot
  dispatch-Allowed restore_new pb = new-Allowed
  dispatch-Allowed restore_starting pb = starting-Allowed
  dispatch-Allowed restore_running pb = running-Allowed pb
  dispatch-Allowed restore_failed pb = run_snapshot_finalizers-Allowed c retry own _ pg own
  dispatch-Allowed restore_succeeded pb = run_snapshot_finalizers-Allowed c retry own _ pg own

  -- Whatever a reconciliation of a restore from volume snapshots does, each status that it writes is
  -- one step of the restores' diagram from the state that it found; each claim that it creates
  -- carries the restore's name and takes its data from a snapshot; and it deletes no claim that
  -- carries the restore's name or is being deleted. RetryOnConflict is assumed to behave as
  -- documented.
  pub restore_from_snapshot-Allowed :
      Sends (Allowed own own.status.state) (restore_from_snapshot c pg own)
  unfolding restore_from_snapshot
  restore_from_snapshot-Allowed =
      search (sends_rules, run_snapshot_finalizers-Allowed c retry, dispatch-Allowed) depth 14

Steps-of : (own : PerconaPgRestore) (x : PgRestoreState) (e : Write) → Allowed own x e → Steps x e
Steps-of own x (update_restore_status old new) h = h
Steps-of own x _ h = tt

module _ {W : Type 0} (c : Client W) (retry : RetryLaw c) where
  -- Each status that a reconciliation of a restore writes, by pgBackRest or from volume snapshots,
  -- is one step of the diagram from the state that it found, and the status of a restore that was
  -- found ended is not written. (A run may write more than one such status.) RetryOnConflict is
  -- assumed to behave as documented.
  pub reconcile_restore-snapshots_Steps :
      (pr : PerconaPgRestore)
      → Sends (Steps pr.status.state) (reconcile_restore c (restore_from_snapshot c) pr)
  reconcile_restore-snapshots_Steps pr =
      reconcile_restore-Steps c (restore_from_snapshot c) pr λ pg.
        Sends-weaken _ (Steps-of pr pr.status.state) (restore_from_snapshot-Allowed c retry pr pg)
