-- ===== src/Restore/Transitions.antt =====
-- The states of a restore, and the writes that the controller may make of them.
use percona_postgresql_opera.Prelude.{ℕ, Option, none, some}
use percona_postgresql_opera.Exec.{Exec}
use percona_postgresql_opera.Exec.Writes.{Sends, sends_rules}
use percona_postgresql_opera.Types.Meta.{finalizer_delete_restore}
use percona_postgresql_opera.Types.Cluster.{PgBackRestRestore, PerconaPgCluster}
use percona_postgresql_opera.Types.Restore.{
  PgRestoreState, restore_new, restore_starting, restore_running, restore_failed, restore_succeeded,
  PerconaPgRestore,
}
use percona_postgresql_opera.Types.Write.{Write, update_restore_status}
use percona_postgresql_opera.Client.{Client}
use percona_postgresql_opera.Client.Laws.{Sends-perform, Sends-patch_of_restore}
use percona_postgresql_opera.Controller.{run_finalizer}
use percona_postgresql_opera.Restore.PgBackRest.{start, disable_restore, observe_status}
use percona_postgresql_opera.Restore.Reconcile.{
  busy, follow_restore, set_restore_state, ensure_restore_finalizers, reconcile_new_restore,
  reconcile_starting_restore, reconcile_running_restore, dispatch_restore, restore_finalizable,
  run_restore_finalizers, reconcile_restore,
}

-- The steps of a restore. One that has ended has none.
pub data RestoreStep : PgRestoreState → PgRestoreState → Type 0 where
  request : RestoreStep restore_new restore_starting
  run : RestoreStep restore_starting restore_running
  fail : RestoreStep restore_running restore_failed
  succeed : RestoreStep restore_running restore_succeeded

-- A status write of a reconciliation that found the restore in this state takes one step from it.
abbrev pub Steps : PgRestoreState → Write → Type 0
Steps x (update_restore_status old new) = RestoreStep x new.status.state
Steps x _ = Unit

module _ {W : Type 0} (c : Client W) (x : PgRestoreState) where
  pub start-Steps :
      (pg : PerconaPgCluster) (pr : PerconaPgRestore) → Sends (Steps x) (start c pg pr)
  unfolding start
  start-Steps pg pr = search (sends_rules, Sends-perform c) depth 12

  pub disable_restore-Steps :
      (pg : PerconaPgCluster) (pr : PerconaPgRestore) → Sends (Steps x) (disable_restore c pg pr)
  unfolding disable_restore
  disable_restore-Steps pg pr = search (sends_rules, Sends-perform c) depth 12

  pub observe_status-Steps : (pg : PerconaPgCluster) → Sends (Steps x) (observe_status c pg)
  unfolding observe_status
  observe_status-Steps pg = search sends_rules depth 12

  ensure_restore_finalizers-Steps :
      (pr : PerconaPgRestore) → Sends (Steps x) (ensure_restore_finalizers c pr)
  unfolding ensure_restore_finalizers
  ensure_restore_finalizers-Steps pr = search (sends_rules, Sends-patch_of_restore c) depth 12

  set_restore_state-Steps :
      (y : PgRestoreState) (pr : PerconaPgRestore)
      → RestoreStep x y
      → Sends (Steps x) (set_restore_state c y pr)
  unfolding set_restore_state
  set_restore_state-Steps y pr step = search (sends_rules, Sends-perform c) depth 12

  run_finalizer-Steps :
      (f : PerconaPgRestore → Exec W Write (Unit {0})) (pr : PerconaPgRestore)
      → Sends (Steps x) (f pr)
      → Sends (Steps x) (run_finalizer c (restore_finalizable c) finalizer_delete_restore f pr)
  unfolding run_finalizer
  run_finalizer-Steps f pr k = search (sends_rules, Sends-patch_of_restore c) depth 16

  run_restore_finalizers-Steps :
      (pr : PerconaPgRestore) → Sends (Steps x) (run_restore_finalizers c pr)
  unfolding run_restore_finalizers
  run_restore_finalizers-Steps pr =
      search (sends_rules, run_finalizer-Steps, disable_restore-Steps) depth 16

module _ {W : Type 0} (c : Client W) where
  busy-Steps : (o : Option PgBackRestRestore) → Sends (Steps restore_new) (busy c o)
  unfolding busy
  busy-Steps none = search sends_rules
  busy-Steps (some r) = search sends_rules

  new-Steps :
      (pg : PerconaPgCluster) (pr : PerconaPgRestore)
      → Sends (Steps restore_new) (reconcile_new_restore c pg pr)
  unfolding reconcile_new_restore
  new-Steps pg pr =
      search
        (
          sends_rules, request, busy-Steps, start-Steps, ensure_restore_finalizers-Steps,
          set_restore_state-Steps,
        )
        depth 16

  starting-Steps :
      (pg : PerconaPgCluster) (pr : PerconaPgRestore)
      → Sends (Steps restore_starting) (reconcile_starting_restore c pg pr)
  unfolding reconcile_starting_restore
  starting-Steps pg pr = search (sends_rules, run, set_restore_state-Steps) depth 16

  follow-Steps :
      (x : PgRestoreState) (t : Option ℕ) (pg : PerconaPgCluster) (pr : PerconaPgRestore)
      → Sends (Steps restore_running) (follow_restore c x t pg pr)
  unfolding follow_restore
  follow-Steps restore_failed t pg pr =
      search (sends_rules, fail, disable_restore-Steps, set_restore_state-Steps) depth 16
  follow-Steps restore_succeeded t pg pr =
      search (sends_rules, succeed, disable_restore-Steps, set_restore_state-Steps) depth 16
  follow-Steps restore_new t pg pr = search sends_rules
  follow-Steps restore_starting t pg pr = search sends_rules
  follow-Steps restore_running t pg pr = search sends_rules

  running-Steps :
      (pg : PerconaPgCluster) (pr : PerconaPgRestore)
      → Sends (Steps restore_running) (reconcile_running_restore c pg pr)
  unfolding reconcile_running_restore
  running-Steps pg pr = search (sends_rules, observe_status-Steps, follow-Steps) depth 16

  dispatch-Steps :
      (x : PgRestoreState) (pg : PerconaPgCluster) (pr : PerconaPgRestore)
      → Sends (Steps x) (dispatch_restore c x pg pr)
  unfolding dispatch_restore
  dispatch-Steps restore_new pg pr = new-Steps pg pr
  dispatch-Steps restore_starting pg pr = starting-Steps pg pr
  dispatch-Steps restore_running pg pr = running-Steps pg pr
  dispatch-Steps restore_failed pg pr = search sends_rules
  dispatch-Steps restore_succeeded pg pr = search sends_rules

  module _ (snapshots : PerconaPgCluster → PerconaPgRestore → Exec W Write ℕ) where
    -- Whatever the API server answers, each status that a reconciliation of a restore writes is one
    -- step of the diagram New, Starting, Running, Failed or Succeeded from the state that it found:
    -- no state is skipped, and the status of a restore that was found ended is not written. Restores
    -- from volume snapshots are assumed to take such steps.
    pub reconcile_restore-Steps :
        (pr : PerconaPgRestore)
        → ((pg : PerconaPgCluster) → Sends (Steps pr.status.state) (snapshots pg pr))
        → Sends (Steps pr.status.state) (reconcile_restore c snapshots pr)
    unfolding reconcile_restore
    reconcile_restore-Steps pr k =
        search (sends_rules, k, run_restore_finalizers-Steps, dispatch-Steps) depth 16
