-- ===== src/Restore/Reconcile.antt =====
-- percona/controller/pgrestore/controller.go. The result is `RequeueAfter` in seconds, 0 for none.
-- Restores from volume snapshots are a parameter.
use Prim.Native.String.{◌++◌}
use percona_postgresql_opera.Prelude.{
  ℕ, String, Bool, false, not, ◌&&◌, ◌==◌, if◌then◌else◌, Option, none, some, is_some, deref,
  lookup,
}
use percona_postgresql_opera.Exec.{
  nil_dereference, Exec, pure, raise, read, attempt, ◌>>=◌, ◌>>◌, case_of, on_option, is_not_found,
}
use percona_postgresql_opera.Types.Meta.{
  annotation_cluster_bootstrap_restore, finalizer_delete_restore,
}
use percona_postgresql_opera.Types.Cluster.{PgBackRestRestore, PerconaPgCluster}
use percona_postgresql_opera.Types.Restore.{
  PgRestoreState, restore_new, restore_starting, restore_running, restore_failed, restore_succeeded,
  PerconaPgRestore,
}
use percona_postgresql_opera.Types.Write.{Write, update_restore_status}
use percona_postgresql_opera.Client.{Client, perform, patch_of_restore}
use percona_postgresql_opera.Controller.{Finalizable, run_finalizer}
use percona_postgresql_opera.Restore.PgBackRest.{start, disable_restore, observe_status}

abbrev pub in_restore_state : PgRestoreState → PerconaPgRestore → PerconaPgRestore
in_restore_state x pr = record pr { status = record pr.status { state = x } }

abbrev pub completed_restore : Option ℕ → PerconaPgRestore → PerconaPgRestore
completed_restore t pr = record pr { status = record pr.status { completed_at = t } }

-- The restore that bootstraps a new cluster, which the cluster's own specification starts.
abbrev pub is_bootstrap : PerconaPgRestore → Bool
is_bootstrap pr = is_some (lookup pr.meta.annotations annotation_cluster_bootstrap_restore)

module _ {W : Type 0} (c : Client W) where
  -- `*restore.Enabled`, where nil panics
  unfoldable pub busy : Option PgBackRestRestore → Exec W Write Bool
  busy none = pure false
  busy (some r) = on_option r.enabled (raise nil_dereference) pure

  -- The state goes into the restore in memory, which is then written.
  unfoldable pub set_restore_state : PgRestoreState → PerconaPgRestore → Exec W Write ℕ
  set_restore_state x pr = do perform c (update_restore_status pr (in_restore_state x pr)); pure 0

  -- `Patch` writes the server's answer into its argument.
  unfoldable pub ensure_restore_finalizers : PerconaPgRestore → Exec W Write PerconaPgRestore
  ensure_restore_finalizers pr =
      let (fs, changed) = c.add_finalizer pr.meta.finalizers finalizer_delete_restore in
      if changed
      then patch_of_restore c pr (record pr { meta = record pr.meta { finalizers = fs } })
      else pure pr

  request_restore : PerconaPgCluster → PerconaPgRestore → Exec W Write PerconaPgRestore
  unfolding ensure_restore_finalizers
  request_restore pg pr =
      if is_bootstrap pr then pure pr else do start c pg pr; ensure_restore_finalizers pr

  begin_restore : PerconaPgCluster → PerconaPgRestore → Exec W Write ℕ
  unfolding request_restore set_restore_state
  begin_restore pg pr = do pr' ← request_restore pg pr; set_restore_state restore_starting pr'

  unfoldable pub reconcile_new_restore : PerconaPgCluster → PerconaPgRestore → Exec W Write ℕ
  unfolding busy begin_restore
  reconcile_new_restore pg pr = do
    running ← busy pg.backups.pgbackrest.restore
    if running then pure 5 else begin_restore pg pr

  unfoldable pub reconcile_starting_restore : PerconaPgCluster → PerconaPgRestore → Exec W Write ℕ
  unfolding set_restore_state
  reconcile_starting_restore pg pr = do
    r ← attempt (read (c.get_job (pg.meta.name ++ "-pgbackrest-restore")))
    case_of r (λ job. set_restore_state restore_running pr)
        (λ e. if is_not_found e then pure 5 else raise e)

  disable : PerconaPgCluster → PerconaPgRestore → Exec W Write (Unit {0})
  disable pg pr = if is_bootstrap pr then pure tt else disable_restore c pg pr

  end_restore : PgRestoreState → PerconaPgCluster → PerconaPgRestore → Exec W Write ℕ
  unfolding disable set_restore_state
  end_restore x pg pr = do disable pg pr; set_restore_state x pr

  -- The restore has this state and this time of completion.
  unfoldable pub follow_restore :
      PgRestoreState → Option ℕ → PerconaPgCluster → PerconaPgRestore → Exec W Write ℕ
  unfolding end_restore
  follow_restore restore_failed t pg pr = end_restore restore_failed pg pr
  follow_restore restore_succeeded t pg pr =
      end_restore restore_succeeded pg (completed_restore t pr)
  follow_restore _ t pg pr = pure 5

  unfoldable pub reconcile_running_restore : PerconaPgCluster → PerconaPgRestore → Exec W Write ℕ
  unfolding follow_restore
  reconcile_running_restore pg pr = do (x, t) ← observe_status c pg; follow_restore x t pg pr

  -- Both `switch`es on the state: a restore that has ended is left alone.
  unfoldable pub dispatch_restore :
      PgRestoreState → PerconaPgCluster → PerconaPgRestore → Exec W Write ℕ
  dispatch_restore restore_new pg pr = reconcile_new_restore pg pr
  dispatch_restore restore_starting pg pr = reconcile_starting_restore pg pr
  dispatch_restore restore_running pg pr = reconcile_running_restore pg pr
  dispatch_restore _ pg pr = pure 0

  find_restored : String → Exec W Write (Option PerconaPgCluster)
  find_restored name = do
    r ← attempt (read (c.get_cluster name))
    case_of r (λ pg. pure (some pg)) (λ e. if is_not_found e then pure none else raise e)

  abbrev pub restore_finalizable : Finalizable W PerconaPgRestore
  restore_finalizable = record {
    finalizers_of = λ r. r.meta.finalizers;
    with_finalizers = λ r fs. record r { meta = record r.meta { finalizers = fs } };
    patched = patch_of_restore c;
  }

  -- The function of the map of finalizers, which has one entry.
  delete_restore_finalizer : Option PerconaPgCluster → PerconaPgRestore → Exec W Write (Unit {0})
  delete_restore_finalizer pg pr = on_option pg (pure tt) (λ found. disable_restore c found pr)

  unfoldable pub run_restore_finalizers : PerconaPgRestore → Exec W Write (Unit {0})
  unfolding find_restored delete_restore_finalizer
  run_restore_finalizers pr = do
    pg ← find_restored pr.spec.pg_cluster
    run_finalizer c restore_finalizable finalizer_delete_restore (delete_restore_finalizer pg) pr
    pure tt

  module _ (snapshots : PerconaPgCluster → PerconaPgRestore → Exec W Write ℕ) where
    by_pgbackrest : PerconaPgCluster → PerconaPgRestore → Exec W Write ℕ
    by_pgbackrest pg pr =
        if pr.meta.is_deleting
        then (do run_restore_finalizers pr; pure 0)
        else dispatch_restore pr.status.state pg pr

    unfoldable pub reconcile_found : PerconaPgCluster → PerconaPgRestore → Exec W Write ℕ
    unfolding by_pgbackrest
    reconcile_found pg pr =
        if deref pg.unmanaged false && not pr.meta.is_deleting
        then pure 0
        else if not (pr.spec.volume_snapshot_backup_name == "")
        then snapshots pg pr
        else by_pgbackrest pg pr

    unfoldable pub reconcile_restore : PerconaPgRestore → Exec W Write ℕ
    unfolding reconcile_found
    reconcile_restore pr = do pg ← read (c.get_cluster pr.spec.pg_cluster); reconcile_found pg pr

    unfoldable pub reconcile_request : String → Exec W Write ℕ
    unfolding reconcile_restore
    reconcile_request name = do
      r ← attempt (read (c.get_restore name))
      case_of r reconcile_restore (λ e. if is_not_found e then pure 0 else raise e)
