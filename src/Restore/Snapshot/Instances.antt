-- ===== src/Restore/Snapshot/Instances.antt =====
-- percona/controller/pgrestore/snapshot/reconcile.go: suspending and resuming the instances,
-- and what a restore leaves behind.
use Prim.Native.String.{◌++◌}
use percona_postgresql_opera.Prelude.{Bool, true, false, not, if◌then◌else◌, is_some, List, [], ◌∷◌}
use percona_postgresql_opera.Exec.{
  finalizer_pending, Exec, pure, raise, read, attempt, ◌>>=◌, ◌>>◌, case_of,
}
use percona_postgresql_opera.Types.Meta.{Pod}
use percona_postgresql_opera.Types.Cluster.{PerconaPgCluster}
use percona_postgresql_opera.Types.Restore.{PerconaPgRestore}
use percona_postgresql_opera.Types.Volume.{StatefulSet}
use percona_postgresql_opera.Types.Write.{Write, delete_endpoints, remove_skip_file}
use percona_postgresql_opera.Client.{Client, perform}
use percona_postgresql_opera.Controller.{ignore_not_found}
use percona_postgresql_opera.Instance.{suspend_instance, unsuspend_instance}

module _ {W : Type 0} (c : Client W) where
  unfoldable pub suspend_all : List StatefulSet → Bool → Exec W Write Bool
  suspend_all [] done = pure done
  suspend_all (x ∷ xs) done = do
    suspended ← suspend_instance c x.meta.name
    suspend_all xs (if suspended then done else false)

  unfoldable pub unsuspend_all : List StatefulSet → Bool → Exec W Write Bool
  unsuspend_all [] done = pure done
  unsuspend_all (x ∷ xs) done = do
    unsuspended ← unsuspend_instance c x.meta.name
    unsuspend_all xs (if unsuspended then done else false)

  unfoldable pub remove_skip_files : List Pod → Exec W Write (Unit {0})
  remove_skip_files [] = pure tt
  remove_skip_files (p ∷ ps) = do perform c (remove_skip_file p.meta.name); remove_skip_files ps

  module _ (pg : PerconaPgCluster) where
    unfoldable pub suspend_all_instances : Exec W Write Bool
    unfolding suspend_all
    suspend_all_instances = do
      instances ← read (c.list_stateful_sets pg.meta.name)
      suspend_all instances true

    unfoldable pub unsuspend_all_instances : Exec W Write Bool
    unfolding unsuspend_all
    unsuspend_all_instances = do
      instances ← read (c.list_stateful_sets pg.meta.name)
      unsuspend_all instances true

    -- The endpoints of Patroni's leader go if they have no subsets.
    unfoldable pub reconcile_leader_endpoints : Exec W Write (Unit {0})
    unfolding ignore_not_found
    reconcile_leader_endpoints =
        let name = pg.meta.name ++ "-ha" in
        do
          r ← attempt (read (c.get_leader_endpoints name))
          case_of r
              (λ has_subsets. if has_subsets then pure tt else (do
                d ← attempt (perform c (delete_endpoints name))
                case_of d pure (ignore_not_found c)))
              (ignore_not_found c)

    unfoldable pub cleanup_skip_recovery_file : PerconaPgRestore → Exec W Write (Unit {0})
    unfolding remove_skip_files
    cleanup_skip_recovery_file pr =
        if is_some pr.spec.repo_name
        then pure tt
        else (do pods ← read (c.list_pods pg.meta.name); remove_skip_files pods)

    unfoldable pub finalize_snapshot_restore : PerconaPgRestore → Exec W Write (Unit {0})
    unfolding unsuspend_all_instances cleanup_skip_recovery_file
    finalize_snapshot_restore pr = do
      done ← unsuspend_all_instances
      if not done then raise finalizer_pending else cleanup_skip_recovery_file pr
