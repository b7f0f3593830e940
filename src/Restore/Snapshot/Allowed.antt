-- ===== src/Restore/Snapshot/Allowed.antt =====
-- The writes of a restore from volume snapshots: it takes the steps of a restore, and replaces only
-- claims that are not its own.
use percona_postgresql_opera.Prelude.{
  value_at, ◌==◌, ◌≡◌, refl, String, Bool, true, false, eq_refl, is_some, lookup, List, [], ◌∷◌,
  StringMap,
}
use percona_postgresql_opera.Exec.{Err, Exec}
use percona_postgresql_opera.Exec.Writes.{Sends, Sends-bind, Sends-if, sends_rules}
use percona_postgresql_opera.Exec.Yields.{Yields, Yields-pure, Sends-bind_of}
use percona_postgresql_opera.Types.Meta.{annotation_snapshot_restore, Pod}
use percona_postgresql_opera.Types.Cluster.{PerconaPgCluster}
use percona_postgresql_opera.Types.Backup.{PerconaPgBackup}
use percona_postgresql_opera.Types.Restore.{PgRestoreState, PerconaPgRestore}
use percona_postgresql_opera.Types.Volume.{StatefulSet, Pvc}
use percona_postgresql_opera.Types.Write.{Write, update_restore_status, create_pvc, delete_pvc}
use percona_postgresql_opera.Client.{Client}
use percona_postgresql_opera.Client.Laws.{
  RetryLaw, Sends-perform, Sends-retry, Sends-patch_of_restore,
}
use percona_postgresql_opera.Controller.{ignore_not_found, run_finalizer}
use percona_postgresql_opera.Instance.{mark, suspend_instance, unsuspend_instance}
use percona_postgresql_opera.Restore.Transitions.{RestoreStep}
use percona_postgresql_opera.Restore.Snapshot.Volumes.{
  VolumeRole, is_restored, restored_claim, pvc_spec_from_data_source, create_pvc_from_snapshot,
  replace_pvc, reconcile_instance_pvc, reconcile_data_volume, reconcile_wal_volume,
  each_tablespace_volume, reconcile_tablespace_volumes, reconcile_instance, reconcile_instances,
}
use percona_postgresql_opera.Restore.Snapshot.Status.{update_restore_with, move_restore}
use percona_postgresql_opera.Restore.Snapshot.Instances.{
  suspend_all, unsuspend_all, remove_skip_files, suspend_all_instances, unsuspend_all_instances,
  reconcile_leader_endpoints, cleanup_skip_recovery_file, finalize_snapshot_restore,
}
use percona_postgresql_opera.Restore.Snapshot.{run_snapshot_finalizers}

-- What a restore that was found in the state `x` may write: one step from that state; a new claim
-- that carries the restore's name and has a source; the end of a claim that is neither the
-- restore's nor being deleted.
abbrev pub Allowed : PerconaPgRestore → PgRestoreState → Write → Type 0
Allowed own x (update_restore_status old new) = RestoreStep x new.status.state
Allowed own x (create_pvc pvc) =
    ((value_at pvc.meta.annotations annotation_snapshot_restore == own.meta.name) ≡ true)
    × (is_some pvc.data_source ≡ true)
Allowed own x (delete_pvc pvc) =
    ((value_at pvc.meta.annotations annotation_snapshot_restore == own.meta.name) ≡ false)
    × (pvc.meta.is_deleting ≡ false)
Allowed own x _ = Unit

module _ {W : Type 0} (c : Client W) (retry : RetryLaw c) (own : PerconaPgRestore)
    (x : PgRestoreState) where
  mark-Allowed :
      (name : String) (f : StatefulSet → StatefulSet) → Sends (Allowed own x) (mark c name f)
  unfolding mark
  mark-Allowed name f = search (sends_rules, Sends-perform c, Sends-retry c _ retry)

  suspend_instance-Allowed : (name : String) → Sends (Allowed own x) (suspend_instance c name)
  unfolding suspend_instance
  suspend_instance-Allowed name = search (sends_rules, mark-Allowed) depth 12

  unsuspend_instance-Allowed : (name : String) → Sends (Allowed own x) (unsuspend_instance c name)
  unfolding unsuspend_instance
  unsuspend_instance-Allowed name = search (sends_rules, mark-Allowed) depth 12

  suspend_all-Allowed :
      (xs : List StatefulSet) (done : Bool) → Sends (Allowed own x) (suspend_all c xs done)
  unfolding suspend_all
  suspend_all-Allowed [] done = search sends_rules
  suspend_all-Allowed (i ∷ is) done =
      search (sends_rules, suspend_instance-Allowed, suspend_all-Allowed is)

  unsuspend_all-Allowed :
      (xs : List StatefulSet) (done : Bool) → Sends (Allowed own x) (unsuspend_all c xs done)
  unfolding unsuspend_all
  unsuspend_all-Allowed [] done = search sends_rules
  unsuspend_all-Allowed (i ∷ is) done =
      search (sends_rules, unsuspend_instance-Allowed, unsuspend_all-Allowed is)

  remove_skip_files-Allowed : (pods : List Pod) → Sends (Allowed own x) (remove_skip_files c pods)
  unfolding remove_skip_files
  remove_skip_files-Allowed [] = search sends_rules
  remove_skip_files-Allowed (p ∷ ps) =
      Sends-bind _ _ (search (sends_rules, Sends-perform c)) λ _. remove_skip_files-Allowed ps

  pub update_restore_with-Allowed :
      (pr : PerconaPgRestore) (f : PerconaPgRestore → Exec W Write PerconaPgRestore)
      → ((old : PerconaPgRestore) → Sends (Allowed own x) (f old))
      → ((old : PerconaPgRestore)
          → Yields (λ (new : PerconaPgRestore). RestoreStep x new.status.state) (f old))
      → Sends (Allowed own x) (update_restore_with c pr f)
  unfolding update_restore_with
  update_restore_with-Allowed pr f k y = Sends-retry c _ retry (
      Sends-bind _ _ (search sends_rules) λ old.
        Sends-bind_of _ _ (k old) (y old)
          λ new h. Sends-perform c (update_restore_status old new) h)

  pub move_restore-Allowed :
      (y : PgRestoreState) (pr : PerconaPgRestore)
      → RestoreStep x y
      → Sends (Allowed own x) (move_restore c y pr)
  unfolding move_restore
  move_restore-Allowed y pr h =
      update_restore_with-Allowed pr _ (λ old. search sends_rules) λ old. Yields-pure _ h

  pub ignore_not_found-Allowed : (e : Err) → Sends (Allowed own x) (ignore_not_found c e)
  unfolding ignore_not_found
  ignore_not_found-Allowed e = search sends_rules

  module _ (pg : PerconaPgCluster) where
    pub suspend_all_instances-Allowed : Sends (Allowed own x) (suspend_all_instances c pg)
    unfolding suspend_all_instances
    suspend_all_instances-Allowed = search (sends_rules, suspend_all-Allowed)

    pub unsuspend_all_instances-Allowed : Sends (Allowed own x) (unsuspend_all_instances c pg)
    unfolding unsuspend_all_instances
    unsuspend_all_instances-Allowed = search (sends_rules, unsuspend_all-Allowed)

    pub reconcile_leader_endpoints-Allowed : Sends (Allowed own x) (reconcile_leader_endpoints c pg)
    unfolding reconcile_leader_endpoints
    reconcile_leader_endpoints-Allowed =
        search (sends_rules, Sends-perform c, ignore_not_found-Allowed) depth 16

    finalize_snapshot_restore-Allowed :
        (pr : PerconaPgRestore) → Sends (Allowed own x) (finalize_snapshot_restore c pg pr)
    unfolding finalize_snapshot_restore cleanup_skip_recovery_file
    finalize_snapshot_restore-Allowed pr =
        search (sends_rules, unsuspend_all_instances-Allowed, remove_skip_files-Allowed) depth 16

    pub run_snapshot_finalizers-Allowed :
        (pr : PerconaPgRestore) → Sends (Allowed own x) (run_snapshot_finalizers c pg pr)
    unfolding run_snapshot_finalizers run_finalizer
    run_snapshot_finalizers-Allowed pr =
        search (sends_rules, finalize_snapshot_restore-Allowed, Sends-patch_of_restore c) depth 16

    module _ (pb : PerconaPgBackup) where
      replace_pvc-Allowed :
          (observed : Pvc) → Sends (Allowed own x) (replace_pvc c pg pb own observed)
      unfolding replace_pvc
      replace_pvc-Allowed observed =
          Sends-if (is_restored own observed) _ _ (λ _. search sends_rules)
            λ other.
              Sends-if observed.meta.is_deleting _ _ (λ _. search sends_rules)
                λ kept. search (sends_rules, Sends-perform c, other, kept)

      restored_claim-Allowed :
          (role : VolumeRole) (i : StatefulSet) (claim name : String)
          → Allowed own x (create_pvc (restored_claim own i role claim name))
      unfolding restored_claim lookup
      restored_claim-Allowed role i claim name = (eq_refl own.meta.name, refl)

      create_pvc_from_snapshot-Allowed :
          (role : VolumeRole) (i : StatefulSet) (name : String)
          → Sends (Allowed own x) (create_pvc_from_snapshot c pg pb own role i name)
      unfolding create_pvc_from_snapshot pvc_spec_from_data_source
      create_pvc_from_snapshot-Allowed role i name =
          search (sends_rules, Sends-perform c, restored_claim-Allowed) depth 16

      reconcile_instance_pvc-Allowed :
          (role : VolumeRole) (i : StatefulSet) (name : String)
          → Sends (Allowed own x) (reconcile_instance_pvc c pg pb own role i name)
      unfolding reconcile_instance_pvc
      reconcile_instance_pvc-Allowed role i name =
          search (sends_rules, replace_pvc-Allowed, create_pvc_from_snapshot-Allowed) depth 16

      each_tablespace_volume-Allowed :
          (i : StatefulSet) (m : StringMap) (done : Bool)
          → Sends (Allowed own x) (each_tablespace_volume c pg pb own i m done)
      unfolding each_tablespace_volume
      each_tablespace_volume-Allowed i [] done = search sends_rules
      each_tablespace_volume-Allowed i ((t, name) ∷ rest) done =
          search
            (sends_rules, reconcile_instance_pvc-Allowed, each_tablespace_volume-Allowed i rest)

      reconcile_instance-Allowed :
          (i : StatefulSet) → Sends (Allowed own x) (reconcile_instance c pg pb own i)
      unfolding reconcile_instance reconcile_data_volume reconcile_wal_volume
          reconcile_tablespace_volumes
      reconcile_instance-Allowed i =
          search (sends_rules, reconcile_instance_pvc-Allowed, each_tablespace_volume-Allowed) depth
            16

      pub reconcile_instances-Allowed :
          (is : List StatefulSet) (done : Bool)
          → Sends (Allowed own x) (reconcile_instances c pg pb own is done)
      unfolding reconcile_instances
      reconcile_instances-Allowed [] done = search sends_rules
      reconcile_instances-Allowed (i ∷ is) done =
          search (sends_rules, reconcile_instance-Allowed, reconcile_instances-Allowed is)
