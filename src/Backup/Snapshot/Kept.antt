-- ===== src/Backup/Snapshot/Kept.antt =====
-- The methods of a backup by volume snapshots that never write another state into a backup.
use percona_postgresql_opera.Prelude.{◌≡◌, refl, String, Bool, List, [], ◌∷◌, StringMap}
use percona_postgresql_opera.Exec.{nil_dereference}
use percona_postgresql_opera.Exec.Writes.{Sends, sends_rules}
use percona_postgresql_opera.Types.Cluster.{PerconaPgCluster, VolumeSnapshots}
use percona_postgresql_opera.Types.Backup.{PerconaPgBackup}
use percona_postgresql_opera.Types.Meta.{Pod}
use percona_postgresql_opera.Types.Volume.{StatefulSet}
use percona_postgresql_opera.Client.{Client}
use percona_postgresql_opera.Client.Laws.{RetryLaw, PollLaw, Sends-perform, Sends-retry, Sends-poll}
use percona_postgresql_opera.Instance.{mark, suspend_instance, unsuspend_instance, get_replica_pods}
use percona_postgresql_opera.Exec.Yields.{Yields, Yields-pure, Yields-raise, Yields-on_option}
use percona_postgresql_opera.Types.Backup.{SnapshotStatus}
use percona_postgresql_opera.Types.Volume.{
  VolumeSnapshotError, VolumeSnapshotStatus, VolumeSnapshot,
}
use percona_postgresql_opera.Backup.Transitions.Graph.{KeepsState}
use percona_postgresql_opera.Backup.Transitions.Updates.{update_status_with-Sends}
use percona_postgresql_opera.Backup.Snapshot.Volumes.{
  with_snapshot, get_target_pvcs, generate_snapshot_intent, ensure_snapshot, look_at_error,
  observe_snapshot, reconcile_snapshot, reconcile_and_note, reconcile_data_snapshot,
  reconcile_wal_snapshot, reconcile_tablespace, each_tablespace, reconcile_tablespace_snapshot,
}
use percona_postgresql_opera.Backup.Snapshot.Offline.{
  run_checkpoint, target_of, get_backup_target, suspend_and_wait, resume_and_wait, offline_prepare,
  offline_finalize,
}

with_snapshot_state :
    {W : Type 0} (f : SnapshotStatus → SnapshotStatus) (b : PerconaPgBackup)
    → Yields
        (λ (b' : PerconaPgBackup). b'.status.state ≡ b.status.state)
        (with_snapshot {W = W} f b)
unfolding with_snapshot
with_snapshot_state f b =
    Yields-on_option b.status.snapshot _ _ (λ _. Yields-raise nil_dereference)
      λ x _. Yields-pure _ refl

module _ {W : Type 0} (c : Client W) (retry : RetryLaw c) (poll : PollLaw c) where
  mark-Kept : (name : String) (f : StatefulSet → StatefulSet) → Sends KeepsState (mark c name f)
  unfolding mark
  mark-Kept name f = search (sends_rules, Sends-perform c, Sends-retry c _ retry)

  suspend_instance-Kept : (name : String) → Sends KeepsState (suspend_instance c name)
  unfolding suspend_instance
  suspend_instance-Kept name = search (sends_rules, mark-Kept) depth 12

  unsuspend_instance-Kept : (name : String) → Sends KeepsState (unsuspend_instance c name)
  unfolding unsuspend_instance
  unsuspend_instance-Kept name = search (sends_rules, mark-Kept) depth 12

  target_of-Kept : (pods : List Pod) → Sends KeepsState (target_of c pods)
  unfolding target_of
  target_of-Kept [] = search sends_rules
  target_of-Kept (p ∷ ps) = search sends_rules

  get_backup_target-Kept :
      (pg : PerconaPgCluster) (pb : PerconaPgBackup) → Sends KeepsState (get_backup_target c pg pb)
  unfolding get_backup_target get_replica_pods
  get_backup_target-Kept pg pb = search (sends_rules, target_of-Kept)

  run_checkpoint-Kept :
      (v : VolumeSnapshots) (name : String) → Sends KeepsState (run_checkpoint c v name)
  unfolding run_checkpoint
  run_checkpoint-Kept v name = search (sends_rules, tt)

  pub offline_prepare-Kept :
      (v : VolumeSnapshots) (pg : PerconaPgCluster) (pb : PerconaPgBackup)
      → Sends KeepsState (offline_prepare c v pg pb)
  unfolding offline_prepare suspend_and_wait
  offline_prepare-Kept v pg pb =
      search
        (
          sends_rules,
          get_backup_target-Kept,
          run_checkpoint-Kept,
          Sends-poll c _ poll,
          suspend_instance-Kept,
        )
        depth 12

  pub offline_finalize-Kept :
      (pg : PerconaPgCluster) (pb : PerconaPgBackup) → Sends KeepsState (offline_finalize c pg pb)
  unfolding offline_finalize resume_and_wait
  offline_finalize-Kept pg pb =
      search (sends_rules, get_backup_target-Kept, Sends-poll c _ poll, unsuspend_instance-Kept)
        depth 12

  pub get_target_pvcs-Kept : (pb : PerconaPgBackup) → Sends KeepsState (get_target_pvcs c pb)
  unfolding get_target_pvcs
  get_target_pvcs-Kept pb = search sends_rules depth 14

  look_at_error-Kept : (e : VolumeSnapshotError) → Sends KeepsState (look_at_error c e)
  unfolding look_at_error
  look_at_error-Kept e = search sends_rules

  observe_snapshot-Kept : (st : VolumeSnapshotStatus) → Sends KeepsState (observe_snapshot c st)
  unfolding observe_snapshot
  observe_snapshot-Kept st = search (sends_rules, look_at_error-Kept)

  ensure_snapshot-Kept : (v : VolumeSnapshot) → Sends KeepsState (ensure_snapshot c v)
  unfolding ensure_snapshot
  ensure_snapshot-Kept v = search (sends_rules, Sends-perform c)

  reconcile_snapshot-Kept : (v : VolumeSnapshot) → Sends KeepsState (reconcile_snapshot c v)
  unfolding reconcile_snapshot
  reconcile_snapshot-Kept v =
      search (sends_rules, ensure_snapshot-Kept, observe_snapshot-Kept) depth 12

  with_snapshot-Kept :
      (f : SnapshotStatus → SnapshotStatus) (b : PerconaPgBackup)
      → Sends KeepsState (with_snapshot {W = W} f b)
  unfolding with_snapshot
  with_snapshot-Kept f b = search sends_rules

  generate_snapshot_intent-Kept :
      (class_name role pvc : String) (pb : PerconaPgBackup)
      → Sends KeepsState (generate_snapshot_intent c class_name pb role pvc)
  unfolding generate_snapshot_intent
  generate_snapshot_intent-Kept class_name role pvc pb = search sends_rules

  reconcile_and_note-Kept :
      (class_name role pvc : String) (pb : PerconaPgBackup)
      (note : String → SnapshotStatus → SnapshotStatus)
      → Sends KeepsState (reconcile_and_note c class_name pb role pvc note)
  unfolding reconcile_and_note
  reconcile_and_note-Kept class_name role pvc pb note =
      search
        (
          sends_rules,
          generate_snapshot_intent-Kept,
          reconcile_snapshot-Kept,
          update_status_with-Sends c retry,
          with_snapshot-Kept,
          with_snapshot_state,
        )
        depth 14

  pub reconcile_data_snapshot-Kept :
      (class_name pvc : String) (pb : PerconaPgBackup)
      → Sends KeepsState (reconcile_data_snapshot c class_name pb pvc)
  unfolding reconcile_data_snapshot
  reconcile_data_snapshot-Kept class_name pvc pb = search reconcile_and_note-Kept

  pub reconcile_wal_snapshot-Kept :
      (class_name pvc : String) (pb : PerconaPgBackup)
      → Sends KeepsState (reconcile_wal_snapshot c class_name pb pvc)
  unfolding reconcile_wal_snapshot
  reconcile_wal_snapshot-Kept class_name pvc pb = search (sends_rules, reconcile_and_note-Kept)

  reconcile_tablespace-Kept :
      (class_name name pvc : String) (pb : PerconaPgBackup)
      → Sends KeepsState (reconcile_tablespace c class_name pb name pvc)
  unfolding reconcile_tablespace
  reconcile_tablespace-Kept class_name name pvc pb = search reconcile_and_note-Kept

  each_tablespace-Kept :
      (class_name : String) (pb : PerconaPgBackup) (m : StringMap) (done : Bool)
      → Sends KeepsState (each_tablespace c class_name pb m done)
  unfolding each_tablespace
  each_tablespace-Kept class_name pb [] done = search sends_rules
  each_tablespace-Kept class_name pb ((name, pvc) ∷ rest) done =
      search (sends_rules, reconcile_tablespace-Kept, each_tablespace-Kept class_name pb rest)

  pub reconcile_tablespace_snapshot-Kept :
      (class_name : String) (pb : PerconaPgBackup) (m : StringMap)
      → Sends KeepsState (reconcile_tablespace_snapshot c class_name pb m)
  unfolding reconcile_tablespace_snapshot
  reconcile_tablespace_snapshot-Kept class_name pb m = search (sends_rules, each_tablespace-Kept)
