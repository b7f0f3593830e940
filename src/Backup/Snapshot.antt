-- ===== src/Backup/Snapshot.antt =====
-- percona/controller/pgbackup/snapshots/reconcile.go: a backup by volume snapshots. The result of a
-- reconciliation is `RequeueAfter` in seconds, 0 for none.
pub mod Offline
pub mod Volumes
pub mod Kept
pub mod Follows
pub mod Composed
pub mod Unready
pub mod Suspended
use Prim.Native.String.{◌++◌}
use percona_postgresql_opera.Prelude.{
  ℕ, String, Bool, true, false, not, ◌||◌, ◌==◌, if◌then◌else◌, none, some, [], insert,
}
use percona_postgresql_opera.Exec.{
  Err, volume_snapshot_failed, nil_dereference, errorf, Result, ok, err, Exec, pure, raise, read,
  ask, attempt, ◌>>=◌, ◌>>◌, on_option, case_of,
}
use percona_postgresql_opera.Types.Meta.{annotation_backup_target, finalizer_snapshot_in_progress}
use percona_postgresql_opera.Types.Cluster.{
  AppState, app_ready, VolumeSnapshots, PerconaPgCluster, is_volume_snapshots_enabled,
}
use percona_postgresql_opera.Types.Backup.{
  PgBackupState, backup_new, backup_starting, backup_running, backup_failed, backup_succeeded,
  SnapshotStatus, PgBackupStatus, PerconaPgBackup,
}
use percona_postgresql_opera.Types.Write.{Write, patch_backup}
use percona_postgresql_opera.Client.{Client, perform}
use percona_postgresql_opera.Backup.Status.{
  with_status, failed_with, update_status, update_status_with,
}
use Offline.{SnapshotExecutor, offline_exec}
use Volumes.{
  TargetPvcs, get_target_pvcs, reconcile_data_snapshot, reconcile_wal_snapshot,
  reconcile_tablespace_snapshot,
}

abbrev pub is_ready : AppState → Bool
is_ready app_ready = true
is_ready _ = false

abbrev pub snapshot_begun : PgBackupStatus → PgBackupStatus
snapshot_begun st = record st { state = backup_starting; backup_type = "snapshot" }

abbrev empty_snapshot : SnapshotStatus
empty_snapshot = record {
  data_volume_snapshot_ref = none;
  wal_volume_snapshot_ref = none;
  tablespace_volume_snapshot_refs = [];
}

abbrev pub snapshot_running : PgBackupStatus → PgBackupStatus
snapshot_running st = record st { state = backup_running; snapshot = some empty_snapshot }

abbrev pub completed_at_in : PgBackupState → String → ℕ → PgBackupStatus → PgBackupStatus
completed_at_in x error now st = record st { state = x; error = error; completed_at = some now }

-- `annotations[annotationBackupTarget] = targetInstance`
abbrev pub targeting : String → PerconaPgBackup → PerconaPgBackup
targeting target b = record b {
  meta = record b.meta { annotations = insert b.meta.annotations annotation_backup_target target };
}

abbrev is_snapshot_failure : Err → Bool
is_snapshot_failure volume_snapshot_failed = true
is_snapshot_failure _ = false

-- What one kind of volume came to: whether its snapshots are ready, and whether one failed.
pub record Outcome : Type 0 where
  pub done : Bool
  pub failed : Bool

module _ {W : Type 0} (c : Client W) where
  -- `errors.Is(err, errVolumeSnapshotFailed)`: the failure is collected, other errors return.
  unfoldable pub collect : Exec W Write Bool → Exec W Write Outcome
  collect m = do
    r ← attempt m
    case_of r (λ done. pure (record { done = done; failed = false }))
        (λ e.
          if is_snapshot_failure e then pure (record { done = false; failed = true }) else raise e)

  -- The finalizer is written to the backup as it is read anew.
  unfoldable pub patch_finalizers :
      PerconaPgBackup → (PerconaPgBackup → PerconaPgBackup) → Exec W Write (Unit {0})
  patch_finalizers pb f =
      c.retry_on_conflict
        do bcp ← read (c.get_backup pb.meta.name); perform c (patch_backup bcp (f bcp))

  abbrev pub guarded : PerconaPgBackup → PerconaPgBackup
  guarded b = record b {
    meta = record b.meta {
      finalizers = (c.add_finalizer b.meta.finalizers finalizer_snapshot_in_progress).0;
    };
  }

  abbrev pub unguarded : PerconaPgBackup → PerconaPgBackup
  unguarded b = record b {
    meta = record b.meta {
      finalizers = (c.remove_finalizer b.meta.finalizers finalizer_snapshot_in_progress).0;
    };
  }

  abbrev pub is_guarded : PerconaPgBackup → Bool
  is_guarded b = c.contains_finalizer b.meta.finalizers finalizer_snapshot_in_progress

  module _ (exec : SnapshotExecutor W) (pg : PerconaPgCluster) (pb : PerconaPgBackup) where
    unfoldable pub prepare_snapshot : Exec W Write (Unit {0})
    unfolding patch_finalizers
    prepare_snapshot = if is_guarded pb then pure tt else (do
      target ← exec.prepare
      perform c (patch_backup pb (targeting target pb))
      patch_finalizers pb guarded)

    unfoldable pub complete_snapshot : Exec W Write (Unit {0})
    unfolding patch_finalizers
    complete_snapshot =
        if not (is_guarded pb) then pure tt else (do exec.finalize; patch_finalizers pb unguarded)

    unfoldable pub reconcile_new_snapshot : Exec W Write ℕ
    reconcile_new_snapshot =
        if not (is_ready pg.status.state)
        then pure 5
        else (do update_status c pb snapshot_begun; pure 0)

    unfoldable pub reconcile_starting_snapshot : Exec W Write ℕ
    unfolding prepare_snapshot
    reconcile_starting_snapshot = do prepare_snapshot; update_status c pb snapshot_running; pure 0

    -- `metav1.Now()` is read while the status is updated.
    unfoldable pub settle : (ℕ → PgBackupStatus → PgBackupStatus) → Exec W Write (Unit {0})
    settle f = update_status_with c pb λ bcp. do now ← ask c.now; pure (with_status (f now) bcp)

    unfoldable pub fail_snapshots : Exec W Write ℕ
    unfolding settle
    fail_snapshots = do
      text ← ask c.snapshot_errors_text
      settle (completed_at_in backup_failed ("one or more snapshots failed: " ++ text))
      raise volume_snapshot_failed

    unfoldable pub succeed_snapshots : Exec W Write ℕ
    unfolding settle complete_snapshot
    succeed_snapshots = do
      complete_snapshot
      settle (λ now st. record st { state = backup_succeeded; completed_at = some now })
      pure 0

    -- What is made of the three kinds of volumes.
    unfoldable pub conclude : Outcome → Outcome → Outcome → Exec W Write ℕ
    unfolding fail_snapshots succeed_snapshots
    conclude data_of wal_of tablespaces_of =
        if data_of.failed || (wal_of.failed || tablespaces_of.failed)
        then fail_snapshots
        else if not data_of.done || (not wal_of.done || not tablespaces_of.done)
        then pure 5
        else succeed_snapshots

    unfoldable pub reconcile_running_snapshot : String → Exec W Write ℕ
    unfolding collect conclude
    reconcile_running_snapshot class_name = do
      pvcs ← get_target_pvcs c pb
      data_of ← collect (reconcile_data_snapshot c class_name pb pvcs.pgdata)
      wal_of ← collect (reconcile_wal_snapshot c class_name pb pvcs.pgwal)
      tablespaces_of ← collect (reconcile_tablespace_snapshot c class_name pb pvcs.tablespaces)
      conclude data_of wal_of tablespaces_of

    -- The `switch` on the state.
    unfoldable pub dispatch_snapshot : PgBackupState → String → Exec W Write ℕ
    unfolding reconcile_new_snapshot reconcile_starting_snapshot reconcile_running_snapshot
        complete_snapshot
    dispatch_snapshot backup_new class_name = reconcile_new_snapshot
    dispatch_snapshot backup_starting class_name = reconcile_starting_snapshot
    dispatch_snapshot backup_running class_name = reconcile_running_snapshot class_name
    dispatch_snapshot backup_failed class_name = do complete_snapshot; pure 0
    dispatch_snapshot backup_succeeded class_name = do complete_snapshot; pure 0

    -- `(*snapshotReconciler).reconcile`
    unfoldable pub reconcile_with : String → Exec W Write ℕ
    unfolding dispatch_snapshot complete_snapshot
    reconcile_with class_name =
        if pb.meta.is_deleting
        then (do complete_snapshot; pure 0)
        else dispatch_snapshot pb.status.state class_name

  -- The switch of `newSnapshotExec`.
  unfoldable pub reconcile_mode :
      VolumeSnapshots → PerconaPgCluster → PerconaPgBackup → Exec W Write ℕ
  unfolding reconcile_with offline_exec
  reconcile_mode v pg pb =
      let text = "invalid or unsupported volume snapshot mode: " ++ v.mode in
      if v.mode == "offline"
      then reconcile_with (offline_exec c v pg pb) pg pb v.class_name
      else do update_status c pb (failed_with text); raise (errorf text)

  -- `Reconcile`
  unfoldable pub reconcile_snapshots : PerconaPgBackup → PerconaPgCluster → Exec W Write ℕ
  unfolding reconcile_mode
  reconcile_snapshots pb pg =
      if not c.backup_snapshots_enabled
      then (do
        update_status c pb (failed_with "Feature gate 'BackupSnapshots' is not enabled")
        pure 0)
      else if not (is_volume_snapshots_enabled pg.backups)
      then (do
        update_status c pb (failed_with "Volume snapshots are not enabled for this cluster")
        pure 0)
      else on_option pg.backups.volume_snapshots (raise nil_dereference) λ v. reconcile_mode v pg pb
