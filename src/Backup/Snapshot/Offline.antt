-- ===== src/Backup/Snapshot/Offline.antt =====
-- percona/controller/pgbackup/snapshots/offline.go: the executor that suspends one replica while its
-- volumes are copied, behind the interface `snapshotExecutor`.
use percona_postgresql_opera.Prelude.{
  String, true, not, ◌==◌, if◌then◌else◌, none, some, List, [], ◌∷◌, deref, value_at,
}
use percona_postgresql_opera.Exec.{errorf, Exec, pure, raise, ◌>>=◌, ◌>>◌}
use percona_postgresql_opera.Types.Meta.{Pod, annotation_backup_target, label_instance}
use percona_postgresql_opera.Types.Cluster.{CheckpointConfig, VolumeSnapshots, PerconaPgCluster}
use percona_postgresql_opera.Types.Backup.{PerconaPgBackup}
use percona_postgresql_opera.Types.Write.{Write, checkpoint}
use percona_postgresql_opera.Client.{Client}
use percona_postgresql_opera.Exec.{send}
use percona_postgresql_opera.Instance.{get_replica_pods, suspend_instance, unsuspend_instance}
use Prim.Native.String.{◌++◌}

-- `snapshotExecutor`: `prepare` returns the instance whose volumes are to be copied.
pub record SnapshotExecutor (W : Type 0) : Type 0 where
  pub prepare : Exec W Write String
  pub finalize : Exec W Write (Unit {0})

-- `DefaultOfflineSnapshotConfig`
abbrev pub default_checkpoint : CheckpointConfig
default_checkpoint = record { enabled = some true; timeout_seconds = some 300 }

-- The checkpoint of `newSnapshotConfig`: the default one where none is configured.
abbrev pub checkpoint_of : VolumeSnapshots → CheckpointConfig
checkpoint_of v = elim v.offline_config [
  | none ↦ default_checkpoint
  | some config ↦ deref config.checkpoint default_checkpoint
]

-- The `podExec` of a `CHECKPOINT` and what is made of what it writes to stderr.
abbrev stderr_checked : {W : Type 0} → String → Exec W Write (Unit {0})
stderr_checked stderr =
    if not (stderr == "") then raise (errorf ("checkpoint failed: " ++ stderr)) else pure tt

module _ {W : Type 0} (c : Client W) where
  unfoldable pub run_checkpoint : VolumeSnapshots → String → Exec W Write (Unit {0})
  run_checkpoint v instance_name =
      let config = checkpoint_of v in
      if not (deref config.enabled true) then pure tt else (do
        stderr ←
            send (checkpoint instance_name)
              (c.run_checkpoint (instance_name ++ "-0") (deref config.timeout_seconds 300))
        stderr_checked stderr)

  unfoldable pub target_of : List Pod → Exec W Write String
  target_of [] = raise (errorf "no replica pods found")
  target_of (p ∷ ps) =
      let name = value_at p.meta.labels label_instance in
      if name == ""
      then raise (errorf "cannot determine instance name from pod labels")
      else pure name

  -- The target that was determined before, or the first replica.
  unfoldable pub get_backup_target : PerconaPgCluster → PerconaPgBackup → Exec W Write String
  unfolding get_replica_pods target_of
  get_backup_target pg pb =
      let name = value_at pb.meta.annotations annotation_backup_target in
      if not (name == "")
      then pure name
      else (do replicas ← get_replica_pods c pg; target_of replicas)

  unfoldable pub suspend_and_wait : String → Exec W Write (Unit {0})
  suspend_and_wait name = c.poll_until (suspend_instance c name)

  unfoldable pub resume_and_wait : String → Exec W Write (Unit {0})
  resume_and_wait name = c.poll_until (unsuspend_instance c name)

  unfoldable pub offline_prepare :
      VolumeSnapshots → PerconaPgCluster → PerconaPgBackup → Exec W Write String
  unfolding run_checkpoint get_backup_target suspend_and_wait
  offline_prepare v pg pb = do
    target ← get_backup_target pg pb
    run_checkpoint v target
    suspend_and_wait target
    pure target

  unfoldable pub offline_finalize : PerconaPgCluster → PerconaPgBackup → Exec W Write (Unit {0})
  unfolding get_backup_target resume_and_wait
  offline_finalize pg pb = do target ← get_backup_target pg pb; resume_and_wait target

  -- `newOfflineExec`
  unfoldable pub offline_exec :
      VolumeSnapshots → PerconaPgCluster → PerconaPgBackup → SnapshotExecutor W
  unfolding offline_prepare offline_finalize
  offline_exec v pg pb = record {
    prepare = offline_prepare v pg pb;
    finalize = offline_finalize pg pb;
  }
