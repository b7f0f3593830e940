-- ===== src/Client.antt =====
-- What the controllers use of code outside this repository: the API server behind
-- controller-runtime's client, client-go's retry, controllerutil and apimachinery's conditions, the
-- clock, and commands run in pods. All of it is a parameter.
pub mod Laws
use percona_postgresql_opera.Prelude.{ℕ, String, Bool, List, Option, StringMap}
use percona_postgresql_opera.Exec.{Result, Exec, read, send}
use percona_postgresql_opera.Types.Meta.{
  Condition, ConditionStatus, Job, Pod, Lease, LoadBalancerIngress,
}
use percona_postgresql_opera.Types.Cluster.{PerconaPgCluster, PostgresCluster}
use percona_postgresql_opera.Types.Backup.{PerconaPgBackup, InfoStanza}
use percona_postgresql_opera.Types.Restore.{PerconaPgRestore}
use percona_postgresql_opera.Types.Volume.{StatefulSet, Pvc, VolumeSnapshot}
use percona_postgresql_opera.Types.Write.{Write, patch_backup, patch_restore}

pub record Client (W : Type 0) : Type 0 where
  -- `client.Get`, by name
  pub get_backup : String → W → Result PerconaPgBackup × W
  pub get_restore : String → W → Result PerconaPgRestore × W
  pub get_cluster : String → W → Result PerconaPgCluster × W
  pub get_crunchy : String → W → Result PostgresCluster × W
  pub get_job : String → W → Result Job × W
  -- `Status.LoadBalancer.Ingress` of the service of that name
  pub get_ingress : String → W → Result (List LoadBalancerIngress) × W
  pub get_lease : String → W → Result Lease × W
  -- `client.List`: the backups of a cluster, the jobs with these labels, a cluster's instance pods
  pub list_backups : String → W → Result (List PerconaPgBackup) × W
  pub list_jobs : StringMap → W → Result (List Job) × W
  pub list_pods : String → W → Result (List Pod) × W
  -- the replica pods of a cluster, its stateful sets, the claims of an instance with a role, and
  -- all restores
  pub list_replica_pods : String → W → Result (List Pod) × W
  pub list_stateful_sets : String → W → Result (List StatefulSet) × W
  pub list_pvcs : String → String → W → Result (List Pvc) × W
  pub list_restores : W → Result (List PerconaPgRestore) × W
  -- `client.Get` of stateful sets, claims and snapshots, and whether the leader's endpoints have
  -- subsets
  pub get_stateful_set : String → W → Result StatefulSet × W
  pub get_pvc : String → W → Result Pvc × W
  pub get_snapshot : String → W → Result VolumeSnapshot × W
  pub get_leader_endpoints : String → W → Result Bool × W
  -- `Create`, `Update`, `Patch`, `Delete`, and a command in a pod that changes something
  pub write : Write → W → Result (Unit {0}) × W
  -- `Patch` of a backup or a restore, with the object that the server answers
  pub patched_backup : PerconaPgBackup → PerconaPgBackup → W → Result PerconaPgBackup × W
  pub patched_restore : PerconaPgRestore → PerconaPgRestore → W → Result PerconaPgRestore × W
  -- `retry.RetryOnConflict(retry.DefaultBackoff, …)`
  pub retry_on_conflict : Exec W Write (Unit {0}) → Exec W Write (Unit {0})
  -- `controllerutil.CreateOrUpdate` of the lease of that name
  pub create_or_update : String → (Lease → Exec W Write Lease) → Exec W Write (Unit {0})
  -- `wait.PollUntilContextTimeout(…, true, …)`
  pub poll_until : Exec W Write Bool → Exec W Write (Unit {0})
  -- a `CHECKPOINT` in a pod with a timeout in seconds: what it writes to stderr
  pub run_checkpoint : String → ℕ → W → Result String × W
  -- `controllerutil.SetControllerReference` of a backup or restore to an object of that name
  pub set_controller_reference : String → String → Result (Unit {0})
  -- the order in which Go's `range` visits a map
  pub map_entries : StringMap → W → StringMap × W
  -- the text of the collected errors of volume snapshots
  pub snapshot_errors_text : W → String × W
  -- the clock's time as RFC 3339 writes it
  pub now_text : W → String × W
  -- the feature gate BackupSnapshots
  pub backup_snapshots_enabled : Bool
  -- `time.Now()`
  pub now : W → ℕ × W
  -- whether Go's random order over a map of two entries takes the first one first
  pub map_order : W → Bool × W
  -- `pgbackrest info` in a pod, and the reconciler's `LatestCommitGetter`
  pub get_info : Pod → String → W → Result (List InfoStanza) × W
  pub latest_commit : PerconaPgCluster → PerconaPgBackup → W → Result ℕ × W
  -- `controllerutil.ContainsFinalizer`, `AddFinalizer`, `RemoveFinalizer`: the new list, and
  -- whether it changed
  pub contains_finalizer : List String → String → Bool
  pub add_finalizer : List String → String → List String × Bool
  pub remove_finalizer : List String → String → List String × Bool
  -- `meta.FindStatusCondition`, `IsStatusConditionPresentAndEqual`, `SetStatusCondition` (with the
  -- time at which it runs), `RemoveStatusCondition`
  pub find_status_condition : List Condition → String → Option Condition
  pub is_status_condition_present_and_equal : List Condition → String → ConditionStatus → Bool
  pub set_status_condition : ℕ → List Condition → Condition → List Condition
  pub remove_status_condition : List Condition → String → List Condition

module _ {W : Type 0} (c : Client W) where
  -- A write whose answer the code does not look at.
  unfoldable pub perform : Write → Exec W Write (Unit {0})
  perform e = send e (c.write e)

  -- `Patch` writes the server's answer into the object that it is given.
  unfoldable pub patch : PerconaPgBackup → PerconaPgBackup → Exec W Write PerconaPgBackup
  patch old new = send (patch_backup old new) (c.patched_backup old new)

  unfoldable pub patch_of_restore :
      PerconaPgRestore → PerconaPgRestore → Exec W Write PerconaPgRestore
  patch_of_restore old new = send (patch_restore old new) (c.patched_restore old new)
