-- ===== src/Backup/Snapshot/Follows.antt =====
-- A backup by volume snapshots follows the diagram of a backup's states, as one by pgBackRest does.
use percona_postgresql_opera.Prelude.{ℕ, ◌≡◌, ◌⊎◌, inr, subst, sym, String, Bool, false}
use percona_postgresql_opera.Exec.{Exec, pure}
use percona_postgresql_opera.Exec.Writes.{Sends, Sends-bind, Sends-attempt, Sends-if, sends_rules}
use percona_postgresql_opera.Exec.Yields.{Yields-pure, Yields-ask}
use percona_postgresql_opera.Types.Cluster.{VolumeSnapshots, PerconaPgCluster}
use percona_postgresql_opera.Types.Backup.{
  PgBackupState, backup_new, backup_starting, backup_running, backup_failed, backup_succeeded,
  PgBackupStatus, PerconaPgBackup, is_terminal,
}
use percona_postgresql_opera.Types.Write.{Write}
use percona_postgresql_opera.Client.{Client}
use percona_postgresql_opera.Client.Laws.{RetryLaw, PollLaw, Sends-perform, Sends-retry}
use percona_postgresql_opera.Backup.Status.{with_status}
use percona_postgresql_opera.Backup.Transitions.Graph.{
  Step, begin, run, succeed, fail, unended-Step, Follows, KeepsState, Sends-Follows,
}
use percona_postgresql_opera.Backup.Transitions.Updates.{
  update_status-Sends, update_status_with-Sends,
}
use percona_postgresql_opera.Backup.Snapshot.{
  is_guarded, Outcome, collect, patch_finalizers, prepare_snapshot, complete_snapshot,
  reconcile_new_snapshot, reconcile_starting_snapshot, settle, fail_snapshots, succeed_snapshots,
  conclude, reconcile_running_snapshot, dispatch_snapshot, reconcile_with, reconcile_mode,
  reconcile_snapshots,
}
use percona_postgresql_opera.Backup.Snapshot.Offline.{SnapshotExecutor, offline_exec}
use percona_postgresql_opera.Backup.Snapshot.Kept.{
  offline_prepare-Kept, offline_finalize-Kept, get_target_pvcs-Kept, reconcile_data_snapshot-Kept,
  reconcile_wal_snapshot-Kept, reconcile_tablespace_snapshot-Kept,
}

-- The executor never writes another state into a backup.
pub record KeepsStates {W : Type 0} (exec : SnapshotExecutor W) : Type 0 where
  pub prepares : Sends KeepsState exec.prepare
  pub finalizes : Sends KeepsState exec.finalize

module _ {W : Type 0} (c : Client W) (retry : RetryLaw c) (poll : PollLaw c) where
  pub offline_exec-KeepsStates :
      (v : VolumeSnapshots) (pg : PerconaPgCluster) (pb : PerconaPgBackup)
      → KeepsStates (offline_exec c v pg pb)
  unfolding offline_exec
  offline_exec-KeepsStates v pg pb = record {
    prepares = offline_prepare-Kept c retry poll v pg pb;
    finalizes = offline_finalize-Kept c retry poll pg pb;
  }

  pub collect-Kept : (m : Exec W Write Bool) → Sends KeepsState m → Sends KeepsState (collect c m)
  unfolding collect
  collect-Kept m k = Sends-bind _ _ (Sends-attempt m k) λ r. search sends_rules

  patch_finalizers-Kept :
      (pb : PerconaPgBackup) (f : PerconaPgBackup → PerconaPgBackup)
      → Sends KeepsState (patch_finalizers c pb f)
  unfolding patch_finalizers
  patch_finalizers-Kept pb f = search (sends_rules, Sends-perform c, Sends-retry c _ retry)

  module _ (exec : SnapshotExecutor W) (keeps : KeepsStates exec) (pg : PerconaPgCluster)
      (pb : PerconaPgBackup) where
    prepare_snapshot-Kept : Sends KeepsState (prepare_snapshot c exec pg pb)
    unfolding prepare_snapshot
    prepare_snapshot-Kept =
        Sends-if (is_guarded c pb) (pure tt) _ (λ h. search sends_rules)
          λ h.
            Sends-bind exec.prepare _ keeps.prepares
              λ target. search (sends_rules, patch_finalizers-Kept, Sends-perform c)

    pub complete_snapshot-Kept : Sends KeepsState (complete_snapshot c exec pg pb)
    unfolding complete_snapshot
    complete_snapshot-Kept = search (sends_rules, keeps.finalizes, patch_finalizers-Kept) depth 12

    reconcile_new_snapshot-Follows :
        Sends (Follows backup_new) (reconcile_new_snapshot c exec pg pb)
    unfolding reconcile_new_snapshot
    reconcile_new_snapshot-Follows =
        search (sends_rules, update_status-Sends c retry, inr, begin) depth 12

    reconcile_starting_snapshot-Follows :
        Sends (Follows backup_starting) (reconcile_starting_snapshot c exec pg pb)
    unfolding reconcile_starting_snapshot
    reconcile_starting_snapshot-Follows =
        search
          (sends_rules, update_status-Sends c retry, inr, run, Sends-Follows, prepare_snapshot-Kept)
          depth 12

    settle-Follows :
        (f : ℕ → PgBackupStatus → PgBackupStatus)
        → ((now : ℕ) (st : PgBackupStatus) → Step backup_running (f now st).state)
        → Sends (Follows backup_running) (settle c exec pg pb f)
    unfolding settle
    settle-Follows f h =
        update_status_with-Sends c retry pb _ (λ old. search sends_rules)
          λ old. Yields-ask _ _ λ now. Yields-pure _ (inr (h now old.status))

    conclude-Follows :
        (x y z : Outcome) → Sends (Follows backup_running) (conclude c exec pg pb x y z)
    unfolding conclude fail_snapshots succeed_snapshots
    conclude-Follows x y z =
        search (sends_rules, settle-Follows, fail, succeed, Sends-Follows, complete_snapshot-Kept)
          depth 14

    reconcile_running_snapshot-Follows :
        (class_name : String)
        → Sends (Follows backup_running) (reconcile_running_snapshot c exec pg pb class_name)
    unfolding reconcile_running_snapshot
    reconcile_running_snapshot-Follows class_name =
        search
          (
            sends_rules,
            Sends-Follows,
            get_target_pvcs-Kept c retry poll,
            collect-Kept,
            reconcile_data_snapshot-Kept c retry poll,
            reconcile_wal_snapshot-Kept c retry poll,
            reconcile_tablespace_snapshot-Kept c retry poll,
            conclude-Follows,
          )
          depth 14

    dispatch_snapshot-Follows :
        (s : PgBackupState) (class_name : String)
        → Sends (Follows s) (dispatch_snapshot c exec pg pb s class_name)
    unfolding dispatch_snapshot
    dispatch_snapshot-Follows backup_new class_name = reconcile_new_snapshot-Follows
    dispatch_snapshot-Follows backup_starting class_name = reconcile_starting_snapshot-Follows
    dispatch_snapshot-Follows backup_running class_name =
        reconcile_running_snapshot-Follows class_name
    dispatch_snapshot-Follows backup_failed class_name =
        search (sends_rules, Sends-Follows, complete_snapshot-Kept)
    dispatch_snapshot-Follows backup_succeeded class_name =
        search (sends_rules, Sends-Follows, complete_snapshot-Kept)

    reconcile_with-Follows :
        (class_name : String)
        → Sends (Follows pb.status.state) (reconcile_with c exec pg pb class_name)
    unfolding reconcile_with
    reconcile_with-Follows class_name =
        search (sends_rules, Sends-Follows, complete_snapshot-Kept, dispatch_snapshot-Follows) depth
          12

  module _ (pb : PerconaPgBackup) (unended : is_terminal pb.status.state ≡ false) where
    refused-Follows :
        (f : PgBackupStatus → PgBackupStatus)
        → ((st : PgBackupStatus) → (f st).state ≡ backup_failed)
        → (old : PerconaPgBackup)
        → (((with_status f old).status.state ≡ old.status.state)
            ⊎ Step pb.status.state (with_status f old).status.state)
    refused-Follows f h old =
        inr
          (subst (Step pb.status.state) (sym (h old.status)) (unended-Step pb.status.state unended))

    reconcile_mode-Follows :
        (v : VolumeSnapshots) (pg : PerconaPgCluster)
        → Sends (Follows pb.status.state) (reconcile_mode c v pg pb)
    unfolding reconcile_mode
    reconcile_mode-Follows v pg =
        search
          (
            sends_rules,
            update_status-Sends c retry,
            refused-Follows,
            reconcile_with-Follows,
            offline_exec-KeepsStates,
          )
          depth 14

    pub reconcile_snapshots-Follows :
        (pg : PerconaPgCluster) → Sends (Follows pb.status.state) (reconcile_snapshots c pb pg)
    unfolding reconcile_snapshots
    reconcile_snapshots-Follows pg =
        search (sends_rules, update_status-Sends c retry, refused-Follows, reconcile_mode-Follows)
          depth 14
