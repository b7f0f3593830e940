-- ===== src/Examples/Snapshots.antt =====
-- The theorems on volume snapshots at small objects.
use percona_postgresql_opera.Prelude.{
  true, false, String, ◌≡◌, refl, ◌≢◌, false, List, [], ◌∷◌, none, some, arith, eq_iff, lookup, sym,
  ap, subst, ◌∙◌,
}
use percona_postgresql_opera.Exec.{ok, St, ◌>>=◌, read, send}
use percona_postgresql_opera.Exec.Writes.{Sends}
use percona_postgresql_opera.Types.Meta.{annotation_instance_suspended, annotation_backup_target}
use percona_postgresql_opera.Types.Cluster.{VolumeSnapshots}
use percona_postgresql_opera.Types.Backup.{backup_new, backup_running, PerconaPgBackup}
use percona_postgresql_opera.Types.Restore.{PerconaPgRestore, restore_new}
use percona_postgresql_opera.Types.Volume.{StatefulSet}
use percona_postgresql_opera.Types.Write.{Write, update_backup_status}
use percona_postgresql_opera.Client.{Client, perform}
use percona_postgresql_opera.Exec.Retry.{last}
use percona_postgresql_opera.Exec.Inversion.{ok-inj}
use percona_postgresql_opera.Backup.Status.{with_status, in_state, update_status}
use percona_postgresql_opera.Backup.Status.Written.{update_status-Writes}
use percona_postgresql_opera.Backup.Reconcile.{reconcile_backup}
use percona_postgresql_opera.Backup.Transitions.Graph.{Follows}
use percona_postgresql_opera.Backup.Snapshot.{reconcile_snapshots, reconcile_running_snapshot}
use percona_postgresql_opera.Backup.Snapshot.Composed.{reconcile_backup-snapshots_Follows}
use percona_postgresql_opera.Backup.Snapshot.Offline.{
  offline_exec, get_backup_target, run_checkpoint, offline_prepare, offline_finalize,
  suspend_and_wait, resume_and_wait,
}
use percona_postgresql_opera.Backup.Snapshot.Follows.{offline_exec-KeepsStates}
use percona_postgresql_opera.Backup.Snapshot.Suspended.{
  offline_prepare-IsDown, offline_finalize-IsServing,
}
use percona_postgresql_opera.Backup.Snapshot.Unready.{
  NeverSucceeds, reconcile_running_snapshot-NeverSucceeds,
}
use percona_postgresql_opera.Instance.{suspend_instance, unsuspend_instance}
use percona_postgresql_opera.Instance.Suspension.{IsDown, IsServing, Answers}
use percona_postgresql_opera.Restore.Reconcile.{reconcile_restore}
use percona_postgresql_opera.Restore.Transitions.{Steps}
use percona_postgresql_opera.Restore.Snapshot.{
  restore_from_snapshot, reconcile_new_from_snapshot, reconcile_starting_from_snapshot,
}
use percona_postgresql_opera.Restore.Snapshot.Allowed.{Allowed}
use percona_postgresql_opera.Restore.Snapshot.Reconciled.{
  restore_from_snapshot-Allowed, reconcile_restore-snapshots_Steps,
}
use percona_postgresql_opera.Restore.Snapshot.Deadlock.{run_pair, new_restores_deadlock}
use percona_postgresql_opera.Restore.Snapshot.Waiting.{
  NoStatus, reconcile_new_from_snapshot_waits, reconcile_starting_from_snapshot-NoStatus,
}
use percona_postgresql_opera.Examples.Objects.{named, cluster1, backup1, restore1, instance1}
use percona_postgresql_opera.Examples.Server.{
  server, server-RetryLaw, server-UpsertLaw, server-PollLaw, poll_once-Polled,
}
use mathlib.Core.List.{Memᴰ}

abbrev start_state : St (Unit {0}) Write
start_state = record { world = tt; log = [] }

abbrev snapshots1 : VolumeSnapshots
snapshots1 = record {
  mode = "offline";
  class_name = "class";
  offline_config =
      some (record { checkpoint = some (record { enabled = some false; timeout_seconds = none }) });
}

abbrev targeted : PerconaPgBackup
targeted = record backup1 {
  meta = record backup1.meta {
    annotations = (annotation_backup_target, "cluster1-instance1") ∷ [];
  };
}

abbrev down1 : StatefulSet
down1 = record {
  meta = record instance1.meta { annotations = (annotation_instance_suspended, "") ∷ [] };
  replicas = 0;
  ready_replicas = 0;
  observed_generation = 1;
  update_revision = "rev-1";
}

-- A server whose instance is suspended.
abbrev server_down : Client (Unit {0})
server_down = record server { get_stateful_set = λ name w. (ok down1, w) }

reconcile_backup-snapshots_Follows_example :
    Sends (Follows backup_new) (reconcile_backup server (reconcile_snapshots server) backup1)
reconcile_backup-snapshots_Follows_example =
    reconcile_backup-snapshots_Follows server server-RetryLaw server-UpsertLaw server-PollLaw
      backup1 refl

offline_prepare-IsDown_example : Answers server_down "cluster1-instance1" IsDown tt
unfolding offline_prepare suspend_and_wait get_backup_target run_checkpoint suspend_instance ◌>>=◌
    lookup read
offline_prepare-IsDown_example =
    offline_prepare-IsDown server_down (record { polls = poll_once-Polled }) cluster1 targeted
      start_state start_state snapshots1 "cluster1-instance1" refl

offline_finalize-IsServing_example :
    (target : String) × (s₁ : St (Unit {0}) Write) × (get_backup_target server cluster1 targeted
        start_state
      ≡ (ok target, s₁))
    × Answers server target IsServing tt
unfolding offline_finalize resume_and_wait get_backup_target unsuspend_instance ◌>>=◌ lookup read
offline_finalize-IsServing_example =
    offline_finalize-IsServing server server-PollLaw cluster1 targeted start_state start_state refl

reconcile_running_snapshot-NeverSucceeds_example : Sends NeverSucceeds (
    reconcile_running_snapshot server
      (offline_exec server snapshots1 cluster1 targeted)
      cluster1
      targeted
      "class")
reconcile_running_snapshot-NeverSucceeds_example =
    reconcile_running_snapshot-NeverSucceeds server server-RetryLaw server-PollLaw
      (offline_exec server snapshots1 cluster1 targeted)
      (offline_exec-KeepsStates server server-RetryLaw server-PollLaw snapshots1 cluster1 targeted)
      cluster1 targeted "class" (λ w w' found e. absurd (cc e))

update_status-Writes_example :
    (old : PerconaPgBackup) × (before : List Write) × (w w' : Unit {0}) × (server.get_backup
        "backup1" w
      ≡ (ok old, w'))
    × (update_backup_status backup1 (with_status (in_state backup_running) backup1) ∷ []
        ≡ update_backup_status old (with_status (in_state backup_running) old) ∷ before)
unfolding update_status ◌>>=◌ read perform send
update_status-Writes_example =
    update_status-Writes server server-RetryLaw backup1 (in_state backup_running) start_state
      (update_status server backup1 (in_state backup_running) start_state).1 refl

abbrev restore2 : PerconaPgRestore
restore2 = record restore1 { meta = named "restore2" }

restore_from_snapshot-Allowed_example :
    Sends (Allowed restore1 restore_new) (restore_from_snapshot server cluster1 restore1)
restore_from_snapshot-Allowed_example =
    restore_from_snapshot-Allowed server server-RetryLaw restore1 cluster1

reconcile_restore-snapshots_Steps_example :
    Sends (Steps restore_new) (reconcile_restore server (restore_from_snapshot server) restore1)
reconcile_restore-snapshots_Steps_example =
    reconcile_restore-snapshots_Steps server server-RetryLaw restore1

renamed : restore2.meta.name ≢ restore1.meta.name
renamed = ground (arith, eq_iff "restore2" "restore1")

reconcile_new_from_snapshot_waits_example :
    ((reconcile_new_from_snapshot server cluster1 restore2 start_state).0 ≡ ok 5)
    × ((reconcile_new_from_snapshot server cluster1 restore2 start_state).1.log ≡ [])
reconcile_new_from_snapshot_waits_example =
    reconcile_new_from_snapshot_waits server cluster1 restore2 restore1 (restore1 ∷ []) start_state
      tt refl (Memᴰ.head refl)
      (record { of_cluster = refl; unended = refl; renamed = λ e. renamed (sym e) })

-- A server with two restores and one instance, which is up.
abbrev server_two : Client (Unit {0})
server_two = record server {
  list_restores = λ w. (ok (restore1 ∷ restore2 ∷ []), w);
  list_stateful_sets = λ name w. (ok (instance1 ∷ []), w);
}

new_restores_deadlock_example :
    (run_pair server_two cluster1 restore2 restore1
      (true ∷ true ∷ false ∷ true ∷ [])
      start_state).log
    ≡ []
new_restores_deadlock_example =
    new_restores_deadlock server_two cluster1 restore2 restore1 start_state (refl, refl)
      (refl, refl) renamed
      (λ t same. (restore1 ∷ restore2 ∷ [], tt, refl, Memᴰ.tail (Memᴰ.head refl), Memᴰ.head refl))
      (true ∷ true ∷ false ∷ true ∷ [])

reconcile_starting_from_snapshot-NoStatus_example :
    Sends NoStatus (reconcile_starting_from_snapshot server_two cluster1 restore1)
reconcile_starting_from_snapshot-NoStatus_example =
    reconcile_starting_from_snapshot-NoStatus server_two (record { runs = λ m s. last refl })
      cluster1 restore1 instance1
      (λ w w' xs e. subst (Memᴰ instance1) (ok-inj (ap (λ p. p.0) e)) (Memᴰ.head refl))
      (λ w w' sts e down.
        let one : instance1.replicas ≡ 0 =
          ap (λ x. x.replicas) (ok-inj (ap (λ p. p.0) e)) ∙ down.no_replicas in
        absurd (omega arith))
