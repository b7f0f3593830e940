-- ===== src/Examples/Backups.antt =====
-- The theorems on backups at concrete inputs.
use percona_postgresql_opera.Prelude.{
  lookup, ℕ, ◌≡◌, ◌↔◌, refl, inl, true, [], ◌∷◌, none, some, eq_iff, arith,
}
use percona_postgresql_opera.Exec.{◌>>=◌, read, on_option, send, Exec, pure, St, ok, err, errorf}
use percona_postgresql_opera.Exec.Writes.{Sends, Sends-pure}
use percona_postgresql_opera.Types.Cluster.{PerconaPgCluster, PostgresCluster}
use percona_postgresql_opera.Types.Meta.{
  Job, label_pgbackrest_backup, backup_manual, crunchy_backup_in_progress,
}
use percona_postgresql_opera.Client.{Client, perform}
use percona_postgresql_opera.Types.Backup.{backup_new, backup_succeeded, PerconaPgBackup}
use percona_postgresql_opera.Types.Write.{Write}
use percona_postgresql_opera.Backup.Holder.{backup_lease_holder, parse_backup_lease_holder}
use percona_postgresql_opera.Backup.Holder.RoundTrip.{
  has_bar, parse_backup_lease_holder-backup_lease_holder,
}
use percona_postgresql_opera.Backup.Locking.{check_stale}
use percona_postgresql_opera.Backup.Locking.Staleness.{IsGone, check_stale-IsGone}
use percona_postgresql_opera.Backup.Latest.{latest_of}
use percona_postgresql_opera.Backup.Latest.Choice.{IsLatest, latest_of-IsLatest}
use percona_postgresql_opera.Backup.Latest.Untimed.{latest_of_untimed}
use percona_postgresql_opera.Backup.Jobs.{start_backup, check_backup_job}
use percona_postgresql_opera.Backup.Jobs.Claim.{Claims, start_backup-Claims}
use percona_postgresql_opera.Backup.Repo.{destination_of, storage_type_of}
use percona_postgresql_opera.Backup.Repo.Scheme.{HasScheme, storage_type_of-HasScheme}
use percona_postgresql_opera.Backup.Reconcile.{reconcile_backup}
use percona_postgresql_opera.Backup.Reconcile.States.{observe}
use percona_postgresql_opera.Backup.Finish.{
  finish_backup, get_backup_in_progress, delete_annotation,
}
use percona_postgresql_opera.Backup.Annotation.{to_crunchy_annotation}
use percona_postgresql_opera.Controller.{has_condition}
use percona_postgresql_opera.Exec.Retry.{last}
use percona_postgresql_opera.Backup.Finish.Completed.{Completed, finish_backup-Completed}
use percona_postgresql_opera.Backup.Transitions.Outcome.{HasOutcome, observe-HasOutcome}
use percona_postgresql_opera.Backup.Transitions.Graph.{Follows}
use percona_postgresql_opera.Backup.Transitions.Reconciled.{reconcile_backup-Follows}
use percona_postgresql_opera.Examples.Objects.{
  named, crunchy1, backup1, backup_in, cluster1, job1, repo1,
}
use percona_postgresql_opera.Examples.Server.{server, server-RetryLaw, server-UpsertLaw}

abbrev no_snapshots : PerconaPgBackup → PerconaPgCluster → Exec (Unit {0}) Write ℕ
no_snapshots pb pg = pure 0

reconcile_backup-Follows_example :
    Sends (Follows backup_new) (reconcile_backup server no_snapshots backup1)
reconcile_backup-Follows_example =
    reconcile_backup-Follows server server-RetryLaw no_snapshots server-UpsertLaw backup1
      (λ pg. Sends-pure 0) (inl (ground (arith, eq_iff "repo1" "")))

abbrev begin_state : St (Unit {0}) Write
begin_state = record { world = tt; log = [] }

abbrev early : PerconaPgBackup
early = backup_in backup_succeeded (some 50) "early"

abbrev late : PerconaPgBackup
late = backup_in backup_succeeded (some 70) "late"

abbrev untimed : PerconaPgBackup
untimed = backup_in backup_succeeded none "untimed"

check_stale-IsGone_example :
    (check_stale server (backup_lease_holder backup1.meta) begin_state).0 ≡ ok true
    ↔ IsGone server backup1.meta (server.get_backup "backup1" tt).0
unfolding has_bar
check_stale-IsGone_example =
    check_stale-IsGone server backup1.meta begin_state (ground (arith, eq_iff "backup1" ""))
      (ground (arith, eq_iff "u1" "")) refl refl

parse_backup_lease_holder-backup_lease_holder_example :
    parse_backup_lease_holder (backup_lease_holder backup1.meta) ≡ ("backup1", "u1")
unfolding has_bar
parse_backup_lease_holder-backup_lease_holder_example =
    parse_backup_lease_holder-backup_lease_holder backup1.meta refl refl

latest_of-IsLatest_example :
    (b : PerconaPgBackup) × (latest_of (early ∷ backup1 ∷ late ∷ []) begin_state
      ≡ (ok b, begin_state))
    × IsLatest (early ∷ backup1 ∷ late ∷ []) b
latest_of-IsLatest_example =
    latest_of-IsLatest (early ∷ backup1 ∷ late ∷ []) begin_state
      (λ h. (50, refl), (λ h. absurd (cc h.1), (λ h. (70, refl), tt))) (inl (refl, refl))

start_backup-Claims_example : Sends (Claims backup1) (start_backup server backup1)
start_backup-Claims_example = start_backup-Claims server server-RetryLaw backup1

storage_type_of-HasScheme_example :
    HasScheme (storage_type_of repo1) (destination_of repo1 "/backups")
storage_type_of-HasScheme_example = storage_type_of-HasScheme repo1 "/backups" refl

latest_of_untimed_example :
    latest_of (early ∷ untimed ∷ []) begin_state
    ≡ (err (errorf "no completed backups found"), begin_state)
latest_of_untimed_example =
    latest_of_untimed early untimed 50 begin_state (refl, refl) (refl, refl) refl refl (omega arith)

observe-HasOutcome_example : Sends (HasOutcome job1) (observe server (some cluster1) backup1 job1)
observe-HasOutcome_example = observe-HasOutcome server server-RetryLaw (some cluster1) backup1 job1

-- The job is a manual backup that has not ended, and crunchy's cluster shows the backup in progress.
abbrev manual_job : Job
manual_job = record job1 {
  meta = record (named "job1") { labels = (label_pgbackrest_backup, backup_manual) ∷ [] };
  conditions = [];
}

abbrev marked_crunchy : PostgresCluster
marked_crunchy = record crunchy1 {
  meta = record (named "cluster1") { annotations = (crunchy_backup_in_progress, "backup1") ∷ [] };
}

abbrev finishing_server : Client (Unit {0})
finishing_server = record server { get_crunchy = λ name w. (ok marked_crunchy, w) }

finish_backup-Completed_example :
    Completed finishing_server
      (record { runs = λ m s. last refl })
      backup1
      (some manual_job)
      (finish_backup finishing_server backup1 (some manual_job) begin_state).1.log
unfolding finish_backup ◌>>=◌ check_backup_job has_condition lookup get_backup_in_progress read
    to_crunchy_annotation delete_annotation on_option perform send
finish_backup-Completed_example =
    finish_backup-Completed finishing_server (record { runs = λ m s. last refl }) backup1
      (some manual_job) begin_state
      (finish_backup finishing_server backup1 (some manual_job) begin_state).1 5 refl
