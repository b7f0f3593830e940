-- ===== src/Backup/Locking.antt =====
-- `tryAcquireLease`, `releaseLeaseIfNeeded` and `handleLease`: one backup of a cluster at a time.
pub mod Staleness
use percona_postgresql_opera.Prelude.{
  String, Bool, true, false, not, ◌&&◌, ◌||◌, ◌==◌, if◌then◌else◌, Option, none, some, is_some,
}
use percona_postgresql_opera.Exec.{
  Err, lease_already_held, Exec, pure, raise, read, ask, attempt, ◌>>=◌, ◌>>◌, case_of,
  is_not_found, is_conflict, is_already_exists,
}
use percona_postgresql_opera.Types.Meta.{
  Condition, ConditionStatus, condition_true, condition_false, condition_backup_lease_acquired,
  finalizer_snapshot_in_progress,
}
use percona_postgresql_opera.Types.Cluster.{PerconaPgCluster}
use percona_postgresql_opera.Types.Backup.{PerconaPgBackup, is_terminal}
use percona_postgresql_opera.Types.Write.{Write}
use percona_postgresql_opera.Client.{Client}
use percona_postgresql_opera.Lease.{acquire_lease, release_lease}
use percona_postgresql_opera.Backup.Status.{update_status_with, update_status, with_status}
use percona_postgresql_opera.Backup.Holder.{
  backup_lease_name, backup_lease_holder, parse_backup_lease_holder,
}

abbrev pub is_already_held : Err → Bool
is_already_held lease_already_held = true
is_already_held _ = false

abbrev pub lease_condition : PerconaPgBackup → Bool → Condition
lease_condition backup acquired = record {
  kind = condition_backup_lease_acquired;
  status = if acquired then condition_true else condition_false;
  reason = if acquired then "LeaseAcquired" else "LeaseAlreadyHeld";
  message = "";
  last_transition_time = 0;
  observed_generation = backup.meta.generation;
}

module _ {W : Type 0} (c : Client W) where
  -- The backup that holds the lease has ended, and left no snapshot to undo.
  unfoldable pub has_ended : PerconaPgBackup → Bool
  has_ended b =
      is_terminal b.status.state
      && not (c.contains_finalizer b.meta.finalizers finalizer_snapshot_in_progress)

  unfoldable pub check_stale : String → Exec W Write Bool
  check_stale current_holder =
      let (name, uid) = parse_backup_lease_holder current_holder in
      if (name == "") || (uid == "") then pure true else (do
        r ← attempt (read (c.get_backup name))
        case_of r (λ b. pure (if not (b.meta.uid == uid) then true else has_ended b))
            (λ e. if is_not_found e then pure true else raise e))

  abbrev acquired_of : Err → Exec W Write Bool
  acquired_of e =
      if is_already_held e || (is_already_exists e || is_conflict e) then pure false else raise e

  -- The function given to `UpdateStatus`; `SetStatusCondition` reads the clock.
  unfoldable pub with_condition : Condition → PerconaPgBackup → Exec W Write PerconaPgBackup
  with_condition cond bcp = do
    now ← ask c.now
    pure (
        with_status (λ st. record st { conditions = c.set_status_condition now st.conditions cond })
          bcp)

  -- The condition is written only if it is not there yet with that status.
  unfoldable pub record_lease : PerconaPgBackup → Bool → Exec W Write (Unit {0})
  unfolding with_condition
  record_lease backup acquired =
      let cond = lease_condition backup acquired in
      if c.is_status_condition_present_and_equal backup.status.conditions
        condition_backup_lease_acquired cond.status
      then pure tt
      else update_status_with c backup (with_condition cond)

  unfoldable pub try_acquire_lease : PerconaPgBackup → Exec W Write Bool
  unfolding check_stale has_ended
  try_acquire_lease backup = do
    r ← attempt (
        acquire_lease c (backup_lease_name backup.spec.pg_cluster) (backup_lease_holder backup.meta)
          (some check_stale))
    acquired ← case_of r (λ _. pure true) acquired_of
    record_lease backup acquired
    pure acquired

  unfoldable pub release_lease_if_needed : PerconaPgBackup → Exec W Write (Unit {0})
  release_lease_if_needed backup =
      if not (
        c.is_status_condition_present_and_equal backup.status.conditions
          condition_backup_lease_acquired condition_true)
      then pure tt
      else (do
        release_lease c (backup_lease_name backup.spec.pg_cluster) (backup_lease_holder backup.meta)
        update_status c backup λ st. record st {
          conditions = c.remove_status_condition st.conditions condition_backup_lease_acquired;
        })

  -- The backup gives the lease back: it has ended or is being deleted, and either no snapshot is
  -- to be undone or there is no cluster to undo it on.
  unfoldable pub gives_back : Option PerconaPgCluster → PerconaPgBackup → Bool
  gives_back cluster backup =
      (is_terminal backup.status.state || backup.meta.is_deleting)
      && (not (is_some cluster)
          || not (c.contains_finalizer backup.meta.finalizers finalizer_snapshot_in_progress))

  -- `handleLease`: whether the reconciliation can go on
  unfoldable pub handle_lease : Option PerconaPgCluster → PerconaPgBackup → Exec W Write Bool
  unfolding gives_back try_acquire_lease release_lease_if_needed
  handle_lease cluster backup =
      if gives_back cluster backup
      then (do release_lease_if_needed backup; pure true)
      else try_acquire_lease backup
