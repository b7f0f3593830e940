-- ===== src/Backup/Status.antt =====
-- Writing a backup's status (perconapgbackup_types.go), failing a backup, its finalizer.
pub mod Written
use percona_postgresql_opera.Prelude.{String, if◌then◌else◌}
use percona_postgresql_opera.Exec.{Exec, pure, read, ◌>>=◌}
use percona_postgresql_opera.Types.Meta.{finalizer_delete_backup}
use percona_postgresql_opera.Types.Backup.{
  PgBackupState, backup_failed, PgBackupStatus, PerconaPgBackup,
}
use percona_postgresql_opera.Types.Write.{Write, update_backup_status, patch_backup}
use percona_postgresql_opera.Client.{Client, perform}

abbrev pub with_status : (PgBackupStatus → PgBackupStatus) → PerconaPgBackup → PerconaPgBackup
with_status f b = record b { status = f b.status }

abbrev pub failed_with : String → PgBackupStatus → PgBackupStatus
failed_with reason st = record st { state = backup_failed; error = reason }

abbrev pub in_state : PgBackupState → PgBackupStatus → PgBackupStatus
in_state x st = record st { state = x }

module _ {W : Type 0} (c : Client W) where
  -- `UpdateStatus` with a function that may itself fail or read the clock
  unfoldable pub update_status_with :
      PerconaPgBackup → (PerconaPgBackup → Exec W Write PerconaPgBackup) → Exec W Write (Unit {0})
  update_status_with pg_backup f = c.retry_on_conflict do
    bcp ← read (c.get_backup pg_backup.meta.name)
    bcp' ← f bcp
    perform c (update_backup_status bcp bcp')

  -- `UpdateStatus`: what is written is made of the backup as the server has it.
  unfoldable pub update_status :
      PerconaPgBackup → (PgBackupStatus → PgBackupStatus) → Exec W Write (Unit {0})
  unfolding update_status_with
  update_status pg_backup f = update_status_with pg_backup (λ bcp. pure (with_status f bcp))

  -- The write of `failBackup`; `failed_in_memory` is what it makes of its argument.
  unfoldable pub fail_backup : PerconaPgBackup → String → Exec W Write (Unit {0})
  unfolding update_status
  fail_backup pg_backup reason = update_status pg_backup (failed_with reason)

  abbrev pub failed_in_memory : String → PerconaPgBackup → PerconaPgBackup
  failed_in_memory reason = with_status (failed_with reason)

  -- What `AddFinalizer` makes of the backup.
  unfoldable pub finalized : PerconaPgBackup → PerconaPgBackup
  finalized pg_backup = record pg_backup {
    meta = record pg_backup.meta {
      finalizers = (c.add_finalizer pg_backup.meta.finalizers finalizer_delete_backup).0;
    };
  }

  -- The write of `ensureFinalizers`, which leaves its argument as `finalized`.
  unfoldable pub ensure_finalizers : PerconaPgBackup → Exec W Write (Unit {0})
  unfolding finalized
  ensure_finalizers pg_backup =
      if (c.add_finalizer pg_backup.meta.finalizers finalizer_delete_backup).1
      then perform c (patch_backup pg_backup (finalized pg_backup))
      else pure tt
