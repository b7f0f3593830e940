-- ===== src/Backup/Transitions/Graph.antt =====
-- The diagram of a backup's states, and the writes that follow it.
use percona_postgresql_opera.Prelude.{◌≡◌, ◌⊎◌, inl, false}
use percona_postgresql_opera.Exec.{Exec}
use percona_postgresql_opera.Exec.Writes.{Sends, Sends-weaken}
use percona_postgresql_opera.Types.Backup.{
  PgBackupState, backup_new, backup_starting, backup_running, backup_failed, backup_succeeded,
  PerconaPgBackup, is_terminal,
}
use percona_postgresql_opera.Types.Write.{Write, update_backup_status}

-- The steps of a backup by pgBackRest. A backup that has ended has none.
pub data Step : PgBackupState → PgBackupState → Type 0 where
  begin : Step backup_new backup_starting
  disable : Step backup_new backup_failed
  run : Step backup_starting backup_running
  abort : Step backup_starting backup_failed
  succeed : Step backup_running backup_succeeded
  fail : Step backup_running backup_failed

pub unended-Step : (s : PgBackupState) → is_terminal s ≡ false → Step s backup_failed
unended-Step backup_new h = disable
unended-Step backup_starting h = abort
unended-Step backup_running h = fail
unended-Step backup_failed h = cc
unended-Step backup_succeeded h = cc

-- A condition on the status writes of backups, given what was read and what is written.
abbrev pub OnStatus : (PerconaPgBackup → PerconaPgBackup → Type 0) → Write → Type 0
OnStatus R (update_backup_status old new) = R old new
OnStatus R _ = Unit

pub OnStatus-weaken :
    {R S : PerconaPgBackup → PerconaPgBackup → Type 0}
    → ((old new : PerconaPgBackup) → R old new → S old new)
    → (e : Write) → OnStatus R e
    → OnStatus S e
OnStatus-weaken f (update_backup_status old new) h = f old new h
OnStatus-weaken f _ h = tt

-- The write leaves the state as it was read.
abbrev pub KeepsState : Write → Type 0
KeepsState = OnStatus (λ old new. new.status.state ≡ old.status.state)

-- The write of a reconciliation that found the backup in this state.
abbrev pub Follows : PgBackupState → Write → Type 0
Follows s = OnStatus (λ old new. (new.status.state ≡ old.status.state) ⊎ Step s new.status.state)

pub Sends-Follows :
    {W A : Type 0} (s : PgBackupState) (m : Exec W Write A)
    → Sends KeepsState m
    → Sends (Follows s) m
Sends-Follows s m k = Sends-weaken m (OnStatus-weaken (λ old new h. inl h)) k
