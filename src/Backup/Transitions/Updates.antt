-- ===== src/Backup/Transitions/Updates.antt =====
-- What an update of a backup's status writes.
use percona_postgresql_opera.Exec.{Exec}
use percona_postgresql_opera.Exec.Writes.{Sends, Sends-bind, sends_rules}
use percona_postgresql_opera.Exec.Yields.{Yields, Yields-pure, Sends-bind_of}
use percona_postgresql_opera.Types.Backup.{PgBackupStatus, PerconaPgBackup}
use percona_postgresql_opera.Types.Write.{Write, update_backup_status}
use percona_postgresql_opera.Client.{Client}
use percona_postgresql_opera.Client.Laws.{RetryLaw, Sends-perform, Sends-retry}
use percona_postgresql_opera.Backup.Status.{with_status, update_status_with, update_status}
use percona_postgresql_opera.Backup.Transitions.Graph.{OnStatus}

module _ {W : Type 0} (c : Client W) (law : RetryLaw c)
    {R : PerconaPgBackup → PerconaPgBackup → Type 0} where
  pub update_status_with-Sends :
      (b : PerconaPgBackup) (f : PerconaPgBackup → Exec W Write PerconaPgBackup)
      → ((old : PerconaPgBackup) → Sends (OnStatus R) (f old))
      → ((old : PerconaPgBackup) → Yields (R old) (f old))
      → Sends (OnStatus R) (update_status_with c b f)
  unfolding update_status_with
  update_status_with-Sends b f k y = Sends-retry c _ law (
      Sends-bind _ _ (search sends_rules) λ old.
        Sends-bind_of _ _ (k old) (y old) λ new h. Sends-perform c (update_backup_status old new) h)

  pub update_status-Sends :
      (b : PerconaPgBackup) (f : PgBackupStatus → PgBackupStatus)
      → ((old : PerconaPgBackup) → R old (with_status f old))
      → Sends (OnStatus R) (update_status c b f)
  unfolding update_status
  update_status-Sends b f h =
      update_status_with-Sends b _ (λ old. search sends_rules)
        λ old. Yields-pure (with_status f old) (h old)
