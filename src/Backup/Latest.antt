-- ===== src/Backup/Latest.antt =====
-- `GetLatestBackup` of percona/k8s/backup.go.
pub mod Bounds
pub mod Choice
pub mod Untimed
use percona_postgresql_opera.Prelude.{
  ℕ, String, Bool, true, false, ltb, if◌then◌else◌, List, [], ◌∷◌, Option, none, some, deref,
}
use percona_postgresql_opera.Exec.{
  Err, no_backups, running_backup, errorf, Exec, pure, raise, read, ◌>>=◌,
}
use percona_postgresql_opera.Types.Cluster.{PerconaPgCluster}
use percona_postgresql_opera.Types.Backup.{
  BackupMethod, method_pgbackrest, method_volume_snapshot, PgBackupState, backup_failed,
  backup_succeeded, PgBackupStatus, PerconaPgBackup, method_of,
}
use percona_postgresql_opera.Types.Write.{Write}
use percona_postgresql_opera.Client.{Client}

-- The loop's variables. `latest` is `none` while it points to an empty backup.
pub record Scan : Type 0 where
  pub latest : Option PerconaPgBackup
  pub running_backup_exists : Bool

-- `latest.Status.CompletedAt`
abbrev pub latest_completed_at : Option PerconaPgBackup → Option ℕ
latest_completed_at none = none
latest_completed_at (some b) = b.status.completed_at

abbrev pub is_later : ℕ → Option ℕ → Bool
is_later completed_at none = true
is_later completed_at (some t) = ltb t completed_at

-- A succeeded backup with no time of completion counts as completed when it was created.
abbrev pub completion_of : PerconaPgBackup → ℕ
completion_of b = deref b.status.completed_at b.meta.creation_timestamp

unfoldable pub scan_state : PgBackupState → PerconaPgBackup → Scan → Scan
scan_state backup_succeeded b s =
    if is_later (completion_of b) (latest_completed_at s.latest)
    then record s { latest = some b }
    else s
scan_state backup_failed b s = s
scan_state _ b s = record s { running_backup_exists = true }

unfoldable pub scan_method : BackupMethod → PerconaPgBackup → Scan → Scan
unfolding scan_state
scan_method method_volume_snapshot b s = s
scan_method method_pgbackrest b s = scan_state b.status.state b s

unfoldable pub scan_one : PerconaPgBackup → Scan → Scan
unfolding scan_method
scan_one b s = scan_method (method_of b.spec) b s

unfoldable pub scan : List PerconaPgBackup → Scan → Scan
scan [] s = s
scan (b ∷ bs) s = scan bs (scan_one b s)

module _ {W : Type 0} where
  -- What follows the loop: `latest` counts only if it has a time of completion.
  unfoldable pub chosen : Option PerconaPgBackup → Option ℕ → Bool → Exec W Write PerconaPgBackup
  chosen (some b) (some t) running = pure b
  chosen _ _ running =
      if running then raise running_backup else raise (errorf "no completed backups found")

  unfoldable pub latest_of : List PerconaPgBackup → Exec W Write PerconaPgBackup
  unfolding scan chosen
  latest_of [] = raise no_backups
  latest_of (b ∷ bs) =
      let s = scan (b ∷ bs) (record { latest = none; running_backup_exists = false }) in
      chosen s.latest (latest_completed_at s.latest) s.running_backup_exists

  unfoldable pub get_latest_backup : Client W → PerconaPgCluster → Exec W Write PerconaPgBackup
  unfolding latest_of
  get_latest_backup c cr = do backups ← read (c.list_backups cr.meta.name); latest_of backups
