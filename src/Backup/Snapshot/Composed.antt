-- ===== src/Backup/Snapshot/Composed.antt =====
-- The backup controller together with the reconciler of volume snapshots.
use percona_postgresql_opera.Prelude.{◌≡◌, inr, false}
use percona_postgresql_opera.Exec.Writes.{Sends}
use percona_postgresql_opera.Types.Backup.{PerconaPgBackup, is_terminal}
use percona_postgresql_opera.Client.{Client}
use percona_postgresql_opera.Client.Laws.{RetryLaw, PollLaw, UpsertLaw}
use percona_postgresql_opera.Backup.Reconcile.{reconcile_backup}
use percona_postgresql_opera.Backup.Transitions.Graph.{Follows}
use percona_postgresql_opera.Backup.Transitions.Reconciled.{reconcile_backup-Follows}
use percona_postgresql_opera.Backup.Snapshot.{reconcile_snapshots}
use percona_postgresql_opera.Backup.Snapshot.Follows.{reconcile_snapshots-Follows}

module _ {W : Type 0} (c : Client W) (retry : RetryLaw c) (upsert : UpsertLaw c)
    (poll : PollLaw c) where
  -- Whatever a reconciliation of a backup that has not ended does, by pgBackRest or by volume
  -- snapshots, a status write of a backup keeps the state as read or takes one step of the diagram
  -- from the state that the reconciliation found. It is assumed that RetryOnConflict, CreateOrUpdate
  -- and PollUntilContextTimeout behave as documented.
  pub reconcile_backup-snapshots_Follows :
      (pb : PerconaPgBackup)
      → is_terminal pb.status.state ≡ false
      → Sends (Follows pb.status.state) (reconcile_backup c (reconcile_snapshots c) pb)
  reconcile_backup-snapshots_Follows pb unended =
      reconcile_backup-Follows c retry (reconcile_snapshots c) upsert pb
        (λ pg. reconcile_snapshots-Follows c retry poll pb unended pg) (inr unended)
