-- ===== src/Backup/Jobs/Claim.antt =====
-- Which clusters `startBackup` claims for a backup.
use percona_postgresql_opera.Prelude.{
  ◌≡◌, ◌⊎◌, refl, String, false, not, ◌&&◌, ◌==◌, arith, eq_iff, some, deref, value_at, lookup,
  lookup-insert,
}
use percona_postgresql_opera.Exec.Writes.{Sends, Sends-if, Sends-raise, sends_rules}
use percona_postgresql_opera.Types.Meta.{pgbackrest_backup, annotation_backup_in_progress}
use percona_postgresql_opera.Types.Cluster.{PerconaPgCluster, PgBackRestManualBackup}
use percona_postgresql_opera.Types.Backup.{PerconaPgBackup}
use percona_postgresql_opera.Types.Write.{Write, update_cluster}
use percona_postgresql_opera.Client.{Client}
use percona_postgresql_opera.Client.Laws.{RetryLaw, Sends-perform, Sends-retry}
use percona_postgresql_opera.Backup.Jobs.{manual_of, marked_for, claim_cluster, start_backup}

-- The backup that the cluster's annotation names, "" for none.
abbrev pub in_progress : PerconaPgCluster → String
in_progress pg = value_at pg.meta.annotations annotation_backup_in_progress

-- A cluster that is free or the backup's already, and that is marked for it afterwards.
pub record Claim (pb : PerconaPgBackup) (old new : PerconaPgCluster) : Type 0 where
  pub free : (in_progress old ≡ "") ⊎ (in_progress old ≡ pb.meta.name)
  pub marked : in_progress new ≡ pb.meta.name
  pub requested : value_at new.meta.annotations pgbackrest_backup ≡ pb.meta.name
  pub manual : PgBackRestManualBackup
  pub manual_is : new.backups.pgbackrest.manual ≡ some manual
  pub repo_name : manual.repo_name ≡ deref pb.spec.repo_name ""
  pub options : manual.options ≡ pb.spec.options
  pub env : manual.env ≡ pb.spec.container_options.env
  pub env_from : manual.env_from ≡ pb.spec.container_options.env_from
  pub others :
      (k : String)
      → (pgbackrest_backup == k) ≡ false
      → (annotation_backup_in_progress == k) ≡ false
      → lookup new.meta.annotations k ≡ lookup old.meta.annotations k

-- Nothing but a claim is written.
abbrev pub Claims : PerconaPgBackup → Write → Type 0
Claims pb (update_cluster old new) = Claim pb old new
Claims pb _ = ⊥

marked_for-Claim :
    (pb : PerconaPgBackup) (pg : PerconaPgCluster)
    → (not (in_progress pg == "") && not (in_progress pg == pb.meta.name)) ≡ false
    → Claim pb pg (marked_for pb pg)
marked_for-Claim pb pg h = record {
  free = ground (arith, eq_iff (in_progress pg) "", eq_iff (in_progress pg) pb.meta.name);
  marked = simp lookup-insert;
  requested = simp lookup-insert;
  manual = manual_of pb;
  manual_is = refl;
  repo_name = refl;
  options = refl;
  env = refl;
  env_from = refl;
  others = λ k a b. simp (lookup-insert, a, b);
}

module _ {W : Type 0} (c : Client W) (law : RetryLaw c) (pb : PerconaPgBackup) where
  claim_cluster-Claims : (pg : PerconaPgCluster) → Sends (Claims pb) (claim_cluster c pb pg)
  unfolding claim_cluster
  claim_cluster-Claims pg =
      Sends-if _ _ _ (λ _. Sends-raise _)
        (λ h. Sends-perform c (update_cluster pg (marked_for pb pg)) (marked_for-Claim pb pg h))

  -- `startBackup` writes nothing but the cluster, and that only where no other backup is marked as
  -- in progress on the cluster that it has just read; then it marks it for this backup, asks for a
  -- manual backup with the backup's repository, options and environment, and leaves all other annotations.
  pub start_backup-Claims : Sends (Claims pb) (start_backup c pb)
  unfolding start_backup
  start_backup-Claims = search (sends_rules, Sends-retry c _ law, claim_cluster-Claims) depth 12
