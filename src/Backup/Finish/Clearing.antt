-- ===== src/Backup/Finish/Clearing.antt =====
-- What finishing a backup changes.
use percona_postgresql_opera.Prelude.{
  ◌≡◌, ◌⊎◌, inl, inr, refl, String, false, ◌==◌, none, some, lookup, lookup-delete,
}
use percona_postgresql_opera.Exec.Writes.{Sends, sends_rules}
use percona_postgresql_opera.Types.Meta.{
  Job, pgbackrest_backup, annotation_backup_in_progress, label_cluster, label_pgbackrest,
}
use percona_postgresql_opera.Types.Cluster.{PgBackRestStatus, PerconaPgCluster, PostgresCluster}
use percona_postgresql_opera.Types.Write.{
  Write, update_cluster, update_crunchy_status, update_job, update_backup_status,
  set_backup_annotations,
}
use percona_postgresql_opera.Client.{Client}
use percona_postgresql_opera.Client.Laws.{RetryLaw, Sends-perform, Sends-retry}
use percona_postgresql_opera.Backup.Finish.{
  without_annotation, without_labels, without_manual_backup, delete_annotation,
}

-- One of the two annotations of a backup is gone, the rest of the cluster is as it was.
pub record Cleared (old new : PerconaPgCluster) : Type 0 where
  pub gone :
      (lookup new.meta.annotations pgbackrest_backup ≡ none)
      ⊎ (lookup new.meta.annotations annotation_backup_in_progress ≡ none)
  pub others :
      (k : String)
      → (pgbackrest_backup == k) ≡ false
      → (annotation_backup_in_progress == k) ≡ false
      → lookup new.meta.annotations k ≡ lookup old.meta.annotations k
  pub same : record new { meta = old.meta } ≡ old

-- The job is no longer selected as one of a cluster's.
pub record Unlabelled (old new : Job) : Type 0 where
  pub cluster : lookup new.meta.labels label_cluster ≡ none
  pub pgbackrest : lookup new.meta.labels label_pgbackrest ≡ none
  pub same : record new { meta = old.meta } ≡ old

-- A write of `finishBackup`.
abbrev pub Clears : Write → Type 0
Clears (update_cluster old new) = Cleared old new
Clears (update_job old new) = Unlabelled old new
Clears (update_crunchy_status old new) =
    (st : PgBackRestStatus) × (new.status.pgbackrest ≡ some st) × (st.manual_backup ≡ none)
Clears (update_backup_status old new) = new.status.state ≡ old.status.state
Clears (set_backup_annotations pod repo name annotations) = Unit
Clears _ = ⊥

pub without_request_annotation-Cleared :
    (pg : PerconaPgCluster) → Cleared pg (without_annotation pgbackrest_backup pg)
without_request_annotation-Cleared pg = record {
  gone = inl (simp lookup-delete);
  others = λ k a b. simp (lookup-delete, a);
  same = refl;
}

pub without_progress_annotation-Cleared :
    (pg : PerconaPgCluster) → Cleared pg (without_annotation annotation_backup_in_progress pg)
without_progress_annotation-Cleared pg = record {
  gone = inr (simp lookup-delete);
  others = λ k a b. simp (lookup-delete, b);
  same = refl;
}

pub without_labels-Unlabelled : (j : Job) → Unlabelled j (without_labels j)
without_labels-Unlabelled j = record {
  cluster = simp lookup-delete;
  pgbackrest = simp lookup-delete;
  same = refl;
}

pub manual_backup_cleared :
    (p : PostgresCluster) (st : PgBackRestStatus)
    → Clears (update_crunchy_status p (without_manual_backup p st))
manual_backup_cleared p st = (record st { manual_backup = none }, refl, refl)

module _ {W : Type 0} (c : Client W) (law : RetryLaw c) where
  pub delete_annotation-Clears :
      (a name : String)
      → ((pg : PerconaPgCluster) → Cleared pg (without_annotation a pg))
      → Sends Clears (delete_annotation c a name)
  unfolding delete_annotation
  delete_annotation-Clears a name h =
      search (sends_rules, Sends-perform c, Sends-retry c _ law, h) depth 14
