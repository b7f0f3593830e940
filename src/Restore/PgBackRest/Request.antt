-- ===== src/Restore/PgBackRest/Request.antt =====
-- Asking a cluster for a restore.
use percona_postgresql_opera.Prelude.{
  ◌≡◌, refl, true, false, Option, none, some, lookup, lookup-insert, eq_refl, deref,
}
use percona_postgresql_opera.Exec.{ok, St, pure}
use percona_postgresql_opera.Exec.Writes.{Sends, sends_rules}
use percona_postgresql_opera.Types.Meta.{pgbackrest_restore}
use percona_postgresql_opera.Types.Cluster.{
  PgBackRestRestore, PostgresClusterDataSource, PgBackRestJobStatus, PgBackRestStatus,
  PerconaPgCluster, PostgresCluster,
}
use percona_postgresql_opera.Types.Restore.{PerconaPgRestore}
use percona_postgresql_opera.Types.Write.{Write, patch_cluster, patch_crunchy_status}
use percona_postgresql_opera.Client.{Client}
use percona_postgresql_opera.Client.Laws.{Sends-perform}
use percona_postgresql_opera.Restore.PgBackRest.{
  restore_reset, empty_job, requested_source, requested, is_started, with_request,
  with_restore_reset, start,
}

-- The cluster asks for this restore.
pub record Asks (pr : PerconaPgRestore) (cr : PerconaPgCluster) : Type 0 where
  pub annotated : lookup cr.meta.annotations pgbackrest_restore ≡ some pr.meta.name
  pub section : PgBackRestRestore
  pub section_is : cr.backups.pgbackrest.restore ≡ some section
  pub enabled : section.enabled ≡ some true
  pub source : PostgresClusterDataSource
  pub source_is : section.data_source ≡ some source
  pub repo_name : source.repo_name ≡ deref pr.spec.repo_name ""
  pub options : source.options ≡ pr.spec.options
  pub env : source.env ≡ pr.spec.container_options.env
  pub env_from : source.env_from ≡ pr.spec.container_options.env_from

-- The status of a restore is there, with no id, time or outcome.
pub record IsReset (p : PostgresCluster) : Type 0 where
  pub status : PgBackRestStatus
  pub status_is : p.status.pgbackrest ≡ some status
  pub job : PgBackRestJobStatus
  pub job_is : status.restore ≡ some job
  pub no_id : job.id ≡ ""
  pub not_finished : job.finished ≡ false
  pub no_time : job.completion_time ≡ none
  pub no_success : job.succeeded ≡ 0
  pub no_failure : job.failed ≡ 0

-- A write of `Start`.
abbrev pub Starts : PerconaPgRestore → Write → Type 0
Starts pr (patch_cluster old new) = Asks pr new
Starts pr (patch_crunchy_status old new) = IsReset new
Starts pr _ = ⊥

with_request-Asks : (cr : PerconaPgCluster) (pr : PerconaPgRestore) → Asks pr (with_request cr pr)
unfolding with_request requested requested_source
with_request-Asks cr pr = record {
  annotated = simp lookup-insert;
  section = requested cr pr;
  section_is = refl;
  enabled = refl;
  source = requested_source cr pr;
  source_is = refl;
  repo_name = refl;
  options = refl;
  env = refl;
  env_from = refl;
}

with_restore_reset-IsReset : (p : PostgresCluster) → IsReset (with_restore_reset p)
unfolding with_restore_reset
with_restore_reset-IsReset p = record {
  status = restore_reset p.status.pgbackrest;
  status_is = refl;
  job = empty_job;
  job_is = cleared p.status.pgbackrest;
  no_id = refl;
  not_finished = refl;
  no_time = refl;
  no_success = refl;
  no_failure = refl;
}
  where
    cleared : (o : Option PgBackRestStatus) → (restore_reset o).restore ≡ some empty_job
    cleared none = refl
    cleared (some x) = refl

module _ {W : Type 0} (c : Client W) (pr : PerconaPgRestore) where
  -- `Start` writes nothing but crunchy's status with a restore that has no id, time or outcome, and
  -- the cluster with the restore section enabled, the repository, options and environment of this
  -- restore, and the annotation that names it.
  pub start-Starts : (cr : PerconaPgCluster) → Sends (Starts pr) (start c cr pr)
  unfolding start
  start-Starts cr =
      search (sends_rules, Sends-perform c, with_request-Asks, with_restore_reset-IsReset) depth 14

  -- Starting a restore on the cluster that an earlier start of it has written does nothing.
  pub start-with_request :
      (cr : PerconaPgCluster) (s : St W Write) → start c (with_request cr pr) pr s ≡ (ok tt, s)
  unfolding start is_started with_request pure
  start-with_request cr s = simp (lookup-insert, eq_refl) refl
