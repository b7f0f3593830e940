-- ===== src/Restore/PgBackRest.antt =====
-- percona/controller/pgrestore/utils/pgbackrest.go: starting, ending and observing a restore by
-- pgBackRest, which the rest of the operator runs when the cluster asks for it.
pub mod Request
use percona_postgresql_opera.Prelude.{
  ℕ, String, Bool, true, false, ◌&&◌, ◌||◌, not, ◌==◌, nat_eq, if◌then◌else◌, List, [], Option,
  none, some, deref, lookup, insert, delete,
}
use percona_postgresql_opera.Exec.{Exec, pure, read, ◌>>=◌, ◌>>◌, on_option}
use percona_postgresql_opera.Types.Meta.{ObjectMeta, pgbackrest_restore}
use percona_postgresql_opera.Types.Cluster.{
  PostgresClusterDataSource, PgBackRestRestore, PgBackRestArchive, Backups, PgBackRestJobStatus,
  PgBackRestStatus, PostgresClusterStatus, PgClusterStatus, PerconaPgCluster, PostgresCluster,
}
use percona_postgresql_opera.Types.Restore.{
  PgRestoreState, restore_starting, restore_running, restore_failed, restore_succeeded,
  PerconaPgRestore, is_completed,
}
use percona_postgresql_opera.Types.Write.{Write, patch_cluster, patch_crunchy_status}
use percona_postgresql_opera.Client.{Client, perform}

abbrev empty_source : PostgresClusterDataSource
empty_source = record { repo_name = ""; options = []; env = []; env_from = []; tolerations = none }

abbrev pub empty_job : PgBackRestJobStatus
empty_job = record { id = ""; finished = false; completion_time = none; succeeded = 0; failed = 0 }

abbrev with_restore : PgBackRestRestore → PerconaPgCluster → PerconaPgCluster
with_restore r cr = record cr {
  backups = record cr.backups { pgbackrest = record cr.backups.pgbackrest { restore = some r } };
}

abbrev with_annotations : List (String × String) → PerconaPgCluster → PerconaPgCluster
with_annotations m cr = record cr { meta = record cr.meta { annotations = m } }

-- The tolerations that a restore starts with: its own, else those of the cluster's jobs.
abbrev job_tolerations_of :
    Option (List String) → Option (Option (List String)) → Option (List String)
job_tolerations_of (some own) jobs = some own
job_tolerations_of none none = none
job_tolerations_of none (some tolerations) = tolerations

abbrev source_of : Option PgBackRestRestore → PostgresClusterDataSource
source_of none = empty_source
source_of (some r) = deref r.data_source empty_source

unfoldable pub requested_source : PerconaPgCluster → PerconaPgRestore → PostgresClusterDataSource
requested_source cr pr = record {
  repo_name = deref pr.spec.repo_name "";
  options = pr.spec.options;
  env = pr.spec.container_options.env;
  env_from = pr.spec.container_options.env_from;
  tolerations =
      job_tolerations_of (source_of cr.backups.pgbackrest.restore).tolerations
        cr.backups.pgbackrest.job_tolerations;
}

-- The restore section once `Start` has filled it.
unfoldable pub requested : PerconaPgCluster → PerconaPgRestore → PgBackRestRestore
unfolding requested_source
requested cr pr = record { enabled = some true; data_source = some (requested_source cr pr) }

abbrev is_annotated : Option String → String → Bool
is_annotated none name = false
is_annotated (some v) name = v == name

-- The cluster's annotation names the restore.
unfoldable pub is_started : PerconaPgCluster → PerconaPgRestore → Bool
is_started cr pr = is_annotated (lookup cr.meta.annotations pgbackrest_restore) pr.meta.name

-- The cluster that `Start` writes.
unfoldable pub with_request : PerconaPgCluster → PerconaPgRestore → PerconaPgCluster
unfolding requested
with_request cr pr =
    with_restore (requested cr pr)
      (with_annotations (insert cr.meta.annotations pgbackrest_restore pr.meta.name) cr)

abbrev pub restore_reset : Option PgBackRestStatus → PgBackRestStatus
restore_reset none = record {
  manual_backup = none;
  repo_host_ready = none;
  restore = some empty_job;
}
restore_reset (some s) = record s { restore = some empty_job }

-- Crunchy's cluster with the restore's status cleared.
unfoldable pub with_restore_reset : PostgresCluster → PostgresCluster
with_restore_reset p = record p {
  status = record p.status { pgbackrest = some (restore_reset p.status.pgbackrest) };
}

-- The restore section once `DisableRestore` has switched it off.
abbrev pub switched_off : Option PgBackRestRestore → PgBackRestRestore
switched_off none = record { enabled = some false; data_source = some empty_source }
switched_off (some r) = record r { enabled = some false }

-- The cluster that `DisableRestore` writes.
unfoldable pub without_request : PerconaPgCluster → PerconaPgCluster
without_request cr =
    with_restore (switched_off cr.backups.pgbackrest.restore)
      (with_annotations (delete cr.meta.annotations pgbackrest_restore) cr)

-- The `switch` on the restore's status, whose counts are not negative.
unfoldable pub restore_state : PgBackRestJobStatus → PgRestoreState × Option ℕ
restore_state j =
    if j.finished && not (nat_eq j.succeeded 0)
    then (restore_succeeded, j.completion_time)
    else if j.finished && not (nat_eq j.failed 0)
    then (restore_failed, none)
    else (restore_running, none)

abbrev pub restore_of : Option PgBackRestStatus → Option PgBackRestJobStatus
restore_of none = none
restore_of (some s) = s.restore

module _ {W : Type 0} (c : Client W) where
  -- Of a cluster in memory: nothing reads it after `Start` or `DisableRestore`.
  unfoldable pub start : PerconaPgCluster → PerconaPgRestore → Exec W Write (Unit {0})
  unfolding is_started with_request with_restore_reset
  start cr pr = if is_started cr pr then pure tt else do
    p ← read (c.get_crunchy cr.meta.name)
    perform c (patch_crunchy_status p (with_restore_reset p))
    perform c (patch_cluster cr (with_request cr pr))

  unfoldable pub disable_restore : PerconaPgCluster → PerconaPgRestore → Exec W Write (Unit {0})
  unfolding without_request
  disable_restore cr pr =
      if is_completed pr.status.state
      then pure tt
      else perform c (patch_cluster cr (without_request cr))

  unfoldable pub observe_status : PerconaPgCluster → Exec W Write (PgRestoreState × Option ℕ)
  unfolding restore_state
  observe_status cr = do
    cluster ← read (c.get_cluster cr.meta.name)
    on_option (restore_of cluster.status.pgbackrest) (pure (restore_starting, none))
        (λ j. pure (restore_state j))
