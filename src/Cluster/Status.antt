-- ===== src/Cluster/Status.antt =====
-- percona/controller/pgcluster/status.go: `(*PGClusterReconciler).updateStatus`.
pub mod Written
use percona_postgresql_opera.Prelude.{ℕ, String, List, [], ◌∷◌, Option, none, some}
use percona_postgresql_opera.Exec.{Exec, pure, read, ask, ◌>>=◌}
use percona_postgresql_opera.Types.Meta.{ObjectMeta, Condition}
use percona_postgresql_opera.Types.Cluster.{
  InstanceSetStatus, PgClusterStatus, PerconaPgCluster, PostgresInstanceSetStatus,
  PostgresClusterStatus,
}
use percona_postgresql_opera.Types.Write.{Write, update_cluster_status}
use percona_postgresql_opera.Client.{Client, perform}
use percona_postgresql_opera.Cluster.State.{sum32, get_state}
use percona_postgresql_opera.Cluster.Standby.{LagEnv}
use percona_postgresql_opera.Cluster.Standby.Check.{reconcile_standby_lag}
use percona_postgresql_opera.Cluster.Host.{get_host}
use percona_postgresql_opera.Cluster.Conditions.{
  condition_pmm_ready, with_conditions, update_conditions,
}

-- `ss`
abbrev pub instance_set_statuses : List PostgresInstanceSetStatus → List InstanceSetStatus
instance_set_statuses [] = []
instance_set_statuses (x ∷ xs) =
    record { name = x.name; size = x.replicas; ready = x.ready_replicas } ∷ instance_set_statuses xs

-- The counts, the host and the extensions.
unfoldable pub counts :
    PerconaPgCluster → PostgresClusterStatus → String → PgClusterStatus → PgClusterStatus
counts cr crunchy host st = record st {
  postgres_size = sum32 (λ s. s.replicas) crunchy.instance_sets 0;
  postgres_ready = sum32 (λ s. s.ready_replicas) crunchy.instance_sets 0;
  instance_sets = instance_set_statuses crunchy.instance_sets;
  pgbouncer_size = crunchy.pgbouncer_replicas;
  pgbouncer_ready = crunchy.pgbouncer_ready_replicas;
  host = host;
  installed_custom_extensions = cr.custom_extensions;
}

-- With them the state.
unfoldable pub counted :
    PerconaPgCluster → PostgresClusterStatus → String → PerconaPgCluster → PerconaPgCluster
unfolding counts
counted cr crunchy host cluster =
    let st = counts cr crunchy host cluster.status in
    record cluster { status = record st { state = get_state cr st crunchy } }

module _ {W : Type 0} (c : Client W) (env : LagEnv W) where
  -- The condition on PMM is the one that the reconciliation found, or none.
  abbrev pub with_pmm : ℕ → Option Condition → PerconaPgCluster → PerconaPgCluster
  with_pmm now none cluster =
      with_conditions (c.remove_status_condition cluster.status.conditions condition_pmm_ready)
        cluster
  with_pmm now (some x) cluster =
      with_conditions (c.set_status_condition now cluster.status.conditions x) cluster

  -- What follows `reconcileStandbyLag`.
  unfoldable pub finished_status :
      PerconaPgCluster → PostgresClusterStatus → ℕ → PerconaPgCluster → PerconaPgCluster
  finished_status cr crunchy now cluster =
      let observed = record cluster {
        status = record cluster.status { observed_generation = cluster.meta.generation };
      } in
      update_conditions c now crunchy
        (with_pmm now (c.find_status_condition cr.status.conditions condition_pmm_ready) observed)

  -- An error of `reconcileStandbyLag` is only logged.
  unfoldable pub write_status :
      PerconaPgCluster → PostgresClusterStatus → String → Exec W Write (Unit {0})
  unfolding counted finished_status
  write_status cr crunchy host = do
    cluster ← read (c.get_cluster cr.meta.name)
    (lagging, failure) ← reconcile_standby_lag c env (counted cr crunchy host cluster)
    now ← ask c.now
    perform c (update_cluster_status cluster (finished_status cr crunchy now lagging))

  unfoldable pub update_cluster_status_of :
      PerconaPgCluster → PostgresClusterStatus → Exec W Write (Unit {0})
  unfolding write_status
  update_cluster_status_of cr crunchy = do
    host ← get_host c cr
    c.retry_on_conflict (write_status cr crunchy host)
