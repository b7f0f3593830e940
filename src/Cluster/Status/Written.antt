-- ===== src/Cluster/Status/Written.antt =====
-- What `updateStatus` writes.
use percona_postgresql_opera.Prelude.{
  String, All, ◌<◌, ◌↔◌, ap, sym, subst, ℕ, ◌≡◌, Option, none, some,
}
use percona_postgresql_opera.Exec.{ask, ◌>>=◌}
use percona_postgresql_opera.Exec.Yields.{Sends-bind_of}
use percona_postgresql_opera.Exec.Writes.{Sends, Sends-bind, Sends-ask, sends_rules}
use percona_postgresql_opera.Types.Meta.{Condition, condition_cluster_is_ready_for_backup}
use percona_postgresql_opera.Types.Cluster.{PerconaPgCluster, PostgresClusterStatus, app_ready}
use percona_postgresql_opera.Types.Write.{Write, update_cluster_status, signal_lag}
use percona_postgresql_opera.Client.{Client, perform}
use percona_postgresql_opera.Client.Laws.{RetryLaw, ConditionLaw, Sends-perform, Sends-retry}
use percona_postgresql_opera.Cluster.Host.{get_host}
use percona_postgresql_opera.Cluster.Conditions.{
  condition_repo_host_ready, condition_replica_create, holds, condition_pmm_ready,
  update_conditions,
}
use percona_postgresql_opera.Cluster.Conditions.Mirror.{last_of}
use percona_postgresql_opera.Cluster.Conditions.Judgement.{
  Reads, verdict, reason_of, update_conditions-Reads,
}
use percona_postgresql_opera.Cluster.State.Readiness.{sum_of, IsBounded}
use percona_postgresql_opera.Cluster.State.Ready.{IsUp, counted_ready}
use percona_postgresql_opera.Cluster.Standby.{LagEnv}
use percona_postgresql_opera.Cluster.Standby.Check.{Left, reconcile_standby_lag}
use percona_postgresql_opera.Cluster.Standby.Frame.{
  Frame, reconcile_standby_lag-Frame, reconcile_standby_lag-Sends,
}
use percona_postgresql_opera.Cluster.Status.{
  counted, with_pmm, finished_status, write_status, update_cluster_status_of,
}

module _ {W : Type 0} (c : Client W) (law : ConditionLaw c) (retry : RetryLaw c)
    (env : LagEnv W) where
  -- The condition on backups is that of crunchy's status.
  abbrev pub IsJudged : PostgresClusterStatus → PerconaPgCluster → Type 0
  IsJudged crunchy cr =
      let repo_host = holds (last_of crunchy.conditions condition_repo_host_ready) in
      let replica = holds (last_of crunchy.conditions condition_replica_create) in
      Reads (verdict repo_host replica) (reason_of repo_host replica) cr.meta.generation
        (c.find_status_condition cr.status.conditions condition_cluster_is_ready_for_backup)

  -- A status that is written. Only the status differs from the cluster as it was read.
  pub record StatusOf (cr : PerconaPgCluster) (crunchy : PostgresClusterStatus)
      (old new : PerconaPgCluster) : Type 0 where
    pub same : record new { status = old.status } ≡ old
    pub observed : new.status.observed_generation ≡ old.meta.generation
    pub ready : new.status.state ≡ app_ready ↔ IsUp cr crunchy
    pub judged : IsJudged crunchy new

  -- A write of `updateStatus`.
  abbrev pub WritesStatus : PerconaPgCluster → PostgresClusterStatus → Write → Type 0
  WritesStatus cr crunchy (update_cluster_status old new) = StatusOf cr crunchy old new
  WritesStatus cr crunchy (signal_lag x) = Unit
  WritesStatus cr crunchy _ = ⊥

  finished_status-StatusOf :
      (cr old lagging : PerconaPgCluster) (crunchy : PostgresClusterStatus) (now : ℕ)
      → record lagging { status = old.status } ≡ old
      → (lagging.status.state ≡ app_ready ↔ IsUp cr crunchy)
      → StatusOf cr crunchy old (finished_status c env cr crunchy now lagging)
  unfolding finished_status update_conditions
  finished_status-StatusOf cr old lagging crunchy now same ready =
      by_pmm (c.find_status_condition cr.status.conditions condition_pmm_ready)
    where
      seen : PerconaPgCluster
      seen = record lagging {
        status = record lagging.status { observed_generation = lagging.meta.generation };
      }

      by_pmm :
          (o : Option Condition)
          → StatusOf cr crunchy old (update_conditions c now crunchy (with_pmm c env now o seen))
      by_pmm none = record {
        same = same;
        observed = ap (λ z. z.meta.generation) same;
        ready = ready;
        judged = update_conditions-Reads c law now crunchy (with_pmm c env now none seen);
      }
      by_pmm (some x) = record {
        same = same;
        observed = ap (λ z. z.meta.generation) same;
        ready = ready;
        judged = update_conditions-Reads c law now crunchy (with_pmm c env now (some x) seen);
      }

  -- The cluster that `reconcileStandbyLag` leaves.
  Left-StatusOf :
      (cr old : PerconaPgCluster) (crunchy : PostgresClusterStatus) (host : String) (now : ℕ)
      → All IsBounded crunchy.instance_sets
      → sum_of (λ s. s.replicas) crunchy.instance_sets < 4294967296
      → (left : Left c env) → Frame c env (counted cr crunchy host old) left
      → StatusOf cr crunchy old (finished_status c env cr crunchy now left.0)
  unfolding counted
  Left-StatusOf cr old crunchy host now bounded small left frame =
      finished_status-StatusOf cr old left.0 crunchy now (ap restore frame.same) (
        subst (λ x. x ≡ app_ready ↔ IsUp cr crunchy) (sym frame.state)
          (counted_ready cr old crunchy host bounded small))
    where
      restore : PerconaPgCluster → PerconaPgCluster
      restore z = record z { status = old.status }

  -- `updateStatus` writes nothing but the cluster's status and, as reconcileStandbyLag does, signals
  -- of the lag to pods. Each status that it writes leaves the rest of the cluster as it was read and
  -- is observed at its generation; it is Ready exactly if the cluster is not paused, its repository
  -- host (if any) and all PgBouncer replicas are ready, and it has some instance and every replica of
  -- every instance set is ready and up to date; and its condition ReadyForBackup is True exactly if
  -- crunchy's status has the conditions on the repository host and on the replica creation, both
  -- True. No set has more ready or updated replicas than replicas, and all replicas together are
  -- below 2 ^ 32; the condition helpers and the retry behave as documented.
  pub update_cluster_status_of-WritesStatus :
      (cr : PerconaPgCluster) (crunchy : PostgresClusterStatus)
      → All IsBounded crunchy.instance_sets
      → sum_of (λ s. s.replicas) crunchy.instance_sets < 4294967296
      → Sends (WritesStatus cr crunchy) (update_cluster_status_of c env cr crunchy)
  unfolding update_cluster_status_of write_status get_host
  update_cluster_status_of-WritesStatus cr crunchy bounded small =
      search (sends_rules, Sends-perform c, Sends-retry c _ retry, status_written) depth 16
    where
      status_written :
          (host : String) (old : PerconaPgCluster)
          → Sends (WritesStatus cr crunchy) (
              reconcile_standby_lag c env (counted cr crunchy host old) >>= λ (lagging, failure).
              ask c.now >>= λ now.
              perform c (update_cluster_status old (finished_status c env cr crunchy now lagging)))
      status_written host old =
          Sends-bind_of _ _ (reconcile_standby_lag-Sends c env _ (λ x. tt) _)
            (reconcile_standby_lag-Frame c env _)
            λ left frame. Sends-bind _ _ (Sends-ask _) λ now.
              Sends-perform c _ (Left-StatusOf cr old crunchy host now bounded small left frame)
