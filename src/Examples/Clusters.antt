-- ===== src/Examples/Clusters.antt =====
-- The theorems on the status of clusters at concrete inputs.
use percona_postgresql_opera.Prelude.{◌≡◌, ◌↔◌, [], ◌∷◌, contains, arith}
use percona_postgresql_opera.Exec.Writes.{Sends}
use percona_postgresql_opera.Types.Meta.{condition_cluster_is_ready_for_backup}
use percona_postgresql_opera.Types.Cluster.{app_ready}
use percona_postgresql_opera.Cluster.State.Readiness.{sum_of}
use percona_postgresql_opera.Cluster.State.Ready.{IsUp, counted_ready}
use percona_postgresql_opera.Cluster.Conditions.{
  percona_owned_conditions, sync_conditions, update_conditions, holds, condition_repo_host_ready,
  condition_replica_create,
}
use percona_postgresql_opera.Cluster.Conditions.Mirror.{last_of, Mirrored, sync_conditions-Mirrored}
use percona_postgresql_opera.Cluster.Conditions.Judgement.{
  Reads, verdict, reason_of, update_conditions-Reads,
}
use percona_postgresql_opera.Cluster.Status.{counted, update_cluster_status_of}
use percona_postgresql_opera.Cluster.Status.Written.{
  WritesStatus, update_cluster_status_of-WritesStatus,
}
use percona_postgresql_opera.Examples.Standbys.{lag_env}
use percona_postgresql_opera.Examples.Objects.{cluster1, crunchy1, says_true}
use percona_postgresql_opera.Examples.Server.{server, server-RetryLaw, server-ConditionLaw}

counted_ready_example :
    (counted cluster1 crunchy1.status "host" cluster1).status.state ≡ app_ready
    ↔ IsUp cluster1 crunchy1.status
unfolding sum_of
counted_ready_example =
    counted_ready cluster1 cluster1 crunchy1.status "host"
      (record { ready = omega arith; updated = omega arith }, tt) (omega arith)

update_cluster_status_of-WritesStatus_example :
    Sends
      (WritesStatus server server-ConditionLaw server-RetryLaw lag_env cluster1 crunchy1.status)
      (update_cluster_status_of server lag_env cluster1 crunchy1.status)
unfolding sum_of
update_cluster_status_of-WritesStatus_example =
    update_cluster_status_of-WritesStatus server server-ConditionLaw server-RetryLaw lag_env
      cluster1 crunchy1.status (record { ready = omega arith; updated = omega arith }, tt)
      (omega arith)

sync_conditions-Mirrored_example :
    Mirrored
      (contains percona_owned_conditions "Stale")
      (last_of crunchy1.status.conditions "Stale")
      1
      (server.find_status_condition (says_true "Stale" ∷ []) "Stale")
      (server.find_status_condition
        (sync_conditions server 1000 1 crunchy1.status.conditions (says_true "Stale" ∷ []))
        "Stale")
sync_conditions-Mirrored_example =
    sync_conditions-Mirrored server server-ConditionLaw 1000 1 crunchy1.status.conditions
      (says_true "Stale" ∷ []) "Stale"

update_conditions-Reads_example :
    Reads
      (verdict
        (holds (last_of crunchy1.status.conditions condition_repo_host_ready))
        (holds (last_of crunchy1.status.conditions condition_replica_create)))
      (reason_of
        (holds (last_of crunchy1.status.conditions condition_repo_host_ready))
        (holds (last_of crunchy1.status.conditions condition_replica_create)))
      1
      (server.find_status_condition
        (update_conditions server 1000 crunchy1.status cluster1).status.conditions
        condition_cluster_is_ready_for_backup)
update_conditions-Reads_example =
    update_conditions-Reads server server-ConditionLaw 1000 crunchy1.status cluster1
