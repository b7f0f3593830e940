-- ===== src/Cluster/Standby/Quiet.antt =====
-- percona/controller/pgcluster/standby.go: nothing is sent while the lag is computed.
use percona_postgresql_opera.Prelude.{String, List, [], ◌∷◌, Option}
use percona_postgresql_opera.Exec.{Err}
use percona_postgresql_opera.Exec.Writes.{Sends, sends_rules}
use percona_postgresql_opera.Types.Meta.{Pod}
use percona_postgresql_opera.Types.Write.{Write}
use percona_postgresql_opera.Types.Cluster.{StandbySpec, PerconaPgCluster}
use percona_postgresql_opera.Cluster.Standby.{
  LagEnv, only_pod, get_primary_pod, primary_for_lag, query, lag_from_streaming_host,
  current_wal_lsn, wal_lag_bytes, main_site, lag_from_main_site, from_main_site, from_host,
  get_standby_lag,
}

module _ {W : Type 0} (env : LagEnv W) (P : Write → Type 0) where
  only_pod-Sends : (pods : List Pod) → Sends P (only_pod env pods)
  unfolding only_pod
  only_pod-Sends [] = search sends_rules
  only_pod-Sends (p ∷ []) = search sends_rules
  only_pod-Sends (p ∷ q ∷ ps) = search sends_rules

  pub get_primary_pod-Sends : (cr : PerconaPgCluster) → Sends P (get_primary_pod env cr)
  unfolding get_primary_pod
  get_primary_pod-Sends cr = search (sends_rules, only_pod-Sends)

  query-Sends : (cr : PerconaPgCluster) (sql : String) → Sends P (query env cr sql)
  unfolding query primary_for_lag
  query-Sends cr sql = search (sends_rules, get_primary_pod-Sends)

  lag_from_streaming_host-Sends : (cr : PerconaPgCluster) → Sends P (lag_from_streaming_host env cr)
  unfolding lag_from_streaming_host
  lag_from_streaming_host-Sends cr = search (sends_rules, query-Sends)

  current_wal_lsn-Sends : (cr : PerconaPgCluster) → Sends P (current_wal_lsn env cr)
  unfolding current_wal_lsn
  current_wal_lsn-Sends cr = search (sends_rules, query-Sends)

  wal_lag_bytes-Sends : (lsn : String) (cr : PerconaPgCluster) → Sends P (wal_lag_bytes env lsn cr)
  unfolding wal_lag_bytes
  wal_lag_bytes-Sends lsn cr = search (sends_rules, query-Sends)

  main_site-Sends : (parts : List String) → Sends P (main_site env parts)
  unfolding main_site
  main_site-Sends [] = search sends_rules
  main_site-Sends (a ∷ []) = search sends_rules
  main_site-Sends (a ∷ b ∷ []) = search sends_rules
  main_site-Sends (a ∷ b ∷ c ∷ ps) = search sends_rules

  lag_from_main_site-Sends : (cr : PerconaPgCluster) → Sends P (lag_from_main_site env cr)
  unfolding lag_from_main_site
  lag_from_main_site-Sends cr =
      search (sends_rules, main_site-Sends, current_wal_lsn-Sends, wal_lag_bytes-Sends)

  from_main_site-Sends :
      (errs : Option Err) (cr : PerconaPgCluster) → Sends P (from_main_site env errs cr)
  unfolding from_main_site
  from_main_site-Sends errs cr = search (sends_rules, lag_from_main_site-Sends)

  from_host-Sends : (spec : StandbySpec) (cr : PerconaPgCluster) → Sends P (from_host env spec cr)
  unfolding from_host
  from_host-Sends spec cr =
      search (sends_rules, lag_from_streaming_host-Sends, from_main_site-Sends)

  pub get_standby_lag-Sends :
      (spec : StandbySpec) (cr : PerconaPgCluster) → Sends P (get_standby_lag env spec cr)
  unfolding get_standby_lag
  get_standby_lag-Sends spec cr = search (sends_rules, from_host-Sends, from_main_site-Sends)
