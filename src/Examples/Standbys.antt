-- ===== src/Examples/Standbys.antt =====
-- A standby whose lag is past the threshold.
use percona_postgresql_opera.Prelude.{sym, ap, List, String, refl, true, false, [], ◌∷◌, some, pos}
use percona_postgresql_opera.Exec.{ok, on_option, ◌>>=◌, ask, case_of, read, send}
use percona_postgresql_opera.Exec.Inversion.{ok-inj}
use percona_postgresql_opera.Types.Write.{signal_lag}
use percona_postgresql_opera.Types.Meta.{Pod, condition_true}
use percona_postgresql_opera.Types.Cluster.{PerconaPgCluster, app_ready}
use percona_postgresql_opera.Cluster.Conditions.{with_conditions}
use percona_postgresql_opera.Cluster.Standby.{LagEnv}
use percona_postgresql_opera.Cluster.Standby.Check.{
  with_standby, lagging_condition, reconcile_standby_lag,
}
use percona_postgresql_opera.Cluster.Standby.Signalled.{Agrees, IsPrimary}
use percona_postgresql_opera.Cluster.Standby.Agreement.{reconcile_standby_lag-Agrees}
use percona_postgresql_opera.Examples.Objects.{cluster1}
use percona_postgresql_opera.Examples.Server.{server, server-ConditionLaw}
use percona_postgresql_opera.Examples.Instances.{leader1}

abbrev pub lag_env : LagEnv Unit
lag_env = record {
  version_at_least = λ v w. true;
  is_patroni4 = λ cr. ok true;
  list_pods_of_role = λ name role w. (ok (leader1 ∷ []), w);
  get_main_site = λ namespace name w. (ok cluster1, w);
  run_sql = λ pod sql w. (ok " 200", w);
  set_signal = λ x w. (ok tt, w);
  trim_space = λ s. s;
  parse_int = λ s. ok (pos 200);
  unscaled = λ q. pos 100;
  error_text = λ e. "error";
  lag_text = λ lag max. "lagging";
}

abbrev standby1 : PerconaPgCluster
standby1 = record cluster1 {
  standby =
      some
        (record { enabled = true; repo_name = ""; host = "main"; max_acceptable_lag = some "100" });
  status = record cluster1.status { state = app_ready };
}

abbrev lagging1 : PerconaPgCluster
lagging1 =
    with_standby (record { lag_last_computed_at = some 1000; lag_bytes = pos 200 })
      (with_conditions (lagging_condition condition_true "LagDetected" "lagging" ∷ []) standby1)

-- The listed pod is the leader.
named_a : IsPrimary server lag_env "a" standby1
named_a role w x e = sym (ap name_of (ok-inj e))
  where
    name_of : List Pod → String
    name_of [] = "a"
    name_of (p ∷ ps) = p.meta.name

reconcile_standby_lag-Agrees_example :
    Agrees server lag_env "a" (signal_lag (record { pod = "a"; ready = false }) ∷ []) lagging1
unfolding reconcile_standby_lag on_option ◌>>=◌ ask case_of read send
reconcile_standby_lag-Agrees_example =
    reconcile_standby_lag-Agrees server lag_env "a" server-ConditionLaw (λ xs k status. refl)
      standby1 lagging1 (record { world = tt; log = [] })
      (record { world = tt; log = signal_lag (record { pod = "a"; ready = false }) ∷ [] })
      (λ spec quantity e missing. refl) named_a refl refl
