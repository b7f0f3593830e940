-- ===== src/Cluster/Standby/Frame.antt =====
-- percona/controller/pgcluster/standby.go: what `reconcileStandbyLag` leaves as it is.
use percona_postgresql_opera.Prelude.{ℤ, ◌≡◌, ap, Bool, String}
use percona_postgresql_opera.Exec.{Err, Exec}
use percona_postgresql_opera.Exec.Yields.{Yields, yields_rules, Yields-on_option}
use percona_postgresql_opera.Exec.Writes.{Sends, sends_rules}
use percona_postgresql_opera.Types.Meta.{Condition}
use percona_postgresql_opera.Types.Write.{Write, Signal, signal_lag}
use percona_postgresql_opera.Types.Cluster.{StandbySpec, StandbyStatus, PerconaPgCluster}
use percona_postgresql_opera.Client.{Client}
use percona_postgresql_opera.Cluster.Standby.{LagEnv, set_pod_replication_lag_signal}
use percona_postgresql_opera.Cluster.Standby.Quiet.{get_primary_pod-Sends, get_standby_lag-Sends}
use percona_postgresql_opera.Cluster.Standby.Check.{
  set_condition, signal_then, lag_unknown, lag_known, write_lag, compute_lag, check_interval,
  check_standby, reconcile_standby_lag, Left, with_standby, standby_status,
}

module _ {W : Type 0} (c : Client W) (env : LagEnv W) where
  -- Only the conditions and the status of the standby may differ.
  pub record Frame (cr : PerconaPgCluster) (left : Left c env) : Type 0 where
    pub state : left.0.status.state ≡ cr.status.state
    pub same : record left.0 { status = cr.status } ≡ cr

  write_lag-Frame :
      (cr : PerconaPgCluster) (lag : ℤ) (x : Condition)
      → Yields (Frame cr) (write_lag c env cr lag x)
  unfolding write_lag
  write_lag-Frame cr lag x = search yields_rules

  set_condition-Frame :
      (x : Condition) (cr : PerconaPgCluster) → Yields (Frame cr) (set_condition c env x cr)
  unfolding set_condition
  set_condition-Frame x cr = search yields_rules

  signal_then-Frame :
      (cr : PerconaPgCluster) (ready : Bool) (rest : Exec W Write (Left c env))
      → Yields (Frame cr) rest
      → Yields (Frame cr) (signal_then c env cr ready rest)
  unfolding signal_then
  signal_then-Frame cr ready rest h = search (yields_rules, h)

  lag_unknown-Frame : (cr : PerconaPgCluster) (e : Err) → Yields (Frame cr) (lag_unknown c env cr e)
  unfolding lag_unknown
  lag_unknown-Frame cr e = search (yields_rules, signal_then-Frame, set_condition-Frame)

  lag_known-Frame :
      (cr : PerconaPgCluster) (quantity : String) (lag : ℤ)
      → Yields (Frame cr) (lag_known c env cr quantity lag)
  unfolding lag_known
  lag_known-Frame cr quantity lag = search (yields_rules, signal_then-Frame, write_lag-Frame)

  check_interval-Frame :
      (spec : StandbySpec) (quantity : String) (cr : PerconaPgCluster)
      → Yields (Frame cr) (check_interval c env spec quantity cr)
  unfolding check_interval compute_lag
  check_interval-Frame spec quantity cr =
      search (yields_rules, lag_unknown-Frame, lag_known-Frame) depth 10

  check_standby-Frame :
      (spec : StandbySpec) (quantity : String) (cr : PerconaPgCluster)
      → Yields (Frame cr) (check_standby c env spec quantity cr)
  unfolding check_standby
  check_standby-Frame spec quantity cr =
      search (yields_rules, set_condition-Frame, check_interval-Frame) depth 10

  with_standby-Frame :
      (cr : PerconaPgCluster) (st : StandbyStatus) (m : Exec W Write (Left c env))
      → Yields (Frame (with_standby st cr)) m
      → Yields (Frame cr) m
  with_standby-Frame cr st m y = record {
    at = λ s a e. let f = y.at s a e in record { state = f.state; same = ap restore f.same };
  }
    where
      restore : PerconaPgCluster → PerconaPgCluster
      restore z = record z { status = cr.status }

  -- `reconcileStandbyLag` changes nothing of the cluster but its conditions and the status of the
  -- standby.
  pub reconcile_standby_lag-Frame :
      (cr : PerconaPgCluster) → Yields (Frame cr) (reconcile_standby_lag c env cr)
  unfolding reconcile_standby_lag
  reconcile_standby_lag-Frame cr =
      Yields-on_option _ _ _ (λ _. search yields_rules)
        λ (spec, quantity) e.
          with_standby-Frame cr (standby_status cr) _ (check_standby-Frame spec quantity _)

  -- It sends nothing but signals.
  pub reconcile_standby_lag-Sends :
      (P : Write → Type 0)
      → ((x : Signal) → P (signal_lag x))
      → (cr : PerconaPgCluster) → Sends P (reconcile_standby_lag c env cr)
  unfolding reconcile_standby_lag check_standby check_interval compute_lag lag_known lag_unknown
      write_lag set_condition signal_then set_pod_replication_lag_signal
  reconcile_standby_lag-Sends P h cr =
      search (sends_rules, get_primary_pod-Sends, get_standby_lag-Sends, h) depth 24
