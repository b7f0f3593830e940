-- ===== src/Cluster/Standby/Check.antt =====
-- percona/controller/pgcluster/standby.go: `reconcileStandbyLag`.
use percona_postgresql_opera.Prelude.{
  ℕ, ◌+◌, ℤ, is_greater, pos, String, Bool, true, false, not, ◌&&◌, ◌==◌, ltb, is_some,
  if◌then◌else◌, Option, none, some, deref,
}
use percona_postgresql_opera.Exec.{Err, Exec, pure, ask, attempt, case_of, on_option, ◌>>=◌}
use percona_postgresql_opera.Types.Meta.{
  ConditionStatus, Condition, condition_true, condition_false, condition_unknown,
  condition_standby_lagging,
}
use percona_postgresql_opera.Types.Write.{Write}
use percona_postgresql_opera.Types.Cluster.{
  StandbySpec, StandbyStatus, PerconaPgCluster, app_ready, AppState,
}
use percona_postgresql_opera.Client.{Client}
use percona_postgresql_opera.Cluster.Conditions.{with_conditions}
use percona_postgresql_opera.Cluster.Standby.{
  LagEnv, is_primary_pod_not_found, is_invalid_lag_query_output, main_site_of, checked_standby,
  get_standby_lag, set_pod_replication_lag_signal,
}

abbrev pub lagging_condition : ConditionStatus → String → String → Condition
lagging_condition status reason message = record {
  kind = condition_standby_lagging;
  status = status;
  reason = reason;
  message = message;
  last_transition_time = 0;
  observed_generation = 0;
}

abbrev pub is_app_ready : AppState → Bool
is_app_ready app_ready = true
is_app_ready _ = false

abbrev pub with_standby : StandbyStatus → PerconaPgCluster → PerconaPgCluster
with_standby st cr = record cr { status = record cr.status { standby = some st } }

-- `cr.Status.Standby = &v2.StandbyStatus{}` where it is nil
abbrev pub standby_status : PerconaPgCluster → StandbyStatus
standby_status cr =
    deref cr.status.standby (record { lag_last_computed_at = none; lag_bytes = pos 0 })

module _ {W : Type 0} (c : Client W) (env : LagEnv W) where
  -- `meta.IsStatusConditionPresentAndEqual(cr.Status.Conditions, ConditionStandbyLagging, …)`
  abbrev pub lagging_is : PerconaPgCluster → ConditionStatus → Bool
  lagging_is cr status =
      c.is_status_condition_present_and_equal cr.status.conditions condition_standby_lagging status

  -- `shouldSkipLagCheck`
  unfoldable pub should_skip_lag_check : ℕ → PerconaPgCluster → Bool
  should_skip_lag_check now cr = elim (standby_status cr).lag_last_computed_at [
    | none ↦ false
    | some last ↦ ltb now (last + (if lagging_is cr condition_true then 60 else 300))
  ]

  -- The cluster as the method leaves it, and the error that it returns.
  abbrev pub Left : Type 0
  Left = PerconaPgCluster × Option Err

  -- The signal, and what follows if it is sent.
  unfoldable pub signal_then : PerconaPgCluster → Bool → Exec W Write Left → Exec W Write Left
  unfolding set_pod_replication_lag_signal
  signal_then cr ready rest = do
    sent ← attempt (set_pod_replication_lag_signal env cr ready)
    case_of sent (λ _. rest) (λ e. pure (cr, some e))

  unfoldable pub set_condition : Condition → PerconaPgCluster → Exec W Write Left
  set_condition x cr = do
    now ← ask c.now
    pure (with_conditions (c.set_status_condition now cr.status.conditions x) cr, none)

  unfoldable pub unknown_text : Err → String
  unknown_text e =
      if is_invalid_lag_query_output e
      then "Invalid output from lag query. The WAL receiver may not be active"
      else if is_primary_pod_not_found e
      then "Cannot find primary for replication lag calculation"
      else env.error_text e

  unfoldable pub lag_unknown : PerconaPgCluster → Err → Exec W Write Left
  unfolding signal_then set_condition unknown_text
  lag_unknown cr e =
      let write =
        set_condition (lagging_condition condition_unknown "ErrorGettingLag" (unknown_text e)) cr in
      if lagging_is cr condition_true then signal_then cr true write else write

  abbrev pub verdict_on : ℤ → ℤ → Condition
  verdict_on lag max =
      if is_greater lag max
      then lagging_condition condition_true "LagDetected" (env.lag_text lag max)
      else lagging_condition condition_false "LagNotDetected" ""

  unfoldable pub write_lag : PerconaPgCluster → ℤ → Condition → Exec W Write Left
  write_lag cr lag x = do
    now ← ask c.now
    at ← ask c.now
    pure (
      with_standby (record { lag_last_computed_at = some at; lag_bytes = lag })
          (with_conditions (c.set_status_condition now cr.status.conditions x) cr),
      none,
    )

  unfoldable pub lag_known : PerconaPgCluster → String → ℤ → Exec W Write Left
  unfolding signal_then write_lag
  lag_known cr quantity lag =
      let max = env.unscaled quantity in
      let x = verdict_on lag max in
      if lagging_is cr x.status
      then write_lag cr lag x
      else signal_then cr (not (is_greater lag max)) (write_lag cr lag x)

  unfoldable pub compute_lag : StandbySpec → String → PerconaPgCluster → Exec W Write Left
  unfolding get_standby_lag lag_unknown lag_known
  compute_lag spec quantity cr = do
    lag ← attempt (get_standby_lag env spec cr)
    case_of lag (lag_known cr quantity) (lag_unknown cr)

  -- Only a repository is named, and the main site is not known.
  abbrev pub is_site_missing : StandbySpec → PerconaPgCluster → Bool
  is_site_missing spec cr =
      (not (spec.repo_name == "") && (spec.host == "")) && (main_site_of cr == "")

  abbrev pub is_uninitialised : PerconaPgCluster → Bool
  is_uninitialised cr =
      not (is_app_ready cr.status.state)
      && not (is_some (c.find_status_condition cr.status.conditions condition_standby_lagging))

  abbrev pub site_missing : PerconaPgCluster → Exec W Write Left
  site_missing cr =
      set_condition
        (lagging_condition condition_unknown "MainSiteNotFound"
          "Cannot find main site for replication lag calculation")
        cr

  -- The lag is computed unless it was a short time ago.
  unfoldable pub check_interval : StandbySpec → String → PerconaPgCluster → Exec W Write Left
  unfolding compute_lag should_skip_lag_check
  check_interval spec quantity cr = do
    now ← ask c.now
    if should_skip_lag_check now cr then pure (cr, none) else compute_lag spec quantity cr

  unfoldable pub check_standby : StandbySpec → String → PerconaPgCluster → Exec W Write Left
  unfolding set_condition check_interval
  check_standby spec quantity cr =
      if is_site_missing spec cr
      then site_missing cr
      else if is_uninitialised cr
      then pure (cr, none)
      else check_interval spec quantity cr

  unfoldable pub reconcile_standby_lag : PerconaPgCluster → Exec W Write Left
  unfolding checked_standby check_standby
  reconcile_standby_lag cr =
      on_option (checked_standby env cr) (pure (cr, none))
        λ (spec, quantity). check_standby spec quantity (with_standby (standby_status cr) cr)
