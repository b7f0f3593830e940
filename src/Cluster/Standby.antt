-- ===== src/Cluster/Standby.antt =====
-- percona/controller/pgcluster/standby.go: `reconcileStandbyLag` and what it calls, and
-- `GetPrimaryPod` of percona/postgres/common.go.
pub mod Check
pub mod Quiet
pub mod Frame
pub mod Signalled
pub mod Agreement
use Prim.Native.String.{◌++◌ as str_append}
use percona_postgresql_opera.Prelude.{
  ℕ, ◌+◌, ℤ, is_greater, pos, String, Bool, true, false, not, ◌&&◌, ◌||◌, ◌==◌, ltb, is_some,
  if◌then◌else◌, List, [], ◌∷◌, Option, none, some, value_at, deref,
}
use percona_postgresql_opera.Prelude.Text.{split}
use percona_postgresql_opera.Exec.{
  Err, errorf, primary_pod_not_found, invalid_lag_query_output, appended, Result, Exec, pure, raise,
  lift, read, ask, send, attempt, case_of, on_option, ◌>>=◌,
}
use percona_postgresql_opera.Types.Meta.{
  ObjectMeta, ConditionStatus, Pod, Condition, condition_true, condition_false, condition_unknown,
  annotation_replication_main_site, condition_standby_lagging,
}
use percona_postgresql_opera.Types.Cluster.{
  StandbySpec, StandbyStatus, PgClusterStatus, PerconaPgCluster, app_ready, AppState,
}
use percona_postgresql_opera.Types.Write.{Write, Signal, signal_lag}
use percona_postgresql_opera.Client.{Client}
use percona_postgresql_opera.Cluster.Conditions.{with_conditions}

-- What the code asks of the API server, the pods and other libraries.
pub record LagEnv (W : Type 0) : Type 1 where
  -- `CompareVersion(…) >= 0` of the cluster's version
  pub version_at_least : String → String → Bool
  -- whether the version of Patroni is 4.0.0 or later
  pub is_patroni4 : PerconaPgCluster → Result Bool
  -- `client.List` of a cluster's pods with a role
  pub list_pods_of_role : String → String → W → Result (List Pod) × W
  -- `client.Get` of the cluster of that namespace and name
  pub get_main_site : String → String → W → Result PerconaPgCluster × W
  -- what `psql` writes in a pod for a query, and the command of a signal
  pub run_sql : Pod → String → W → Result String × W
  pub set_signal : Signal → W → Result (Unit {0}) × W
  -- `strings.TrimSpace`, `strconv.ParseInt(…, 10, 64)`, `AsDec().UnscaledBig().Int64()` of a
  -- quantity, `err.Error()` and the message on a lag and its threshold
  pub trim_space : String → String
  pub parse_int : String → Result ℤ
  pub unscaled : String → ℤ
  pub error_text : Err → String
  pub lag_text : ℤ → ℤ → String

-- `errors.Is(err, ErrPrimaryPodNotFound)`
abbrev pub is_primary_pod_not_found : Err → Bool
is_primary_pod_not_found primary_pod_not_found = true
is_primary_pod_not_found (appended a b) = is_primary_pod_not_found a || is_primary_pod_not_found b
is_primary_pod_not_found _ = false

abbrev pub is_invalid_lag_query_output : Err → Bool
is_invalid_lag_query_output invalid_lag_query_output = true
is_invalid_lag_query_output (appended a b) =
    is_invalid_lag_query_output a || is_invalid_lag_query_output b
is_invalid_lag_query_output _ = false

abbrev pub main_site_of : PerconaPgCluster → String
main_site_of cr = value_at cr.meta.annotations annotation_replication_main_site

module _ {W : Type 0} (env : LagEnv W) where
  -- `ShouldCheckStandbyLag`, with what it finds that is not nil.
  unfoldable pub checked_standby : PerconaPgCluster → Option (StandbySpec × String)
  checked_standby cr = elim cr.standby [
    | none ↦ none
    | some spec ↦
        if env.version_at_least cr.cr_version "2.9.0" && spec.enabled
        then elim spec.max_acceptable_lag [ none ↦ none | some max ↦ some (spec, max) ]
        else none
  ]

  unfoldable pub only_pod : List Pod → Exec W Write Pod
  only_pod [] = raise (errorf "no primary pod found")
  only_pod (p ∷ []) = pure p
  only_pod _ = raise (errorf "multiple primary pods found")

  unfoldable pub get_primary_pod : PerconaPgCluster → Exec W Write Pod
  unfolding only_pod
  get_primary_pod cr = do
    four ← lift (env.is_patroni4 cr)
    pods ← read (env.list_pods_of_role cr.meta.name (if four then "primary" else "master"))
    only_pod pods

  -- The root of the error is another.
  unfoldable pub primary_for_lag : PerconaPgCluster → Exec W Write Pod
  unfolding get_primary_pod
  primary_for_lag cr = do
    found ← attempt (get_primary_pod cr)
    case_of found pure (λ e. raise primary_pod_not_found)

  -- The trimmed answer of a query.
  unfoldable pub query : PerconaPgCluster → String → Exec W Write String
  unfolding primary_for_lag
  query cr sql = do
    primary ← primary_for_lag cr
    out ← read (env.run_sql primary sql)
    pure (env.trim_space out)

  unfoldable pub lag_from_streaming_host : PerconaPgCluster → Exec W Write ℤ
  unfolding query
  lag_from_streaming_host standby = do
    lag ←
        query standby
          "SELECT latest_end_lsn - pg_last_wal_replay_lsn() AS value from pg_catalog.pg_stat_wal_receiver;"
    if lag == "" then raise invalid_lag_query_output else lift (env.parse_int lag)

  unfoldable pub current_wal_lsn : PerconaPgCluster → Exec W Write String
  unfolding query
  current_wal_lsn cr = do
    lsn ← query cr "SELECT pg_current_wal_lsn();"
    if lsn == "" then raise (errorf "empty WAL LSN result") else pure lsn

  unfoldable pub wal_lag_bytes : String → PerconaPgCluster → Exec W Write ℤ
  unfolding query
  wal_lag_bytes lsn standby = do
    lag ← query standby (
        str_append "SELECT pg_wal_lsn_diff('"
          (str_append lsn "'::pg_lsn, pg_last_wal_replay_lsn());"))
    lift (env.parse_int lag)

  unfoldable pub main_site : List String → Exec W Write PerconaPgCluster
  main_site (namespace ∷ name ∷ []) = read (env.get_main_site namespace name)
  main_site _ = raise (errorf "invalid format for annotation")

  unfoldable pub lag_from_main_site : PerconaPgCluster → Exec W Write ℤ
  unfolding main_site current_wal_lsn wal_lag_bytes
  lag_from_main_site standby =
      if main_site_of standby == "" then raise (errorf "annotation is missing or empty") else do
        site ← main_site (split b'/' (main_site_of standby))
        lsn ← current_wal_lsn site
        wal_lag_bytes lsn standby

  -- The errors so far come first.
  unfoldable pub from_main_site : Option Err → PerconaPgCluster → Exec W Write ℤ
  unfolding lag_from_main_site
  from_main_site errs standby = do
    lag ← attempt (lag_from_main_site standby)
    case_of lag pure (λ e. raise (elim errs [ none ↦ e | some before ↦ appended before e ]))

  unfoldable pub from_host : StandbySpec → PerconaPgCluster → Exec W Write ℤ
  unfolding lag_from_streaming_host from_main_site
  from_host spec standby = do
    lag ← attempt (lag_from_streaming_host standby)
    case_of lag pure
        (λ e. if spec.repo_name == "" then raise e else from_main_site (some e) standby)

  unfoldable pub get_standby_lag : StandbySpec → PerconaPgCluster → Exec W Write ℤ
  unfolding from_host from_main_site
  get_standby_lag spec standby =
      if not (spec.host == "") then from_host spec standby else from_main_site none standby

  abbrev pub send_signal : Signal → Exec W Write (Unit {0})
  send_signal x = send (signal_lag x) (env.set_signal x)

  unfoldable pub set_pod_replication_lag_signal : PerconaPgCluster → Bool → Exec W Write (Unit {0})
  unfolding get_primary_pod
  set_pod_replication_lag_signal cr ready = do
    primary ← get_primary_pod cr
    send_signal (record { pod = primary.meta.name; ready = ready })
