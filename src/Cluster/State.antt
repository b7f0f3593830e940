-- ===== src/Cluster/State.antt =====
-- `getState`, and the sums over instance sets. An `int32` is its residue modulo 2 ^ 32.
pub mod Readiness
pub mod Ready
use percona_postgresql_opera.Prelude.{
  ℕ, ◌+◌, String, Bool, true, false, not, ◌&&◌, ◌||◌, nat_eq, ltb, if◌then◌else◌, List, [], ◌∷◌,
  Option, none, some, deref,
}
use percona_postgresql_opera.Types.Cluster.{
  PgBackRestStatus, AppState, app_init, app_paused, app_stopping, app_ready, PgClusterStatus,
  PerconaPgCluster, PostgresInstanceSetStatus, PostgresClusterStatus,
}
use Prim.Native.Nat.{◌%◌}

-- `a + b` on `int32`
abbrev pub add32 : ℕ → ℕ → ℕ
add32 a b = (a + b) % 4294967296

-- `n > 0` on `int32`
abbrev pub is_positive32 : ℕ → Bool
is_positive32 n = not (nat_eq n 0) && ltb n 2147483648

-- `var sum int32; for ... { sum += f(is) }`
unfoldable pub sum32 : (PostgresInstanceSetStatus → ℕ) → List PostgresInstanceSetStatus → ℕ → ℕ
sum32 f [] acc = acc
sum32 f (x ∷ xs) acc = sum32 f xs (add32 acc (f x))

-- Crunchy's status has a repository host that is not ready.
abbrev pub awaits_repo_host : Option PgBackRestStatus → Bool
awaits_repo_host none = false
awaits_repo_host (some s) = not (deref s.repo_host_ready true)

-- Some test of `getState` says that the cluster is still initialising.
unfoldable pub is_initialising : PgClusterStatus → PostgresClusterStatus → Bool
unfolding sum32
is_initialising status crunchy =
    awaits_repo_host crunchy.pgbackrest
    || not (nat_eq status.pgbouncer_ready status.pgbouncer_size)
    || not (nat_eq status.postgres_ready status.postgres_size)
    || not (nat_eq (sum32 (λ s. s.updated_replicas) crunchy.instance_sets 0) status.postgres_size)
    || nat_eq status.postgres_size 0

unfoldable pub get_state : PerconaPgCluster → PgClusterStatus → PostgresClusterStatus → AppState
unfolding is_initialising
get_state cr status crunchy =
    if deref cr.pause false
    then (if is_positive32 status.postgres_ready then app_stopping else app_paused)
    else (if is_initialising status crunchy then app_init else app_ready)
