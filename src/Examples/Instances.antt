-- ===== src/Examples/Instances.antt =====
-- The theorems on the instances of a cluster at small objects.
use percona_postgresql_opera.Prelude.{
  Bool, ◌≡◌, refl, ◌≢◌, String, false, List, [], ◌∷◌, none, some, All, arith, length, lookup,
}
use percona_postgresql_opera.Exec.{Result, ok, send}
use percona_postgresql_opera.Exec.Writes.{Sends}
use percona_postgresql_opera.Types.Meta.{
  Pod, condition_true, label_role, label_instance, label_instance_set, role_postgres_data,
}
use percona_postgresql_opera.Types.Volume.{Pvc}
use percona_postgresql_opera.Crunchy.Instances.{PostgresInstanceSetSpec, Instance}
use percona_postgresql_opera.Crunchy.Instances.Observed.{
  new_observed_instances, instance_set_status, in_set,
}
use percona_postgresql_opera.Crunchy.Instances.Observed.Pods.{
  total_pods, tally, tally_all, IsNamed, new_observed_instances-Placed,
}
use percona_postgresql_opera.Crunchy.Instances.Observed.Counts.{
  Bounded, instance_set_status-Bounded,
}
use percona_postgresql_opera.Crunchy.Instances.ScaleDown.{
  leaders, keep_of_set, pods_of, scale_down_instances,
}
use percona_postgresql_opera.Crunchy.Instances.ScaleDown.Kept.{Fills, keep_of_set-Fills}
use percona_postgresql_opera.Crunchy.Instances.ScaleDown.Leader.{scale_down_instances-Spares}
use percona_postgresql_opera.Crunchy.Instances.Names.{find_available_instance_names}
use percona_postgresql_opera.Crunchy.Instances.Names.Free.{
  IsReusable, find_available_instance_names-IsReusable,
}
use percona_postgresql_opera.Examples.Objects.{named, instance1}
use mathlib.Core.List.Memᴰ

abbrev pod_of : String → String → Pod
pod_of name role = record {
  meta = record (named name) {
    labels = (label_instance, name) ∷ (label_instance_set, "set1") ∷ (label_role, role) ∷ [];
  };
  phase = "Running";
  conditions = record { kind = "Ready"; status = condition_true } ∷ [];
  containers = [];
  init_containers = [];
}

abbrev pub leader1 : Pod
leader1 = pod_of "a" "primary"

abbrev pub replica1 : Pod
replica1 = pod_of "b" "replica"

abbrev set1 : PostgresInstanceSetSpec
set1 = record { name = "set1"; replicas = 1; has_wal_volume = false }

abbrev pub observed_of : Pod → Instance
observed_of p = record {
  name = p.meta.name;
  pods = p ∷ [];
  runner = some instance1;
  spec = some set1;
  set_name = "set1";
}

abbrev observed1 : List Instance
observed1 = observed_of leader1 ∷ observed_of replica1 ∷ []

abbrev pgdata1 : Pvc
pgdata1 = record {
  meta = record (named "c-pgdata") {
    labels =
        (label_role, role_postgres_data)
        ∷ (label_instance_set, "set1")
        ∷ (label_instance, "c")
        ∷ [];
  };
  claim = "1Gi";
  data_source = none;
}

abbrev quiet {ℓ} : {A : Type ℓ} → A → Unit {0} → Result (Unit {0}) × Unit {0}
quiet a w = (ok tt, w)

keep_of_set-Fills_example :
    Fills (length (keep_of_set (replica1 ∷ leader1 ∷ []) 1)) 1 (length (replica1 ∷ leader1 ∷ []))
unfolding leaders lookup
keep_of_set-Fills_example =
    keep_of_set-Fills (replica1 ∷ leader1 ∷ []) 1 (omega arith) (omega arith)

scale_down_instances-Spares_example :
    Sends
      (λ name. name ≢ "a")
      (scale_down_instances (λ name. send name (quiet name)) (λ m. m) (set1 ∷ []) observed1)
unfolding pods_of lookup
scale_down_instances-Spares_example =
    scale_down_instances-Spares quiet (λ m. m) (set1 ∷ []) observed1 leader1 set1 (λ m e h. h)
      (Memᴰ.head refl) refl (Memᴰ.head refl, refl) ((λ e. omega arith), tt)

new_observed_instances-Placed_example :
    ((f : Pod → Bool)
      → tally_all f (new_observed_instances (set1 ∷ []) (instance1 ∷ []) (leader1 ∷ replica1 ∷ []))
        ≡ tally f (leader1 ∷ replica1 ∷ []))
    × All IsNamed (new_observed_instances (set1 ∷ []) (instance1 ∷ []) (leader1 ∷ replica1 ∷ []))
new_observed_instances-Placed_example =
    new_observed_instances-Placed (set1 ∷ []) (instance1 ∷ []) (leader1 ∷ replica1 ∷ [])

instance_set_status-Bounded_example :
    Bounded (instance_set_status observed1 "set1")
    × ((instance_set_status observed1 "set1").replicas ≡ total_pods (in_set observed1 "set1"))
unfolding in_set
instance_set_status-Bounded_example = instance_set_status-Bounded observed1 "set1" (omega arith)

find_available_instance_names-IsReusable_example :
    All
      (IsReusable set1 observed1 (pgdata1 ∷ []))
      (find_available_instance_names set1 observed1 (pgdata1 ∷ []))
find_available_instance_names-IsReusable_example =
    find_available_instance_names-IsReusable set1 observed1 (pgdata1 ∷ [])
