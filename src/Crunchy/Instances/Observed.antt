-- ===== src/Crunchy/Instances/Observed.antt =====
-- internal/controller/postgrescluster/instance.go: `newObservedInstances`, and the counts that
-- `observeInstances` puts into the cluster's status.
pub mod Pods
pub mod Counts
use Prim.Native.Nat.{◌%◌}
use percona_postgresql_opera.Prelude.{
  ℕ, ◌+◌, String, Bool, true, false, ◌==◌, if◌then◌else◌, Option, none, some, deref, List, [], ◌∷◌,
  ◌++◌, length, value_at,
}
use percona_postgresql_opera.Types.Meta.{Pod, label_instance, label_instance_set}
use percona_postgresql_opera.Types.Cluster.{PostgresInstanceSetStatus}
use percona_postgresql_opera.Types.Volume.{StatefulSet}
use percona_postgresql_opera.Cluster.State.{add32}
use percona_postgresql_opera.Crunchy.Instances.{
  PostgresInstanceSetSpec, Instance, surely, is_pod_ready, pod_matches_pod_template,
}

-- `sets[name]`: of several sets with the name, the last.
unfoldable pub spec_of : List PostgresInstanceSetSpec → String → Option PostgresInstanceSetSpec
spec_of [] name = none
spec_of (x ∷ xs) name = elim (spec_of xs name) [
  | some y ↦ some y
  | none ↦ if x.name == name then some x else none
]

abbrev pub instance_of : Pod → String
instance_of p = value_at p.meta.labels label_instance

abbrev pub set_of : Pod → String
set_of p = value_at p.meta.labels label_instance_set

abbrev pub of_runner : List PostgresInstanceSetSpec → StatefulSet → Instance
of_runner sets r =
    let set_name = value_at r.meta.labels label_instance_set in
    record {
      name = r.meta.name;
      pods = [];
      runner = some r;
      spec = spec_of sets set_name;
      set_name = set_name;
    }

abbrev pub of_pod : List PostgresInstanceSetSpec → Pod → Instance
of_pod sets p = record {
  name = instance_of p;
  pods = p ∷ [];
  runner = none;
  spec = spec_of sets (set_of p);
  set_name = set_of p;
}

abbrev pub with_pod : Pod → Instance → Instance
with_pod p i = record i { pods = i.pods ++ p ∷ [] }

unfoldable pub observed_runners : List PostgresInstanceSetSpec → List StatefulSet → List Instance
observed_runners sets [] = []
observed_runners sets (r ∷ rs) = of_runner sets r ∷ observed_runners sets rs

-- `observed.byName[pi]`, which is the last instance of the name, gets the pod.
unfoldable pub place : Pod → List Instance → Option (List Instance)
place p [] = none
place p (i ∷ is) = elim (place p is) [
  | some js ↦ some (i ∷ js)
  | none ↦ if i.name == instance_of p then some (with_pod p i ∷ is) else none
]

unfoldable pub add_pod : List PostgresInstanceSetSpec → Pod → List Instance → List Instance
unfolding place
add_pod sets p is = deref (place p is) (is ++ of_pod sets p ∷ [])

unfoldable pub add_pods : List PostgresInstanceSetSpec → List Pod → List Instance → List Instance
unfolding add_pod
add_pods sets [] is = is
add_pods sets (p ∷ ps) is = add_pods sets ps (add_pod sets p is)

-- The field `forCluster`.
unfoldable pub new_observed_instances :
    List PostgresInstanceSetSpec → List StatefulSet → List Pod → List Instance
unfolding observed_runners add_pods
new_observed_instances sets runners pods = add_pods sets pods (observed_runners sets runners)

-- `bySet[name]`
unfoldable pub in_set : List Instance → String → List Instance
in_set [] name = []
in_set (i ∷ is) name = let rest = in_set is name in if i.set_name == name then i ∷ rest else rest

abbrev pub one_if : Bool → ℕ
one_if true = 1
one_if false = 0

-- What one instance adds to the counts. An `int32` is kept as its residue modulo 2 ^ 32, of which
-- those from 2 ^ 31 on stand for the negative numbers.
abbrev pub counted_instance : Instance → PostgresInstanceSetStatus → PostgresInstanceSetStatus
counted_instance i st = record st {
  replicas = add32 st.replicas (length i.pods % 4294967296);
  ready_replicas = add32 st.ready_replicas (one_if (surely (is_pod_ready i)));
  updated_replicas = add32 st.updated_replicas (one_if (surely (pod_matches_pod_template i)));
}

unfoldable pub count_instances :
    List Instance → PostgresInstanceSetStatus → PostgresInstanceSetStatus
count_instances [] st = st
count_instances (i ∷ is) st = count_instances is (counted_instance i st)

-- The status of one instance set in `observeInstances`.
unfoldable pub instance_set_status : List Instance → String → PostgresInstanceSetStatus
unfolding count_instances in_set
instance_set_status observed name =
    count_instances (in_set observed name)
      (record { name = name; ready_replicas = 0; replicas = 0; updated_replicas = 0 })
