-- ===== src/Crunchy/Instances/Observed/Counts.antt =====
-- The counts in the status of an instance set.
use Prim.Native.Nat.{◌%◌}
use percona_postgresql_opera.Prelude.{
  ℕ, ◌+◌, ◌≤◌, ◌<◌, ◌≡◌, sym, subst, Bool, true, false, String, Option, none, some, List, [], ◌∷◌,
  length, arith,
}
use percona_postgresql_opera.Types.Meta.{Pod}
use percona_postgresql_opera.Types.Volume.{StatefulSet}
use percona_postgresql_opera.Cluster.State.{add32}
use percona_postgresql_opera.Types.Cluster.{PostgresInstanceSetStatus}
use percona_postgresql_opera.Crunchy.Instances.{
  Instance, Known, unknown, matches_template, of_only_pod, surely, is_pod_ready,
  pod_matches_pod_template,
}
use percona_postgresql_opera.Crunchy.Instances.Observed.{
  one_if, counted_instance, count_instances, in_set, instance_set_status,
}
use percona_postgresql_opera.Crunchy.Instances.Observed.Pods.{total_pods}

-- Neither count exceeds that of the replicas.
pub record Bounded (st : PostgresInstanceSetStatus) : Type 0 where
  pub ready_bounded : st.ready_replicas ≤ st.replicas
  pub updated_bounded : st.updated_replicas ≤ st.replicas

one_if-le : (b : Bool) → one_if b ≤ 1
one_if-le true = omega arith
one_if-le false = omega arith

only_pod-le : (ps : List Pod) (f : Pod → Known) → one_if (surely (of_only_pod ps f)) ≤ length ps
only_pod-le [] f = omega arith
only_pod-le (p ∷ []) f = ground (arith, one_if-le (surely (f p)))
only_pod-le (p ∷ q ∷ ps) f = omega arith

ready-le : (i : Instance) → one_if (surely (is_pod_ready i)) ≤ length i.pods
unfolding is_pod_ready
ready-le i = only_pod-le i.pods _

updated-le : (i : Instance) → one_if (surely (pod_matches_pod_template i)) ≤ length i.pods
unfolding pod_matches_pod_template
updated-le i = case i.runner
  where
    case :
        (o : Option StatefulSet)
        → one_if (
            surely (elim o [
              | none ↦ unknown
              | some runner ↦ of_only_pod i.pods (matches_template runner)
            ]))
          ≤ length i.pods
    case none = omega arith
    case (some runner) = only_pod-le i.pods _

add32_of_length : (a n : ℕ) → a + n < 2147483648 → add32 a (n % 4294967296) ≡ a + n
add32_of_length a n h = omega (arith, h)

add32-le : (a x b n : ℕ) → a ≤ b → x ≤ n → add32 a x ≤ b + n
add32-le a x b n h k = omega (arith, h, k)

counted-Bounded :
    (i : Instance) (st : PostgresInstanceSetStatus)
    → Bounded st
    → st.replicas + length i.pods < 2147483648
    → Bounded (counted_instance i st)
      × ((counted_instance i st).replicas ≡ st.replicas + length i.pods)
counted-Bounded i st b h =
    let replicas = add32_of_length st.replicas (length i.pods) h in
    (
      record {
        ready_bounded =
            subst (λ z. (counted_instance i st).ready_replicas ≤ z) (sym replicas)
              (add32-le st.ready_replicas _ st.replicas _ b.ready_bounded (ready-le i));
        updated_bounded =
            subst (λ z. (counted_instance i st).updated_replicas ≤ z) (sym replicas)
              (add32-le st.updated_replicas _ st.replicas _ b.updated_bounded (updated-le i));
      },
      replicas,
    )

count_instances-Bounded :
    (is : List Instance) (st : PostgresInstanceSetStatus)
    → Bounded st
    → st.replicas + total_pods is < 2147483648
    → Bounded (count_instances is st)
      × ((count_instances is st).replicas ≡ st.replicas + total_pods is)
unfolding count_instances
count_instances-Bounded [] st b h = (b, omega arith)
count_instances-Bounded (i ∷ is) st b h =
    let (b', e) = counted-Bounded i st b (omega (arith, h)) in
    let (b'', e') = count_instances-Bounded is (counted_instance i st) b' (omega (arith, h, e)) in
    (b'', omega (arith, e, e'))

-- If an instance set has fewer than 2 ^ 31 pods, its status counts all of them as replicas, and
-- neither more ready nor more updated ones.
pub instance_set_status-Bounded :
    (observed : List Instance) (name : String)
    → total_pods (in_set observed name) < 2147483648
    → Bounded (instance_set_status observed name)
      × ((instance_set_status observed name).replicas ≡ total_pods (in_set observed name))
unfolding instance_set_status
instance_set_status-Bounded observed name few =
    let (b, e) =
      count_instances-Bounded (in_set observed name)
        (record { name = name; ready_replicas = 0; replicas = 0; updated_replicas = 0 })
        (record { ready_bounded = omega arith; updated_bounded = omega arith })
        (omega (arith, few)) in
    (b, omega (arith, e))
