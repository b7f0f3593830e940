-- ===== src/Crunchy/Instances.antt =====
-- internal/controller/postgrescluster/instance.go: the instances of a cluster as they are observed.
-- A method that returns a value and whether it is known returns a pair.
pub mod Observed
pub mod Rollout
pub mod ScaleDown
pub mod ScaleUp
pub mod Names
pub mod Priority
use Prim.Native.String.{compare}
use text.Mathlib.Text.{find?, get?, starts_with, is_lt}
use Prim.Native.String.{len}
use percona_postgresql_opera.Prelude.{
  ℕ, String, Bool, true, false, not, ◌&&◌, ◌||◌, ◌==◌, nat_eq, if◌then◌else◌, Option, none, some,
  deref, List, [], ◌∷◌, value_at,
}
use percona_postgresql_opera.Types.Meta.{
  ConditionStatus, condition_true, JobCondition, Pod, ContainerStatus, label_role,
}
use percona_postgresql_opera.Types.Volume.{StatefulSet}
use percona_postgresql_opera.Controller.{is_true}

-- `v1beta1.PostgresInstanceSetSpec`, as its defaults leave it: the replicas are not nil.
pub record PostgresInstanceSetSpec : Type 0 where
  pub name : String
  pub replicas : ℕ
  pub has_wal_volume : Bool

-- `set_name` is the key of `bySet` under which the instance is.
pub record Instance : Type 0 where
  pub name : String
  pub pods : List Pod
  pub runner : Option StatefulSet
  pub spec : Option PostgresInstanceSetSpec
  pub set_name : String

abbrev pub Known : Type 0
Known = Bool × Bool

abbrev pub unknown : Known
unknown = (false, false)

-- `x, known := …; known && x`
abbrev pub surely : Known → Bool
surely (x, known) = known && x

abbrev pub has_leader_role : Pod → Bool
has_leader_role p =
    (value_at p.meta.labels label_role == "primary")
    || (value_at p.meta.labels label_role == "master")

-- The first condition of the kind.
unfoldable pub ready_condition : List JobCondition → Known
ready_condition [] = unknown
ready_condition (x ∷ xs) =
    if x.kind == "Ready" then (is_true x.status, true) else ready_condition xs

-- The first container of the name.
unfoldable pub container_running : List ContainerStatus → String → Option Bool
container_running [] name = none
container_running (x ∷ xs) name =
    if x.name == name then some x.is_running else container_running xs name

unfoldable pub running_in : List ContainerStatus → List ContainerStatus → String → Known
running_in containers init_containers name = elim (container_running containers name) [
  | some b ↦ (b, true)
  | none ↦ elim (container_running init_containers name) [ some b ↦ (b, true) | none ↦ unknown ]
]

-- The role that Patroni notes in the pod's annotation.
unfoldable pub writable_role : String → Known
writable_role member = elim (find? member "\"role\":") [
  | none ↦ unknown
  | some role ↦
      let rest = deref (get? member role (len member)) "" in
      (starts_with rest "\"role\":\"master\"" || starts_with rest "\"role\":\"primary\"", true)
]

-- A function of the only pod, unknown where there is none or more than one.
abbrev pub of_only_pod : List Pod → (Pod → Known) → Known
of_only_pod (p ∷ []) f = f p
of_only_pod _ f = unknown

unfoldable pub is_primary : Instance → Known
is_primary i = of_only_pod i.pods λ p. (has_leader_role p, true)

unfoldable pub is_pod_ready : Instance → Known
is_pod_ready i = of_only_pod i.pods λ p. ready_condition p.conditions

unfoldable pub is_terminating : Instance → Known
is_terminating i = of_only_pod i.pods λ p. (p.meta.is_deleting, true)

unfoldable pub is_running : Instance → String → Known
is_running i container = of_only_pod i.pods λ p. running_in p.containers p.init_containers container

unfoldable pub is_writable : Instance → Known
is_writable i = of_only_pod i.pods λ p. writable_role (value_at p.meta.annotations "status")

unfoldable pub is_available : Instance → Known
unfolding is_pod_ready is_terminating
is_available i =
    let (terminating, known_terminating) = is_terminating i in
    let (ready, known_ready) = is_pod_ready i in
    (ready && not terminating, known_ready && known_terminating)

abbrev pub matches_template : StatefulSet → Pod → Known
matches_template runner p =
    if not (nat_eq runner.observed_generation runner.meta.generation)
    then unknown
    else (value_at p.meta.labels "controller-revision-hash" == runner.update_revision, true)

unfoldable pub pod_matches_pod_template : Instance → Known
pod_matches_pod_template i = elim i.runner [
  | none ↦ unknown
  | some runner ↦ of_only_pod i.pods (matches_template runner)
]

-- The comparison of `byPriority`.
unfoldable pub less_priority : Instance → Instance → Bool
unfolding is_primary is_available
less_priority a b =
    if surely (is_primary a)
    then false
    else if surely (is_primary b)
    then true
    else if surely (is_available a)
    then false
    else if surely (is_available b)
    then true
    else is_lt (compare a.name b.name)

-- `writablePod`
unfoldable pub writable_pod : List Instance → String → Option (Pod × Instance)
writable_pod [] container = none
writable_pod (i ∷ is) container =
    let (terminating, known_terminating) = is_terminating i in
    let (writable, known_writable) = is_writable i in
    let rest = writable_pod is container in
    if terminating || not known_terminating
    then rest
    else if not writable || not known_writable
    then rest
    else if surely (is_running i container)
    then first_pod i.pods i rest
    else rest
  where
    first_pod : List Pod → Instance → Option (Pod × Instance) → Option (Pod × Instance)
    first_pod [] i rest = rest
    first_pod (p ∷ ps) i rest = some (p, i)

-- `runningPods`
unfoldable pub running_pods : List Instance → String → List Pod × Bool
running_pods [] container = ([], true)
running_pods (i ∷ is) container =
    let (pods, complete) = running_pods is container in
    let (terminating, known_terminating) = is_terminating i in
    if terminating || not known_terminating then (pods, false) else elim i.pods [
      | [] ↦ (pods, false)
      | p ∷ ps ↦ if surely (is_running i container) then (p ∷ pods, complete) else (pods, false)
    ]
