-- ===== src/Crunchy/Instances/Rollout.antt =====
-- internal/controller/postgrescluster/instance.go: `rolloutInstances`. What it calls on an instance
-- whose pod is to be recreated is its argument, as in the source; `sort.Sort` is a parameter.
pub mod Bounds
use percona_postgresql_opera.Prelude.{
  ℕ, suc, ◌+◌, Bool, true, false, not, ◌&&◌, ◌||◌, ltb, if◌then◌else◌, is_some, List, [], ◌∷◌,
  length,
}
use percona_postgresql_opera.Exec.{Exec, pure, ◌>>=◌, ◌>>◌}
use percona_postgresql_opera.Crunchy.Instances.{
  PostgresInstanceSetSpec, Instance, surely, is_terminating, is_available, pod_matches_pod_template,
}

-- `numSpecified`
unfoldable pub num_specified : List PostgresInstanceSetSpec → ℕ
num_specified [] = 0
num_specified (x ∷ xs) = x.replicas + num_specified xs

-- The instance is in a set of the specification and is known not to be terminating.
unfoldable pub is_counted : Instance → Bool
is_counted i =
    let (terminating, known) = is_terminating i in is_some i.spec && not (not known || terminating)

-- `numAvailable`
unfoldable pub num_available : List Instance → ℕ
unfolding is_counted
num_available [] = 0
num_available (i ∷ is) =
    let rest = num_available is in
    if is_counted i && surely (is_available i) then suc rest else rest

-- The pod is known not to match its template.
unfoldable pub is_outdated : Instance → Bool
is_outdated i = let (matches, known) = pod_matches_pod_template i in known && not matches

-- `consider`
unfoldable pub considered : List Instance → List Instance
unfolding is_counted is_outdated
considered [] = []
considered (i ∷ is) =
    let rest = considered is in if is_counted i && is_outdated i then i ∷ rest else rest

-- The instance is known not to be available.
unfoldable pub is_unavailable : Instance → Bool
is_unavailable i = let (available, known) = is_available i in known && not available

module _ {W E : Type 0} (redeploy : Instance → Exec W E (Unit {0})) where
  -- The last loop, with the number of instances made unavailable so far. The test
  -- `numSpecified - numAvailable + made < 1` is on `int`.
  unfoldable pub roll : ℕ → ℕ → ℕ → List Instance → Exec W E (Unit {0})
  unfolding is_unavailable
  roll specified available made [] = pure tt
  roll specified available made (i ∷ is) =
      let same = roll specified available made is in
      let more = roll specified available (suc made) is in
      if is_unavailable i
      then (do redeploy i; same)
      else if ltb (specified + made) (available + 1)
      then (do redeploy i; more)
      else same

  unfoldable pub rollout_instances :
      (List Instance → List Instance)
      → List PostgresInstanceSetSpec
      → List Instance
      → Exec W E (Unit {0})
  unfolding roll num_specified num_available considered
  rollout_instances sort sets observed =
      let consider = considered observed in
      roll (num_specified sets) (num_available observed) 0
        (if ltb 1 (length consider) then sort consider else consider)
