-- ===== src/Crunchy/Instances/ScaleDown.antt =====
-- internal/controller/postgrescluster/instance.go: `scaleDownInstances` and `podsToKeep`. Deleting an
-- instance and the order in which Go visits a map are parameters.
pub mod Kept
pub mod Leader
use percona_postgresql_opera.Prelude.{
  ℕ, String, Bool, true, false, not, ◌&&◌, ◌==◌, ltb, if◌then◌else◌, List, [], ◌∷◌, ◌++◌, length,
  contains,
}
use percona_postgresql_opera.Exec.{Exec, pure, ◌>>=◌, ◌>>◌}
use percona_postgresql_opera.Types.Meta.{Pod}
use percona_postgresql_opera.Crunchy.Instances.{PostgresInstanceSetSpec, Instance, has_leader_role}
use percona_postgresql_opera.Crunchy.Instances.Observed.{instance_of, set_of}

-- `map[string]int`
abbrev pub Wanted : Type 0
Wanted = List (String × ℕ)

unfoldable pub want : Wanted → String → ℕ → Wanted
want [] name n = (name, n) ∷ []
want ((m, k) ∷ rest) name n = if m == name then (name, n) ∷ rest else (m, k) ∷ want rest name n

unfoldable pub wanted : List PostgresInstanceSetSpec → Wanted → Wanted
unfolding want
wanted [] m = m
wanted (x ∷ xs) m = wanted xs (want m x.name x.replicas)

unfoldable pub leaders : List Pod → List Pod
leaders [] = []
leaders (p ∷ ps) = let rest = leaders ps in if has_leader_role p then p ∷ rest else rest

-- The second loop of `f`: `keep` so far, up to the number that is wanted.
unfoldable pub keep_others : List Pod → List Pod → ℕ → List Pod
keep_others [] keep n = keep
keep_others (p ∷ ps) keep n =
    keep_others ps (if not (has_leader_role p) && ltb (length keep) n then keep ++ p ∷ [] else keep)
      n

-- The function `f` in `podsToKeep`.
unfoldable pub keep_of_set : List Pod → ℕ → List Pod
unfolding leaders keep_others
keep_of_set pods n = keep_others pods (if ltb 0 n then leaders pods else []) n

unfoldable pub pods_in_set : List Pod → String → List Pod
pods_in_set [] name = []
pods_in_set (p ∷ ps) name =
    let rest = pods_in_set ps name in if set_of p == name then p ∷ rest else rest

-- The map comes as the list of its entries in the order in which Go visits them.
unfoldable pub pods_to_keep : List Pod → Wanted → List Pod
unfolding keep_of_set pods_in_set
pods_to_keep pods [] = []
pods_to_keep pods ((name, n) ∷ rest) =
    keep_of_set (pods_in_set pods name) n ++ pods_to_keep pods rest

unfoldable pub pods_of : List Instance → List Pod
pods_of [] = []
pods_of (i ∷ is) = i.pods ++ pods_of is

-- `sets.String` as a list
unfoldable pub names_of : List Pod → List String
names_of [] = []
names_of (p ∷ ps) = instance_of p ∷ names_of ps

module _ {W E : Type 0} (delete_instance : String → Exec W E (Unit {0})) where
  unfoldable pub delete_pods : List Pod → List String → Exec W E (Unit {0})
  delete_pods [] keep = pure tt
  delete_pods (p ∷ ps) keep =
      let rest = delete_pods ps keep in
      if not (contains keep (instance_of p))
      then (do delete_instance (instance_of p); rest)
      else rest

  -- The loops over the instances and their pods visit the pods in the order of `pods_of`.
  unfoldable pub scale_down_instances :
      (Wanted → Wanted) → List PostgresInstanceSetSpec → List Instance → Exec W E (Unit {0})
  unfolding delete_pods names_of pods_to_keep pods_of wanted
  scale_down_instances order sets observed =
      let pods = pods_of observed in
      delete_pods pods (names_of (pods_to_keep pods (order (wanted sets []))))
