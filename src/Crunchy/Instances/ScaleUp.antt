-- ===== src/Crunchy/Instances/ScaleUp.antt =====
-- internal/controller/postgrescluster/instance.go: the names in `scaleUpInstances`, and
-- `naming.GenerateInstance`. `rand.String(4)` is a parameter: what its successive calls return.
pub mod Unique
pub mod Ends
use Prim.Native.String.{◌++◌ as str_append}
use percona_postgresql_opera.Prelude.{
  ℕ, zero, suc, ◌-◌, String, if◌then◌else◌, Option, none, some, is_some, List, [], ◌∷◌, ◌++◌,
  contains, length,
}
use percona_postgresql_opera.Crunchy.Instances.{PostgresInstanceSetSpec, Instance}

-- The name that `GenerateInstance` gives.
abbrev pub instance_name : String → String → String → String
instance_name cluster set random =
    str_append cluster (str_append "-" (str_append set (str_append "-" random)))

-- The names of the observed instances of a set that have a runner.
unfoldable pub runner_names : List Instance → List String
runner_names [] = []
runner_names (i ∷ is) =
    let rest = runner_names is in if is_some i.runner then i.name ∷ rest else rest

module _ (next : ℕ → String) where
  -- Another name is generated while the last is taken; with it comes the number of the next call.
  -- The number in front is fuel.
  unfoldable pub generate_name : ℕ → List String → ℕ → Option (String × ℕ)
  generate_name zero taken call = none
  generate_name (suc fuel) taken call =
      let rest = generate_name fuel taken (suc call) in
      if contains taken (next call) then rest else some (next call, suc call)

  -- As many names are appended as are missing; available ones are used first. A name is generated
  -- each time, also where an available one is used.
  unfoldable pub add_names : ℕ → ℕ → List String → List String → ℕ → Option (List String)
  unfolding generate_name
  add_names fuel zero available names call = some names
  add_names fuel (suc missing) (a ∷ available) names call =
      add_names fuel missing available (names ++ a ∷ []) (suc call)
  add_names fuel (suc missing) [] names call = elim (generate_name fuel names call) [
    | none ↦ none
    | some (name, later) ↦ add_names fuel missing [] (names ++ name ∷ []) later
  ]

-- The names of the instances that `scaleUpInstances` reconciles, where `observed` are those of the
-- set.
unfoldable pub scale_up_names :
    (ℕ → String)
    → ℕ
    → String
    → PostgresInstanceSetSpec
    → List Instance
    → List String
    → Option (List String)
unfolding runner_names add_names
scale_up_names random fuel cluster set observed available =
    let names = runner_names observed in
    add_names (λ call. instance_name cluster set.name (random call)) fuel
      (set.replicas - length names) available names 0
