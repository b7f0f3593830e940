-- ===== src/Crunchy/Instances/Names.antt =====
-- internal/controller/postgrescluster/instance.go: `findAvailableInstanceNames`, which names of
-- instances have claims left and may be used again.
pub mod Free
use percona_postgresql_opera.Prelude.{
  String, Bool, true, false, not, ◌&&◌, ◌||◌, ◌==◌, if◌then◌else◌, Option, none, some, is_some,
  List, [], ◌∷◌, ◌++◌, value_at,
}
use percona_postgresql_opera.Types.Meta.{
  label_role, label_instance, label_instance_set, role_postgres_data, role_postgres_wal,
}
use percona_postgresql_opera.Types.Volume.{Pvc}
use percona_postgresql_opera.Crunchy.Instances.{PostgresInstanceSetSpec, Instance}

abbrev pub claim_instance : Pvc → String
claim_instance v = value_at v.meta.labels label_instance

-- The claim has this role, is of the set, and is not being deleted.
abbrev pub is_volume_of : PostgresInstanceSetSpec → String → Pvc → Bool
is_volume_of set role v =
    not v.meta.is_deleting
    && ((value_at v.meta.labels label_role == role)
        && (value_at v.meta.labels label_instance_set == set.name))

unfoldable pub set_volumes : PostgresInstanceSetSpec → List Pvc → List Pvc
set_volumes set [] = []
set_volumes set (v ∷ vs) =
    let rest = set_volumes set vs in
    if is_volume_of set role_postgres_data v then v ∷ rest else rest

-- The claims for WAL of the instance: each is appended, as the source does.
unfoldable pub wal_volumes : PostgresInstanceSetSpec → String → List Pvc → List Pvc
wal_volumes set name [] = []
wal_volumes set name (v ∷ vs) =
    let rest = wal_volumes set name vs in
    if is_volume_of set role_postgres_wal v && (claim_instance v == name) then v ∷ rest else rest

unfoldable pub with_wal : PostgresInstanceSetSpec → List Pvc → List Pvc → List Pvc
unfolding wal_volumes
with_wal set volumes [] = []
with_wal set volumes (v ∷ vs) =
    wal_volumes set (claim_instance v) volumes ++ with_wal set volumes vs

-- `observedInstances.byName[name]`: the last of the name.
unfoldable pub by_name : List Instance → String → Option Instance
by_name [] name = none
by_name (i ∷ is) name = elim (by_name is name) [
  | some j ↦ some j
  | none ↦ if i.name == name then some i else none
]

-- `instance == nil || instance.Runner == nil`
abbrev pub is_free : Option Instance → Bool
is_free none = true
is_free (some i) = not (is_some i.runner)

unfoldable pub free_names : List Instance → List Pvc → List String
unfolding by_name
free_names observed [] = []
free_names observed (v ∷ vs) =
    let rest = free_names observed vs in
    if is_free (by_name observed (claim_instance v)) then claim_instance v ∷ rest else rest

unfoldable pub find_available_instance_names :
    PostgresInstanceSetSpec → List Instance → List Pvc → List String
unfolding set_volumes with_wal free_names
find_available_instance_names set observed volumes =
    let found = set_volumes set volumes in
    free_names observed (if set.has_wal_volume then with_wal set volumes found else found)
