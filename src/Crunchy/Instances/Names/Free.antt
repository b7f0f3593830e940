-- ===== src/Crunchy/Instances/Names/Free.antt =====
-- The names that are offered for new instances.
use percona_postgresql_opera.Prelude.{
  ◌≡◌, ◌≢◌, ◌∙◌, ap, refl, not, is_some, Option, none, some, value_at, sym, subst, inl, inr, String,
  true, false, ◌++◌, ◌&&◌, ◌==◌, eq_iff, Bool-cases, List, [], ◌∷◌, All, All-append, All-map, arith,
}
use percona_postgresql_opera.Types.Meta.{
  label_role, label_instance, label_instance_set, role_postgres_data, role_postgres_wal,
}
use percona_postgresql_opera.Types.Volume.{Pvc, StatefulSet}
use percona_postgresql_opera.Crunchy.Instances.{PostgresInstanceSetSpec, Instance}
use percona_postgresql_opera.Crunchy.Instances.Names.{
  claim_instance, is_volume_of, set_volumes, wal_volumes, with_wal, by_name, is_free, free_names,
  find_available_instance_names,
}
use mathlib.Core.List.{Memᴰ}

-- Among the volumes is one of the set, with this role and for the instance of this name.
abbrev pub HasVolume : PostgresInstanceSetSpec → List Pvc → String → String → Type 0
HasVolume set volumes role name =
    (v : Pvc) × Memᴰ v volumes
    × (v.meta.is_deleting ≡ false)
    × (value_at v.meta.labels label_role ≡ role)
    × (value_at v.meta.labels label_instance_set ≡ set.name)
    × (value_at v.meta.labels label_instance ≡ name)

is_volume_of_lem :
    (set : PostgresInstanceSetSpec) (volumes : List Pvc) (role : String) (v : Pvc)
    → Memᴰ v volumes
    → is_volume_of set role v ≡ true
    → HasVolume set volumes role (claim_instance v)
is_volume_of_lem set volumes role v m h = (
  v,
  m,
  ground (arith, h),
  (eq_iff _ _).0 (ground (arith, h)),
  (eq_iff _ _).0 (ground (arith, h)),
  refl,
)

-- The last of the instances of the name, if there is one, has no runner.
abbrev pub HasNoRunner : List Instance → String → Type 0
HasNoRunner observed name =
    (before after : List Instance) (i : Instance)
    → observed ≡ before ++ i ∷ after
    → i.name ≡ name
    → All (λ j. j.name ≢ name) after
    → i.runner ≡ none

by_name_absent :
    (after : List Instance) (name : String)
    → All (λ j. j.name ≢ name) after
    → by_name after name ≡ none
unfolding by_name
by_name_absent [] name h = refl
by_name_absent (j ∷ js) name h =
    rw (by_name_absent js name h.1) (elim (Bool-cases (j.name == name)) [
      | inl e ↦ absurd (h.0 ((eq_iff _ _).0 e))
      | inr e ↦ rw e refl
    ])

by_name_last :
    (before after : List Instance) (i : Instance) (name : String)
    → i.name ≡ name
    → All (λ j. j.name ≢ name) after
    → by_name (before ++ i ∷ after) name ≡ some i
unfolding by_name
by_name_last [] after i name e h = rw (by_name_absent after name h) (rw ((eq_iff _ _).1 e) refl)
by_name_last (x ∷ before) after i name e h = rw (by_name_last before after i name e h) refl

is_free_lem :
    (observed : List Instance) (name : String)
    → is_free (by_name observed name) ≡ true
    → HasNoRunner observed name
is_free_lem observed name free before after i split e others =
    no_runner i.runner (subst (λ o. is_free o ≡ true) found free)
  where
    found : by_name observed name ≡ some i
    found = ap (λ is. by_name is name) split ∙ by_name_last before after i name e others

    no_runner : (o : Option StatefulSet) → not (is_some o) ≡ true → o ≡ none
    no_runner none h = refl
    no_runner (some r) h = absurd (cc h)

-- The name may be used again.
abbrev pub IsReusable : PostgresInstanceSetSpec → List Instance → List Pvc → String → Type 0
IsReusable set observed volumes name =
    HasNoRunner observed name
    × HasVolume set volumes role_postgres_data name
    × (set.has_wal_volume ≡ true → HasVolume set volumes role_postgres_wal name)

abbrev Found : PostgresInstanceSetSpec → List Pvc → Pvc → Type 0
Found set volumes v = HasVolume set volumes role_postgres_data (claim_instance v)

set_volumes-Found :
    (set : PostgresInstanceSetSpec) (all vs : List Pvc)
    → ((v : Pvc) → Memᴰ v vs → Memᴰ v all)
    → All (Found set all) (set_volumes set vs)
unfolding set_volumes
set_volumes-Found set all [] sub = tt
set_volumes-Found set all (v ∷ vs) sub =
    let rest = set_volumes-Found set all vs (λ w m. sub w (Memᴰ.tail m)) in
    elim (Bool-cases (is_volume_of set role_postgres_data v)) [
      | inl h ↦
          rw h (is_volume_of_lem set all role_postgres_data v (sub v (Memᴰ.head refl)) h, rest)
      | inr h ↦ rw h rest
    ]

-- Both volumes are there.
abbrev Paired : PostgresInstanceSetSpec → List Pvc → Pvc → Type 0
Paired set volumes v =
    Found set volumes v × HasVolume set volumes role_postgres_wal (claim_instance v)

same_claim :
    (set : PostgresInstanceSetSpec) (all : List Pvc) (v : Pvc) (name : String)
    → HasVolume set all role_postgres_data name
    → (claim_instance v == name) ≡ true
    → Found set all v
same_claim set all v name data_volume h =
    subst (HasVolume set all role_postgres_data) (sym ((eq_iff _ _).0 h)) data_volume

wal_volumes-Paired :
    (set : PostgresInstanceSetSpec) (all vs : List Pvc) (name : String)
    → HasVolume set all role_postgres_data name
    → ((v : Pvc) → Memᴰ v vs → Memᴰ v all)
    → All (Paired set all) (wal_volumes set name vs)
unfolding wal_volumes
wal_volumes-Paired set all [] name data_volume sub = tt
wal_volumes-Paired set all (v ∷ vs) name data_volume sub =
    let rest = wal_volumes-Paired set all vs name data_volume (λ w m. sub w (Memᴰ.tail m)) in
    elim (Bool-cases (is_volume_of set role_postgres_wal v && (claim_instance v == name))) [
      | inl h ↦ rw h (
        (
          same_claim set all v name data_volume (ground (arith, h)),
          is_volume_of_lem set all role_postgres_wal v (sub v (Memᴰ.head refl)) (ground (arith, h)),
        ),
        rest,
      )
      | inr h ↦ rw h rest
    ]

with_wal-Paired :
    (set : PostgresInstanceSetSpec) (all vs : List Pvc)
    → All (Found set all) vs
    → All (Paired set all) (with_wal set all vs)
unfolding with_wal
with_wal-Paired set all [] found = tt
with_wal-Paired set all (v ∷ vs) found =
    All-append (Paired set all) (wal_volumes set (claim_instance v) all) (with_wal set all vs)
      (wal_volumes-Paired set all all (claim_instance v) found.0 (λ w m. m))
      (with_wal-Paired set all vs found.1)

free_names-All :
    (P : String → Type 0) (observed : List Instance) (vs : List Pvc)
    → All (λ v. is_free (by_name observed (claim_instance v)) ≡ true → P (claim_instance v)) vs
    → All P (free_names observed vs)
unfolding free_names
free_names-All P observed [] h = tt
free_names-All P observed (v ∷ vs) h =
    let rest = free_names-All P observed vs h.1 in
    elim (Bool-cases (is_free (by_name observed (claim_instance v)))) [
      | inl free ↦ rw free (h.0 free, rest)
      | inr used ↦ rw used rest
    ]

-- Each name that is offered for a new instance of a set is not that of an instance with a runner (of
-- several instances of the name the last counts), and there are volumes of the set for it that are not being deleted: one for the data, and one for the
-- WAL if the set has such volumes.
pub find_available_instance_names-IsReusable :
    (set : PostgresInstanceSetSpec) (observed : List Instance) (volumes : List Pvc)
    → All (IsReusable set observed volumes) (find_available_instance_names set observed volumes)
unfolding find_available_instance_names
find_available_instance_names-IsReusable set observed volumes =
    elim (Bool-cases set.has_wal_volume) [
      | inl wal ↦ simp wal (
          free_names-All (IsReusable set observed volumes) observed _ (
            All-map _ _ (with_wal set volumes (set_volumes set volumes))
              (λ v h free. (is_free_lem observed _ free, h.0, λ _. h.1))
              (with_wal-Paired set volumes _ (set_volumes-Found set volumes volumes (λ w m. m)))))
      | inr no_wal ↦ simp no_wal (
          free_names-All (IsReusable set observed volumes) observed _ (
            All-map _ _ (set_volumes set volumes)
              (λ v h free. (is_free_lem observed _ free, h, λ wal. absurd (cc (wal, no_wal))))
              (set_volumes-Found set volumes volumes (λ w m. m))))
    ]
