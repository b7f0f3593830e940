-- ===== src/Crunchy/Instances/Observed/Pods.antt =====
-- Every observed pod is in one instance, the one that its label names.
use percona_postgresql_opera.Prelude.{
  ℕ, ◌+◌, Bool, ◌≡◌, refl, sym, ◌==◌, eq_iff, if◌then◌else◌, Bool-cases, inl, inr, Option, none,
  some, deref, List, [], ◌∷◌, ◌++◌, length, All, All-append, arith,
}
use percona_postgresql_opera.Types.Meta.{Pod}
use percona_postgresql_opera.Types.Volume.{StatefulSet}
use percona_postgresql_opera.Crunchy.Instances.{PostgresInstanceSetSpec, Instance}
use percona_postgresql_opera.Crunchy.Instances.Observed.{
  instance_of, of_pod, with_pod, observed_runners, place, add_pod, add_pods, new_observed_instances,
}

-- How many pods the instances have.
abbrev pub total_pods : List Instance → ℕ
total_pods [] = 0
total_pods (i ∷ is) = length i.pods + total_pods is

-- How many of the pods pass a test, and of all the instances' pods.
abbrev pub tally : (Pod → Bool) → List Pod → ℕ
tally f [] = 0
tally f (p ∷ ps) = let rest = tally f ps in if f p then 1 + rest else rest

abbrev pub tally_all : (Pod → Bool) → List Instance → ℕ
tally_all f [] = 0
tally_all f (i ∷ is) = tally f i.pods + tally_all f is

tally-append : (f : Pod → Bool) (ps qs : List Pod) → tally f (ps ++ qs) ≡ tally f ps + tally f qs
tally-append f [] qs = omega arith
tally-append f (p ∷ ps) qs = ground (arith, tally-append f ps qs)

-- The instance's pods name it.
abbrev pub IsNamed : Instance → Type 0
IsNamed i = All (λ p. instance_of p ≡ i.name) i.pods

-- What `place` answers.
abbrev Placed : Pod → List Instance → Option (List Instance) → Type 0
Placed p is none = Unit
Placed p is (some js) =
    ((f : Pod → Bool) → tally_all f js ≡ tally_all f is + tally f (p ∷ []))
    × (All IsNamed is → All IsNamed js)

place_here :
    (p : Pod) (i : Instance) (is : List Instance)
    → Placed p (i ∷ is) (if i.name == instance_of p then some (with_pod p i ∷ is) else none)
place_here p i is = elim (Bool-cases (i.name == instance_of p)) [
  | inl h ↦ rw h (
    λ f. omega (arith, tally-append f i.pods (p ∷ [])),
    λ all. (All-append _ i.pods (p ∷ []) all.0 (sym ((eq_iff _ _).0 h), tt), all.1),
  )
  | inr h ↦ rw h tt
]

place-Placed : (p : Pod) (is : List Instance) → Placed p is (place p is)
unfolding place
place-Placed p [] = tt
place-Placed p (i ∷ is) = case (place p is) (place-Placed p is)
  where
    case :
        (o : Option (List Instance))
        → Placed p is o
        → Placed p (i ∷ is) (elim o [
          | some js ↦ some (i ∷ js)
          | none ↦ if i.name == instance_of p then some (with_pod p i ∷ is) else none
        ])
    case none h = place_here p i is
    case (some js) h = (λ f. omega (arith, h.0 f), λ all. (all.0, h.1 all.1))

tally_all-append :
    (f : Pod → Bool) (is js : List Instance)
    → tally_all f (is ++ js) ≡ tally_all f is + tally_all f js
tally_all-append f [] js = omega arith
tally_all-append f (i ∷ is) js = omega (arith, tally_all-append f is js)

add_pod-Placed :
    (sets : List PostgresInstanceSetSpec) (p : Pod) (is : List Instance)
    → Placed p is (some (add_pod sets p is))
unfolding add_pod
add_pod-Placed sets p is = case (place p is) (place-Placed p is)
  where
    case :
        (o : Option (List Instance))
        → Placed p is o
        → Placed p is (some (deref o (is ++ of_pod sets p ∷ [])))
    case none h = (
      λ f. omega (arith, tally_all-append f is (of_pod sets p ∷ [])),
      λ all. All-append IsNamed is (of_pod sets p ∷ []) all ((refl, tt), tt),
    )
    case (some js) h = h

add_pods-Placed :
    (sets : List PostgresInstanceSetSpec) (ps : List Pod) (is : List Instance)
    → All IsNamed is
    → ((f : Pod → Bool) → tally_all f (add_pods sets ps is) ≡ tally_all f is + tally f ps)
      × All IsNamed (add_pods sets ps is)
unfolding add_pods
add_pods-Placed sets [] is all = (λ f. omega arith, all)
add_pods-Placed sets (p ∷ ps) is all =
    let (counted, named) = add_pod-Placed sets p is in
    let (more, rest) = add_pods-Placed sets ps (add_pod sets p is) (named all) in
    (λ f. added f (counted f) (more f), rest)
  where
    added :
        (f : Pod → Bool)
        → tally_all f (add_pod sets p is) ≡ tally_all f is + tally f (p ∷ [])
        → tally_all f (add_pods sets ps (add_pod sets p is))
          ≡ tally_all f (add_pod sets p is) + tally f ps
        → tally_all f (add_pods sets ps (add_pod sets p is)) ≡ tally_all f is + tally f (p ∷ ps)
    added f counted more = ground (arith, counted, more)

runners_empty :
    (sets : List PostgresInstanceSetSpec) (rs : List StatefulSet)
    → ((f : Pod → Bool) → tally_all f (observed_runners sets rs) ≡ 0)
      × All IsNamed (observed_runners sets rs)
unfolding observed_runners
runners_empty sets [] = (λ f. refl, tt)
runners_empty sets (r ∷ rs) =
    let (none_yet, named) = runners_empty sets rs in (λ f. omega (arith, none_yet f), (tt, named))

-- Of the pods of the observed instances as many pass any test as of the listed pods, so that none is
-- lost and none counted twice, and every pod is in an instance of the name that its label gives.
pub new_observed_instances-Placed :
    (sets : List PostgresInstanceSetSpec) (runners : List StatefulSet) (pods : List Pod)
    → ((f : Pod → Bool) → tally_all f (new_observed_instances sets runners pods) ≡ tally f pods)
      × All IsNamed (new_observed_instances sets runners pods)
unfolding new_observed_instances
new_observed_instances-Placed sets runners pods =
    let (none_yet, named) = runners_empty sets runners in
    let (counted, all) = add_pods-Placed sets pods (observed_runners sets runners) named in
    (λ f. omega (arith, none_yet f, counted f), all)
