-- ===== src/Crunchy/Instances/ScaleUp/Ends.antt =====
-- internal/controller/postgrescluster/instance.go, `scaleUpInstances`: the loop for names of new
-- instances ends.
use percona_postgresql_opera.Prelude.{
  ℕ, zero, suc, ◌+◌, ◌-◌, ◌≤◌, ◌<◌, ◌≡◌, ◌∙◌, refl, sym, ap, subst, String, true, false, Bool-cases,
  Option, some, List, [], ◌∷◌, ◌++◌, map, contains, length, arith, inl, inr,
}
use percona_postgresql_opera.Crunchy.Instances.{PostgresInstanceSetSpec, Instance}
use percona_postgresql_opera.Crunchy.Instances.ScaleUp.{
  instance_name, runner_names, generate_name, add_names, scale_up_names,
}
use percona_postgresql_opera.Crunchy.Instances.ScaleUp.Unique.{
  Unique, Unique-Spare, Unique-left, Unique-snoc, length-snoc, contains-map, length-map,
}
use mathlib.Core.List.{append_assoc, append-nil}

-- The loop ends with that many names, which differ.
abbrev pub Grown : Option (List String) → ℕ → Type 0
Grown result n = (names : List String) × (result ≡ some names) × (length names ≡ n) × Unique names

module _ (next : ℕ → String) where
  -- The name that ends the loop, the number of the next call with it, where there is one.
  abbrev Generated : ℕ → List String → ℕ → Type 0
  Generated fuel taken call =
      (name : String) × (later : ℕ) × (generate_name next fuel taken call ≡ some (name, later))
      × (contains taken name ≡ false)

  -- Among that many calls one gives a name that is not taken.
  abbrev Finds : ℕ → List String → ℕ → Type 0
  Finds fuel taken call = (k : ℕ) × (k < fuel) × (contains taken (next (call + k)) ≡ false)

  generate_name-Generated :
      (fuel : ℕ) (taken : List String) (call : ℕ)
      → Finds fuel taken call
      → Generated fuel taken call
  unfolding generate_name
  generate_name-Generated zero taken call (k, h, f) = absurd (omega (arith, h))
  generate_name-Generated (suc fuel) taken call (k, h, f) =
      elim (Bool-cases (contains taken (next call))) [
        | inr new ↦ (next call, suc call, rw new refl, new)
        | inl old ↦
            let (name, later, e, new) =
              generate_name-Generated fuel taken (suc call) (further k h f old) in
            (name, later, rw old e, new)
      ]
    where
      further :
          (k : ℕ)
          → k < suc fuel
          → contains taken (next (call + k)) ≡ false
          → contains taken (next call) ≡ true
          → Finds fuel taken (suc call)
      further zero h f old = absurd (cc (f, old, same))
        where
          same : call + 0 ≡ call
          same = omega arith
      further (suc k) h f old =
          (k, omega (arith, h), subst (λ n. contains taken (next n) ≡ false) (omega arith) f)

  add_names-Grown :
      (fuel limit : ℕ)
      → ((taken : List String) (call : ℕ) → length taken < limit → Finds fuel taken call)
      → (missing : ℕ) (available names : List String) (call : ℕ) → length names + missing ≤ limit
      → Unique (names ++ available)
      → Grown (add_names next fuel missing available names call) (length names + missing)
  unfolding add_names
  add_names-Grown fuel limit finds zero available names call h u =
      (names, refl, omega arith, Unique-left names available u)
  add_names-Grown fuel limit finds (suc missing) (a ∷ available) names call h u =
      let longer = length-snoc names a in
      subst (Grown _) (omega (arith, longer)) (
        add_names-Grown fuel limit finds missing available (names ++ a ∷ []) (suc call)
          (omega (arith, h, longer)) (subst Unique (sym (append_assoc names (a ∷ []) available)) u))
  add_names-Grown fuel limit finds (suc missing) [] names call h u =
      let (name, later, e, new) =
        generate_name-Generated fuel names call (finds names call (omega (arith, h))) in
      let longer = length-snoc names name in
      rw (add_names, e)
        (subst (Grown _) (omega (arith, longer)) (
          add_names-Grown fuel limit finds missing [] (names ++ name ∷ []) later
            (omega (arith, h, longer))
            (subst Unique (sym (append-nil _))
              (Unique-snoc names name (Unique-left names [] u) new))))

-- Each of the strings is among any so many successive calls.
abbrev pub Varied : (ℕ → String) → List String → ℕ → Type 0
Varied random suffixes calls =
    (s : String)
    → contains suffixes s ≡ true
    → (call : ℕ) → (k : ℕ) × (k < calls) × (random (call + k) ≡ s)

Varied-Finds :
    (random : ℕ → String) (f : String → String) (suffixes : List String) (fuel : ℕ)
    → Unique (map f suffixes)
    → Varied random suffixes fuel
    → (taken : List String) (call : ℕ) → length taken < length (map f suffixes)
    → Finds (λ n. f (random n)) fuel taken call
Varied-Finds random f suffixes fuel unique varied taken call h =
    let (x, has, lacks) = Unique-Spare taken (map f suffixes) unique h in
    let (s, has_s, same) = contains-map f suffixes x has in
    let (k, early, at) = varied s has_s call in
    (k, early, subst (λ y. contains taken y ≡ false) (sym (ap f at ∙ same)) lacks)

-- The loop for the names of the instances of a set ends, and leaves as many names as the set has
-- replicas, or those of its runners where they are more; no two are the same. The names of the
-- runners and the available ones differ from each other; there are some strings that make different
-- names, as many as the set has runners and as it has replicas, and each is among any `fuel`
-- successive strings that `rand.String` returns.
pub scale_up_names-Grown :
    (random : ℕ → String) (suffixes : List String) (fuel : ℕ) (cluster : String)
    (set : PostgresInstanceSetSpec) (observed : List Instance) (available : List String)
    → Unique (runner_names observed ++ available)
    → Unique (map (instance_name cluster set.name) suffixes)
    → Varied random suffixes fuel
    → length (runner_names observed) ≤ length suffixes
    → set.replicas ≤ length suffixes
    → Grown
        (scale_up_names random fuel cluster set observed available)
        (length (runner_names observed) + (set.replicas - length (runner_names observed)))
unfolding scale_up_names
scale_up_names-Grown random suffixes fuel cluster set observed available u unique varied runners
      replicas =
    add_names-Grown (λ call. instance_name cluster set.name (random call)) fuel _
      (Varied-Finds random (instance_name cluster set.name) suffixes fuel unique varied) _ available
      (runner_names observed) 0
      (omega (arith, runners, replicas, length-map (instance_name cluster set.name) suffixes)) u
