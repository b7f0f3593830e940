-- ===== src/Cluster/State/Ready.antt =====
-- When `updateStatus` says that a cluster is ready.
use percona_postgresql_opera.Prelude.{
  ◌≤◌, ◌<◌, ◌≡◌, ◌↔◌, ◌⊎◌, inl, inr, refl, Option, none, some, Bool, true, not, String, false, List,
  [], ◌∷◌, All, All-map, arith, deref,
}
use percona_postgresql_opera.Types.Cluster.{
  app_ready, PgBackRestStatus, PgClusterStatus, PerconaPgCluster, PostgresInstanceSetStatus,
  PostgresClusterStatus,
}
use percona_postgresql_opera.Cluster.State.{sum32, awaits_repo_host, is_initialising, get_state}
use percona_postgresql_opera.Cluster.State.Readiness.{
  sum_of, sum_of_le, sum_of-All, All-sum_of, sum32-zero, IsFull, IsBounded,
}
use percona_postgresql_opera.Cluster.Status.{counts, counted}

-- The repository host, if there is one, is ready.
abbrev pub HostIsUp : Option PgBackRestStatus → Type 0
HostIsUp none = Unit
HostIsUp (some st) = (st.repo_host_ready ≡ none) ⊎ (st.repo_host_ready ≡ some true)

awaits-HostIsUp : (o : Option PgBackRestStatus) → awaits_repo_host o ≡ false ↔ HostIsUp o
awaits-HostIsUp none = (λ h. tt, λ h. refl)
awaits-HostIsUp (some st) = (to st.repo_host_ready, from)
  where
    to :
        (ready : Option Bool)
        → not (deref ready true) ≡ false
        → (ready ≡ none) ⊎ (ready ≡ some true)
    to none h = inl refl
    to (some true) h = inr refl
    to (some false) h = absurd (cc h)

    from : HostIsUp (some st) → awaits_repo_host (some st) ≡ false
    from (inl e) = rw e refl
    from (inr e) = rw e refl

-- What a ready cluster has.
pub record IsUp (cr : PerconaPgCluster) (crunchy : PostgresClusterStatus) : Type 0 where
  pub running : deref cr.pause false ≡ false
  pub repo_host : HostIsUp crunchy.pgbackrest
  pub proxies : crunchy.pgbouncer_ready_replicas ≡ crunchy.pgbouncer_replicas
  pub instances : All IsFull crunchy.instance_sets
  pub some_instance : 0 < sum_of (λ s. s.replicas) crunchy.instance_sets

get_state-Ready :
    (cr : PerconaPgCluster) (status : PgClusterStatus) (crunchy : PostgresClusterStatus)
    → get_state cr status crunchy ≡ app_ready
    → (deref cr.pause false ≡ false) × (is_initialising status crunchy ≡ false)
unfolding get_state
get_state-Ready cr status crunchy h = ground arith

Ready-get_state :
    (cr : PerconaPgCluster) (status : PgClusterStatus) (crunchy : PostgresClusterStatus)
    → deref cr.pause false ≡ false
    → is_initialising status crunchy ≡ false
    → get_state cr status crunchy ≡ app_ready
unfolding get_state
Ready-get_state cr status crunchy p i = ground arith

-- The tests of `getState`, as equations.
record Passes (status : PgClusterStatus) (crunchy : PostgresClusterStatus) : Type 0 where
  repo_host : awaits_repo_host crunchy.pgbackrest ≡ false
  proxies : status.pgbouncer_ready ≡ status.pgbouncer_size
  instances : status.postgres_ready ≡ status.postgres_size
  updated : sum32 (λ s. s.updated_replicas) crunchy.instance_sets 0 ≡ status.postgres_size
  some_instance : 0 < status.postgres_size

initialised-Passes :
    (status : PgClusterStatus) (crunchy : PostgresClusterStatus)
    → is_initialising status crunchy ≡ false
    → Passes status crunchy
unfolding is_initialising
initialised-Passes status crunchy h = record {
  repo_host = ground arith;
  proxies = ground arith;
  instances = ground arith;
  updated = ground arith;
  some_instance = ground arith;
}

Passes-initialised :
    (status : PgClusterStatus) (crunchy : PostgresClusterStatus)
    → Passes status crunchy
    → is_initialising status crunchy ≡ false
unfolding is_initialising
Passes-initialised status crunchy p =
    ground (arith, p.repo_host, p.proxies, p.instances, p.updated, p.some_instance)

abbrev full :
    (x : PostgresInstanceSetStatus)
    → (x.ready_replicas ≡ x.replicas)
    → (x.updated_replicas ≡ x.replicas)
    → IsFull x
full x r u = record { ready = r; updated = u }

zip_full :
    (xs : List PostgresInstanceSetStatus)
    → All (λ x. x.ready_replicas ≡ x.replicas) xs
    → All (λ x. x.updated_replicas ≡ x.replicas) xs
    → All IsFull xs
zip_full [] r u = tt
zip_full (x ∷ xs) r u = (full x r.0 u.0, zip_full xs r.1 u.1)

module _ (cr cluster : PerconaPgCluster) (crunchy : PostgresClusterStatus) (host : String)
    (bounded : All IsBounded crunchy.instance_sets)
    (small : sum_of (λ s. s.replicas) crunchy.instance_sets < 4294967296) where
  abbrev sets : List PostgresInstanceSetStatus
  sets = crunchy.instance_sets

  ready_le : sum_of (λ s. s.ready_replicas) sets ≤ sum_of (λ s. s.replicas) sets
  ready_le = sum_of_le _ _ sets (All-map _ _ sets (λ x b. b.ready) bounded)

  updated_le : sum_of (λ s. s.updated_replicas) sets ≤ sum_of (λ s. s.replicas) sets
  updated_le = sum_of_le _ _ sets (All-map _ _ sets (λ x b. b.updated) bounded)

  sizes : sum32 (λ s. s.replicas) sets 0 ≡ sum_of (λ s. s.replicas) sets
  sizes = sum32-zero _ sets small

  readies : sum32 (λ s. s.ready_replicas) sets 0 ≡ sum_of (λ s. s.ready_replicas) sets
  readies = sum32-zero _ sets (omega (arith, ready_le))

  updates : sum32 (λ s. s.updated_replicas) sets 0 ≡ sum_of (λ s. s.updated_replicas) sets
  updates = sum32-zero _ sets (omega (arith, updated_le))

  passed :
      Passes (counts cr crunchy host cluster.status) crunchy
      → deref cr.pause false ≡ false
      → IsUp cr crunchy
  unfolding counts
  passed p running = record {
    running = running;
    repo_host = (awaits-HostIsUp crunchy.pgbackrest).0 p.repo_host;
    proxies = p.proxies;
    instances =
        zip_full sets
          (sum_of-All _ _ sets (All-map _ _ sets (λ x b. b.ready) bounded)
            (omega (arith, p.instances, sizes, readies)))
          (sum_of-All _ _ sets (All-map _ _ sets (λ x b. b.updated) bounded)
            (omega (arith, p.updated, sizes, updates)));
    some_instance = omega (arith, p.some_instance, sizes);
  }

  up-Passes : IsUp cr crunchy → Passes (counts cr crunchy host cluster.status) crunchy
  unfolding counts
  up-Passes u = record {
    repo_host = (awaits-HostIsUp crunchy.pgbackrest).1 u.repo_host;
    proxies = u.proxies;
    instances =
        let same =
          All-sum_of (λ s. s.ready_replicas) (λ s. s.replicas) sets
            (All-map _ _ sets (λ x b. b.ready) u.instances) in
        omega (arith, same, sizes, readies);
    updated =
        let same =
          All-sum_of (λ s. s.updated_replicas) (λ s. s.replicas) sets
            (All-map _ _ sets (λ x b. b.updated) u.instances) in
        omega (arith, same, sizes, updates);
    some_instance = omega (arith, u.some_instance, sizes);
  }

  -- `updateStatus` makes a cluster Ready exactly if it is not paused, its repository host (if it has
  -- one) and all its PgBouncer replicas are ready, and it has some instance and every replica of
  -- every instance set is ready and up to date. It is assumed that no instance set has more ready or
  -- updated replicas than replicas and that the replicas together are below 2 ^ 32, so that the
  -- `int32` sums, which is all that `getState` compares, lose nothing.
  pub counted_ready : (counted cr crunchy host cluster).status.state ≡ app_ready ↔ IsUp cr crunchy
  unfolding counted
  counted_ready = (to, from)
    where
      to : (counted cr crunchy host cluster).status.state ≡ app_ready → IsUp cr crunchy
      to h =
          let (running, i) = get_state-Ready cr _ crunchy h in
          passed (initialised-Passes _ crunchy i) running

      from : IsUp cr crunchy → (counted cr crunchy host cluster).status.state ≡ app_ready
      from u = Ready-get_state cr _ crunchy u.running (Passes-initialised _ crunchy (up-Passes u))
