-- ===== src/Cluster/State/Readiness.antt =====
-- What `getState` says of the instances.
use percona_postgresql_opera.Prelude.{ℕ, ◌+◌, ◌≤◌, ◌<◌, ◌≡◌, refl, List, [], ◌∷◌, All, arith}
use percona_postgresql_opera.Types.Cluster.{PostgresInstanceSetStatus}
use percona_postgresql_opera.Cluster.State.{add32, sum32}

-- The sum with no bound.
unfoldable pub sum_of : (PostgresInstanceSetStatus → ℕ) → List PostgresInstanceSetStatus → ℕ
sum_of f [] = 0
sum_of f (x ∷ xs) = f x + sum_of f xs

sum32-sum_of :
    (f : PostgresInstanceSetStatus → ℕ) (xs : List PostgresInstanceSetStatus) (acc : ℕ)
    → acc + sum_of f xs < 4294967296
    → sum32 f xs acc ≡ acc + sum_of f xs
unfolding sum32 sum_of
sum32-sum_of f [] acc h = omega arith
sum32-sum_of f (x ∷ xs) acc h =
    let here : add32 acc (f x) ≡ acc + f x = omega arith in
    let rest = sum32-sum_of f xs (acc + f x) (omega arith) in rw (here, rest) (omega arith)

pub sum_of_le :
    (f g : PostgresInstanceSetStatus → ℕ) (xs : List PostgresInstanceSetStatus)
    → All (λ x. f x ≤ g x) xs
    → sum_of f xs ≤ sum_of g xs
unfolding sum_of
sum_of_le f g [] h = omega arith
sum_of_le f g (x ∷ xs) h = omega (arith, h.0, sum_of_le f g xs h.1)

-- Sums are equal only if each member is, where none is above.
pub sum_of-All :
    (f g : PostgresInstanceSetStatus → ℕ) (xs : List PostgresInstanceSetStatus)
    → All (λ x. f x ≤ g x) xs
    → sum_of f xs ≡ sum_of g xs
    → All (λ x. f x ≡ g x) xs
unfolding sum_of
sum_of-All f g [] h e = tt
sum_of-All f g (x ∷ xs) h e =
    let rest = sum_of_le f g xs h.1 in
    (omega (arith, h.0, rest), sum_of-All f g xs h.1 (omega (arith, h.0, rest)))

pub All-sum_of :
    (f g : PostgresInstanceSetStatus → ℕ) (xs : List PostgresInstanceSetStatus)
    → All (λ x. f x ≡ g x) xs
    → sum_of f xs ≡ sum_of g xs
unfolding sum_of
All-sum_of f g [] h = refl
All-sum_of f g (x ∷ xs) h = omega (arith, h.0, All-sum_of f g xs h.1)

pub sum32-zero :
    (f : PostgresInstanceSetStatus → ℕ) (xs : List PostgresInstanceSetStatus)
    → sum_of f xs < 4294967296
    → sum32 f xs 0 ≡ sum_of f xs
sum32-zero f xs h = omega (arith, sum32-sum_of f xs 0 (omega arith))

-- An instance set with all its replicas ready and up to date.
pub record IsFull (x : PostgresInstanceSetStatus) : Type 0 where
  pub ready : x.ready_replicas ≡ x.replicas
  pub updated : x.updated_replicas ≡ x.replicas

-- No more replicas are ready or up to date than there are.
pub record IsBounded (x : PostgresInstanceSetStatus) : Type 0 where
  pub ready : x.ready_replicas ≤ x.replicas
  pub updated : x.updated_replicas ≤ x.replicas
