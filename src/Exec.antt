-- ===== src/Exec.antt =====
-- Go methods that talk to the API server: the state is the outside world, which the model does not
-- look into, and the log of the writes that were sent, the latest first. A method that returns an
-- error leaves both as they are at that point.
pub mod Writes
pub mod Yields
pub mod Retry
pub mod Polled
pub mod Inversion
use percona_postgresql_opera.Prelude.{Bool, true, false, Option, none, some, String, List, ◌∷◌}

-- What an API request may fail with: `IsNotFound`, `IsConflict`, `IsAlreadyExists`, anything else.
pub data ApiError : Type 0 where
  not_found conflict already_exists other : ApiError

-- The root of an error chain. `errors.Wrap` keeps the root, which is all that the code inspects.
pub data Err : Type 0 where
  api : ApiError → Err
  lease_already_held backup_job_not_found finalizer_pending running_backup no_backups : Err
  volume_snapshot_failed timed_out primary_pod_not_found invalid_lag_query_output : Err
  nil_dereference : Err
  errorf : String → Err
  -- `multierror.Append`
  appended : Err → Err → Err

pub data Result {ℓ} (A : Type ℓ) : Type ℓ where
  ok : A → Result A
  err : Err → Result A

pub record St {ℓ} (W E : Type ℓ) : Type ℓ where
  pub world : W
  pub log : List E

abbrev pub Exec {ℓ} : Type ℓ → Type ℓ → Type ℓ → Type ℓ
Exec W E A = St W E → Result A × St W E

module _ {ℓ} {W E A : Type ℓ} where
  unfoldable pub pure : A → Exec W E A
  pure a s = (ok a, s)

  unfoldable pub raise : Err → Exec W E A
  raise e s = (err e, s)

  unfoldable pub lift : Result A → Exec W E A
  lift r s = (r, s)

  -- A request that writes nothing.
  unfoldable pub read : (W → Result A × W) → Exec W E A
  read f s = let (r, w) = f s.world in (r, record { world = w; log = s.log })

  -- What cannot fail: the clock, and the order of a map.
  unfoldable pub ask : (W → A × W) → Exec W E A
  ask f s = let (a, w) = f s.world in (ok a, record { world = w; log = s.log })

  -- A request that writes: it is logged whether or not it succeeds.
  unfoldable pub send : E → (W → Result A × W) → Exec W E A
  send e f s = let (r, w) = f s.world in (r, record { world = w; log = e ∷ s.log })

  -- The result as a value, for code that inspects an error.
  unfoldable pub attempt : Exec W E A → Exec W E (Result A)
  attempt m s = let (r, s') = m s in (ok r, s')

module _ {ℓ} {W E A B : Type ℓ} where
  abbrev continue : Result A → (A → Exec W E B) → Exec W E B
  continue (ok a) f s = f a s
  continue (err e) f s = (err e, s)

  infixl 5 ◌>>=◌ ◌>>◌
  unfoldable pub ◌>>=◌ : Exec W E A → (A → Exec W E B) → Exec W E B
  unfolding pure raise lift attempt
  ◌>>=◌ m f s = let (r, s') = m s in continue r f s'

  abbrev pub ◌>>◌ : Exec W E A → Exec W E B → Exec W E B
  m >> n = m >>= λ _. n

  -- `if err != nil { ... }`: the handler has the error, the rest has the value.
  unfoldable pub case_of : Result A → (A → Exec W E B) → (Err → Exec W E B) → Exec W E B
  case_of (ok a) f g = f a
  case_of (err e) f g = g e

module _ {ℓ κ} {W E : Type ℓ} {A : Type κ} {B : Type ℓ} where
  -- `if p == nil { ... }`
  unfoldable pub on_option : Option A → Exec W E B → (A → Exec W E B) → Exec W E B
  on_option none m f = m
  on_option (some a) m f = f a

-- `k8serrors.IsNotFound`
abbrev pub is_not_found : Err → Bool
is_not_found (api not_found) = true
is_not_found _ = false

-- `k8serrors.IsConflict`
abbrev pub is_conflict : Err → Bool
is_conflict (api conflict) = true
is_conflict _ = false

-- `k8serrors.IsAlreadyExists`
abbrev pub is_already_exists : Err → Bool
is_already_exists (api already_exists) = true
is_already_exists _ = false
