-- ===== src/Lease.antt =====
-- percona/k8s/lease.go: a named lease that at most one holder has.
pub mod Laws
use percona_postgresql_opera.Prelude.{
  String, Bool, true, false, not, ◌||◌, ◌==◌, if◌then◌else◌, Option, none, some,
}
use percona_postgresql_opera.Exec.{
  Err, lease_already_held, Exec, pure, raise, read, ask, attempt, ◌>>=◌, ◌>>◌, case_of,
  is_not_found, is_conflict,
}
use percona_postgresql_opera.Types.Meta.{Lease}
use percona_postgresql_opera.Types.Write.{Write, delete_lease}
use percona_postgresql_opera.Client.{Client, perform}

-- `holderID == nil || *holderID == holder`
unfoldable pub held_by : Option String → String → Bool
held_by none holder = true
held_by (some current) holder = current == holder

module _ {W : Type 0} (c : Client W) where
  grant : String → Lease → Exec W Write Lease
  grant holder lease = do
    now ← ask c.now
    pure (record lease { holder_identity = some holder; acquire_time = some now })

  -- `checkStale` decides about the current holder, which is another one.
  evict : String → Option (String → Exec W Write Bool) → Lease → String → Exec W Write Lease
  unfolding grant
  evict holder none lease current = raise lease_already_held
  evict holder (some check_stale) lease current = do
    stale ← check_stale current
    if stale then grant holder lease else raise lease_already_held

  acquire_from :
      String → Option (String → Exec W Write Bool) → Lease → Option String → Exec W Write Lease
  unfolding grant evict
  acquire_from holder check_stale lease none = grant holder lease
  acquire_from holder check_stale lease (some current) =
      if current == holder then pure lease else evict holder check_stale lease current

  -- The function that `AcquireLease` hands to `CreateOrUpdate`.
  unfoldable pub acquire_step :
      String → Option (String → Exec W Write Bool) → Lease → Exec W Write Lease
  unfolding acquire_from
  acquire_step holder check_stale lease =
      acquire_from holder check_stale lease lease.holder_identity

  unfoldable pub acquire_lease :
      String → String → Option (String → Exec W Write Bool) → Exec W Write (Unit {0})
  acquire_lease name holder check_stale = c.create_or_update name (acquire_step holder check_stale)

  -- The delete asks for the lease's uid and resource version as they were read.
  release_step : String → Lease → Exec W Write (Unit {0})
  release_step holder lease =
      if held_by lease.holder_identity holder
      then (do
        r ← attempt (perform c (delete_lease lease))
        case_of r (λ _. pure tt)
            (λ e. if is_not_found e || is_conflict e then pure tt else raise e))
      else raise lease_already_held

  unfoldable pub release_lease : String → String → Exec W Write (Unit {0})
  unfolding release_step
  release_lease name holder = do
    r ← attempt (read (c.get_lease name))
    case_of r (release_step holder) (λ e. if is_not_found e then pure tt else raise e)
