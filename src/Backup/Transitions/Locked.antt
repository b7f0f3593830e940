-- ===== src/Backup/Transitions/Locked.antt =====
-- Taking and giving back the lease writes no other state into a backup.
use percona_postgresql_opera.Prelude.{◌≡◌, refl, String, Bool, Option, some}
use percona_postgresql_opera.Exec.{Exec}
use percona_postgresql_opera.Exec.Writes.{Sends, Sends-weaken, sends_rules}
use percona_postgresql_opera.Exec.Yields.{Yields, Yields-pure, Yields-ask}
use percona_postgresql_opera.Types.Meta.{Condition}
use percona_postgresql_opera.Types.Cluster.{PerconaPgCluster}
use percona_postgresql_opera.Types.Backup.{PerconaPgBackup}
use percona_postgresql_opera.Types.Write.{Write, update_backup_status}
use percona_postgresql_opera.Client.{Client}
use percona_postgresql_opera.Client.Laws.{RetryLaw, UpsertLaw}
use percona_postgresql_opera.Lease.{acquire_lease, release_lease}
use percona_postgresql_opera.Lease.Laws.{
  Takes, acquire_lease-Takes, Releases, release_lease-Releases,
}
use percona_postgresql_opera.Backup.Locking.{
  check_stale, with_condition, record_lease, try_acquire_lease, release_lease_if_needed,
  handle_lease,
}
use percona_postgresql_opera.Backup.Transitions.Graph.{KeepsState}
use percona_postgresql_opera.Backup.Transitions.Updates.{
  update_status_with-Sends, update_status-Sends,
}

Takes-KeepsState :
    {W : Type 0} (check : Option (String → Exec W Write Bool)) (holder : String) (e : Write)
    → Takes check holder e
    → KeepsState e
Takes-KeepsState check holder (update_backup_status old new) h = absurd h
Takes-KeepsState check holder _ h = tt

Releases-KeepsState : (holder : String) (e : Write) → Releases holder e → KeepsState e
Releases-KeepsState holder (update_backup_status old new) h = absurd h
Releases-KeepsState holder _ h = tt

module _ {W : Type 0} (c : Client W) (law : RetryLaw c) (upsert : UpsertLaw c) where
  pub check_stale-Sends : {P : Write → Type 0} (current : String) → Sends P (check_stale c current)
  unfolding check_stale
  check_stale-Sends current = search sends_rules depth 12

  acquire_lease-Kept :
      (name holder : String) → Sends KeepsState (acquire_lease c name holder (some (check_stale c)))
  acquire_lease-Kept name holder =
      Sends-weaken _ (Takes-KeepsState (some (check_stale c)) holder)
        (acquire_lease-Takes c holder upsert (some (check_stale c)) name check_stale-Sends)

  release_lease-Kept : (name holder : String) → Sends KeepsState (release_lease c name holder)
  release_lease-Kept name holder =
      Sends-weaken _ (Releases-KeepsState holder) (release_lease-Releases c holder name)

  with_condition-Kept :
      (cond : Condition) (old : PerconaPgBackup)
      → Yields (λ new. new.status.state ≡ old.status.state) (with_condition c cond old)
  unfolding with_condition
  with_condition-Kept cond old = Yields-ask _ _ λ now. Yields-pure _ refl

  with_condition-Sends :
      {P : Write → Type 0} (cond : Condition) (old : PerconaPgBackup)
      → Sends P (with_condition c cond old)
  unfolding with_condition
  with_condition-Sends cond old = search sends_rules

  record_lease-Kept :
      (pb : PerconaPgBackup) (acquired : Bool) → Sends KeepsState (record_lease c pb acquired)
  unfolding record_lease
  record_lease-Kept pb acquired =
      search
        (sends_rules, update_status_with-Sends c law, with_condition-Sends, with_condition-Kept)

  try_acquire_lease-Kept : (pb : PerconaPgBackup) → Sends KeepsState (try_acquire_lease c pb)
  unfolding try_acquire_lease
  try_acquire_lease-Kept pb = search (sends_rules, acquire_lease-Kept, record_lease-Kept) depth 12

  release_lease_if_needed-Kept :
      (pb : PerconaPgBackup) → Sends KeepsState (release_lease_if_needed c pb)
  unfolding release_lease_if_needed
  release_lease_if_needed-Kept pb =
      search (sends_rules, release_lease-Kept, update_status-Sends c law) depth 12

  pub handle_lease-Kept :
      (pg : Option PerconaPgCluster) (pb : PerconaPgBackup)
      → Sends KeepsState (handle_lease c pg pb)
  unfolding handle_lease
  handle_lease-Kept pg pb =
      search (sends_rules, try_acquire_lease-Kept, release_lease_if_needed-Kept)
