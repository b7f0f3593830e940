-- ===== src/Restore/Snapshot/Status.antt =====
-- percona/controller/pgrestore/snapshot/reconcile.go: writing a restore's status
-- (`UpdateStatus` of pkg/apis/pgv2.percona.com/v2/perconapgrestore_types.go).
use percona_postgresql_opera.Exec.{Exec, pure, read, ◌>>=◌}
use percona_postgresql_opera.Types.Restore.{PgRestoreState, PerconaPgRestore}
use percona_postgresql_opera.Types.Write.{Write, update_restore_status}
use percona_postgresql_opera.Client.{Client, perform}
use percona_postgresql_opera.Restore.Reconcile.{in_restore_state}

module _ {W : Type 0} (c : Client W) where
  -- `UpdateStatus` of a restore: what is written is made of the restore as the server has it.
  unfoldable pub update_restore_with :
      PerconaPgRestore
      → (PerconaPgRestore → Exec W Write PerconaPgRestore)
      → Exec W Write (Unit {0})
  update_restore_with pr f = c.retry_on_conflict do
    old ← read (c.get_restore pr.meta.name)
    new ← f old
    perform c (update_restore_status old new)

  unfoldable pub move_restore : PgRestoreState → PerconaPgRestore → Exec W Write (Unit {0})
  unfolding update_restore_with
  move_restore x pr = update_restore_with pr (λ old. pure (in_restore_state x old))
