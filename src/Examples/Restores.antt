-- ===== src/Examples/Restores.antt =====
-- The theorems on restores at concrete inputs.
use percona_postgresql_opera.Prelude.{ℕ, ◌≡◌, refl, [], lookup}
use percona_postgresql_opera.Exec.{Exec, pure, St, ok}
use percona_postgresql_opera.Exec.Writes.{Sends, Sends-pure}
use percona_postgresql_opera.Types.Cluster.{PerconaPgCluster}
use percona_postgresql_opera.Types.Restore.{PerconaPgRestore, restore_new, restore_running}
use percona_postgresql_opera.Types.Write.{Write}
use percona_postgresql_opera.Restore.PgBackRest.{start, with_request}
use percona_postgresql_opera.Restore.PgBackRest.Request.{Starts, start-Starts, start-with_request}
use percona_postgresql_opera.Restore.Reconcile.{
  in_restore_state, reconcile_running_restore, reconcile_restore,
}
use percona_postgresql_opera.Restore.Transitions.{Steps, reconcile_restore-Steps}
use percona_postgresql_opera.Restore.Ending.{Ends, reconcile_running_restore-Ends}
use percona_postgresql_opera.Examples.Objects.{cluster1, restore1}
use percona_postgresql_opera.Examples.Server.{server}

abbrev no_snapshot_restores : PerconaPgCluster → PerconaPgRestore → Exec (Unit {0}) Write ℕ
no_snapshot_restores pg pr = pure 0

abbrev begin_state : St (Unit {0}) Write
begin_state = record { world = tt; log = [] }

abbrev running1 : PerconaPgRestore
running1 = in_restore_state restore_running restore1

reconcile_restore-Steps_example :
    Sends (Steps restore_new) (reconcile_restore server no_snapshot_restores restore1)
reconcile_restore-Steps_example =
    reconcile_restore-Steps server no_snapshot_restores restore1 (λ pg. Sends-pure 0)

reconcile_running_restore-Ends_example :
    Ends cluster1 [] (reconcile_running_restore server cluster1 running1 begin_state).1.log
unfolding lookup
reconcile_running_restore-Ends_example =
    reconcile_running_restore-Ends server cluster1 running1 begin_state refl refl

start-Starts_example : Sends (Starts restore1) (start server cluster1 restore1)
start-Starts_example = start-Starts server restore1 cluster1

start-with_request_example :
    start server (with_request cluster1 restore1) restore1 begin_state ≡ (ok tt, begin_state)
start-with_request_example = start-with_request server restore1 cluster1 begin_state
