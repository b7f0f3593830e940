-- ===== src/Lib.antt =====
-- The custom controllers of the Percona Operator for PostgreSQL: what reconciles backups, restores and
-- the status of clusters, over the API server.
--
-- The operator watches three kinds of objects. A PerconaPGCluster is turned into crunchy's
-- PostgresCluster, whose controller makes the Kubernetes objects and reports a status, which is
-- copied back; of that controller the instances of PostgreSQL are modelled. A PerconaPGBackup asks for one backup of a cluster: its controller takes the cluster's
-- lease, annotates the cluster, follows the job that crunchy starts, and cleans up. A
-- PerconaPGRestore asks the cluster for a restore, follows it, and withdraws the request. The
-- controllers share nothing in memory; they meet in annotations, finalizers, leases and conditions.
--
-- Files, with the code that each is about:
--   Types         the API types, pkg/apis/pgv2.percona.com/v2/perconapgbackup_types.go,
--                 perconapgrestore_types.go, perconapgcluster_types.go, and crunchy's types of
--                 pkg/apis/upstream.pgv2.percona.com/v1beta1; names of percona/naming and
--                 internal/naming; Types.Write is the list of requests that write
--   Client        what is outside the repository, as a record; Client.Laws has its documented
--                 behaviour, as hypotheses
--   Exec          Go methods: a state of the world, a log of writes, a result or an error;
--                 Exec.Writes has the rules for what a method sends, Exec.Yields for what it
--                 returns, Exec.Inversion for what a run has gone through; Exec.Retry and
--                 Exec.Polled say how client-go's retry and apimachinery's poll run a body
--   Controller    percona/controller/utils.go
--   Lease         percona/k8s/lease.go (AcquireLease is acquire_lease, ReleaseLease release_lease)
--   Instance      percona/postgres/common.go (SuspendInstance, UnsuspendInstance, GetReplicaPods)
--   Backup        percona/controller/pgbackup/controller.go: Locking (handleLease,
--                 tryAcquireLease), Jobs (findBackupJob, startBackup, checkBackupJob), Repo
--                 (getDestination), Info (updatePGBackrestInfo), Finish (finishBackup), Finalizers
--                 (runFinalizers, deleteBackupFinalizer), Reconcile (Reconcile) and Reconcile.States
--                 (its switch on the state); Latest is percona/k8s/backup.go (GetLatestBackup)
--   Backup.Snapshot  percona/controller/pgbackup/snapshots/reconcile.go: Volumes (getTargetPVCs,
--                 reconcileSnapshot and what calls it), Offline (offline.go, the executor)
--   Restore       percona/controller/pgrestore/controller.go (Reconcile) and
--                 percona/controller/pgrestore/utils/pgbackrest.go (PgBackRest: Start,
--                 DisableRestore, ObserveStatus)
--   Restore.Snapshot  percona/controller/pgrestore/snapshot/reconcile.go: Volumes
--                 (reconcileInstancePVC and what calls it)
--   Cluster       percona/controller/pgcluster/status.go: State (getState), Host (getHost),
--                 Conditions (updateConditions and what it calls), Status (updateStatus);
--                 percona/controller/pgcluster/standby.go: Standby (getStandbyLag, the signal),
--                 Standby.Check (reconcileStandbyLag)
--   Crunchy       internal/controller/postgrescluster/instance.go, under Instances: Observed
--                 (newObservedInstances, observeInstances), Rollout (rolloutInstances), ScaleDown
--                 (scaleDownInstances, podsToKeep), ScaleUp (the names in
--                 scaleUpInstances), Names (findAvailableInstanceNames)
--   Examples      a small server at which the hypotheses hold, and the theorems at concrete inputs
--
-- A method is a function Exec W Write A: it takes the state of the world W, which nothing looks into,
-- and the log of the writes sent so far, and gives a result or an error and the new state. Every
-- answer of the API server is a parameter, so a theorem holds for all answers, conflicts and failures
-- included, and for all that other controllers do in between. A write is logged when it is sent,
-- whether or not it succeeds; it holds the object as read and as written. An error keeps its root,
-- which is all that the code inspects; `errors.Wrap` is left out. A nil dereference, which the
-- controller runtime turns into an error, is an error here. A reconciliation returns the seconds
-- after which it asks to run again, 0 for none. Requests go to the namespace of the reconciled object.
-- Loops run over lists, and the retries are a parameter. Only the loop for the name of a new instance
-- needs fuel: as many calls as rand.String takes to return each of enough strings.
--
-- Numbers: an `int32` is its residue modulo 2 ^ 32, of which those from 2 ^ 31 on stand for the
-- negative numbers, and its sums are taken modulo 2 ^ 32; times are seconds.
--
-- The reconcilers of volume snapshots are parameters of the two controllers; Backup.Snapshot.Composed
-- and Restore.Snapshot.Reconciled put the modelled ones in their place.
--
-- In Cluster.Standby the log holds the commands in the primary pod too, and `psql` and the parsing of
-- its output are parameters.
--
-- Not modelled: the annotation of a standby's main site and the requeuing of standbys, logging and
-- events, the set-up of managers, and the code that renders Kubernetes objects and configuration.
mod Prelude
pub mod Exec
pub mod Types
pub mod Client
pub mod Controller
pub mod Lease
pub mod Instance
pub mod Backup
pub mod Restore
pub mod Cluster
pub mod Crunchy
mod Examples
