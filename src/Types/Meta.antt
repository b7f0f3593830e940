-- ===== src/Types/Meta.antt =====
-- `metav1.ObjectMeta`, `metav1.Condition`, `batchv1.Job`, `corev1.Pod` and `coordinationv1.Lease`,
-- as far as the code reads them, and the names of percona/naming and internal/naming.
use percona_postgresql_opera.Prelude.{ℕ, String, Bool, List, Option, StringMap}

-- Every request goes to the namespace of the reconciled object, which requests here leave out. Of
-- `DeletionTimestamp` the code asks only whether it is set.
pub record ObjectMeta : Type 0 where
  pub name : String
  pub namespace : String
  pub uid : String
  pub generation : ℕ
  pub resource_version : String
  pub creation_timestamp : ℕ
  pub is_deleting : Bool
  pub annotations : StringMap
  pub labels : StringMap
  pub finalizers : List String

pub data ConditionStatus : Type 0 where
  condition_true condition_false condition_unknown : ConditionStatus

-- A condition's type is `kind` here.
pub record Condition : Type 0 where
  pub kind : String
  pub status : ConditionStatus
  pub reason : String
  pub message : String
  pub last_transition_time : ℕ
  pub observed_generation : ℕ

-- `batchv1.JobCondition`, `corev1.PodCondition`
pub record JobCondition : Type 0 where
  pub kind : String
  pub status : ConditionStatus

-- The counts of a job are not negative.
pub record Job : Type 0 where
  pub meta : ObjectMeta
  pub conditions : List JobCondition
  pub completion_time : Option ℕ
  pub succeeded : ℕ
  pub failed : ℕ

-- `corev1.ContainerStatus`: whether `State.Running` is set
pub record ContainerStatus : Type 0 where
  pub name : String
  pub is_running : Bool

pub record Pod : Type 0 where
  pub meta : ObjectMeta
  pub phase : String
  pub conditions : List JobCondition
  pub containers : List ContainerStatus
  pub init_containers : List ContainerStatus

pub record Lease : Type 0 where
  pub meta : ObjectMeta
  pub holder_identity : Option String
  pub acquire_time : Option ℕ

-- `corev1.LoadBalancerIngress`
pub record LoadBalancerIngress : Type 0 where
  pub ip : String
  pub hostname : String

pub record EnvVar : Type 0 where
  pub name : String
  pub value : String

pub record ContainerOptions : Type 0 where
  pub env : List EnvVar
  pub env_from : List EnvVar

abbrev pub pgbackrest_backup : String
pgbackrest_backup = "postgres-operator.crunchydata.com/pgbackrest-backup"

abbrev pub pgbackrest_restore : String
pgbackrest_restore = "postgres-operator.crunchydata.com/pgbackrest-restore"

abbrev pub label_cluster : String
label_cluster = "postgres-operator.crunchydata.com/cluster"

abbrev pub label_pgbackrest : String
label_pgbackrest = "postgres-operator.crunchydata.com/pgbackrest"

abbrev pub label_pgbackrest_backup : String
label_pgbackrest_backup = "postgres-operator.crunchydata.com/pgbackrest-backup"

abbrev pub label_pgbackrest_repo : String
label_pgbackrest_repo = "postgres-operator.crunchydata.com/pgbackrest-repo"

abbrev pub annotation_backup_in_progress : String
annotation_backup_in_progress = "pgv2.percona.com/backup-in-progress"

-- The same annotation on crunchy's PostgresCluster.
abbrev pub crunchy_backup_in_progress : String
crunchy_backup_in_progress = "postgres-operator.crunchydata.com/backup-in-progress"

abbrev pub annotation_backup_job_name : String
annotation_backup_job_name = "pgv2.percona.com/pgbackrest-backup-job-name"

abbrev pub annotation_backup_job_type : String
annotation_backup_job_type = "pgv2.percona.com/pgbackrest-backup-job-type"

abbrev pub annotation_cluster_bootstrap_restore : String
annotation_cluster_bootstrap_restore = "pgv2.percona.com/cluster-bootstrap-restore"

abbrev pub finalizer_delete_backup : String
finalizer_delete_backup = "internal.percona.com/delete-backup"

abbrev pub finalizer_snapshot_in_progress : String
finalizer_snapshot_in_progress = "percona.com/snapshot-in-progress"

abbrev pub finalizer_delete_restore : String
finalizer_delete_restore = "internal.percona.com/delete-restore"

abbrev pub finalizer_keep_job : String
finalizer_keep_job = "internal.percona.com/keep-job"

abbrev pub backup_manual : String
backup_manual = "manual"

abbrev pub backup_replica_create : String
backup_replica_create = "replica-create"

abbrev pub condition_backup_lease_acquired : String
condition_backup_lease_acquired = "BackupLeaseAcquired"

abbrev pub condition_cluster_is_ready_for_backup : String
condition_cluster_is_ready_for_backup = "ReadyForBackup"

abbrev pub annotation_replication_main_site : String
annotation_replication_main_site = "pgv2.percona.com/replication-main-site"

abbrev pub condition_standby_lagging : String
condition_standby_lagging = "StandbyLagging"

abbrev pub annotation_backup_target : String
annotation_backup_target = "pgv2.percona.com/backup-target"

abbrev pub annotation_instance_suspended : String
annotation_instance_suspended = "pgv2.percona.com/instance-suspended"

abbrev pub annotation_snapshot_restore : String
annotation_snapshot_restore = "pgv2.percona.com/snapshot-restore"

abbrev pub annotation_pvcs_prepared_at : String
annotation_pvcs_prepared_at = "pgv2.percona.com/pvcs-prepared-at"

abbrev pub finalizer_snapshot_restore : String
finalizer_snapshot_restore = "internal.percona.com/snapshot-restore"

abbrev pub label_instance : String
label_instance = "postgres-operator.crunchydata.com/instance"

abbrev pub label_instance_set : String
label_instance_set = "postgres-operator.crunchydata.com/instance-set"

abbrev pub label_data : String
label_data = "postgres-operator.crunchydata.com/data"

abbrev pub role_postgres_data : String
role_postgres_data = "pgdata"

abbrev pub role_postgres_wal : String
role_postgres_wal = "pgwal"

abbrev pub role_tablespace : String
role_tablespace = "tablespace"

abbrev pub label_role : String
label_role = "postgres-operator.crunchydata.com/role"
