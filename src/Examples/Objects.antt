-- ===== src/Examples/Objects.antt =====
-- Small objects for the tests.
use percona_postgresql_opera.Prelude.{ℕ, String, true, false, [], ◌∷◌, Option, none, some}
use percona_postgresql_opera.Types.Meta.{ObjectMeta, Condition, Job, condition_true, Lease}
use percona_postgresql_opera.Types.Cluster.{
  PgBackRestRepo, PerconaPgCluster, PostgresCluster, app_ready,
}
use percona_postgresql_opera.Types.Backup.{
  PgBackupState, backup_new, storage_unset, PerconaPgBackup, method_pgbackrest,
}
use percona_postgresql_opera.Types.Restore.{PerconaPgRestore, restore_new}
use percona_postgresql_opera.Types.Volume.{StatefulSet}

abbrev pub named : String → ObjectMeta
named name = record {
  name = name;
  namespace = "ns";
  uid = "u1";
  generation = 1;
  resource_version = "1";
  creation_timestamp = 100;
  is_deleting = false;
  annotations = [];
  labels = [];
  finalizers = [];
}

abbrev pub says_true : String → Condition
says_true kind = record {
  kind = kind;
  status = condition_true;
  reason = "Ready";
  message = "";
  last_transition_time = 50;
  observed_generation = 1;
}

abbrev pub repo1 : PgBackRestRepo
repo1 = record { name = "repo1"; azure = none; gcs = none; s3 = some "bucket"; volume = false }

abbrev pub cluster1 : PerconaPgCluster
cluster1 = record {
  meta = named "cluster1";
  unmanaged = none;
  pause = none;
  instance_sets = [];
  cr_version = "3.0.0";
  backups = record {
    enabled = none;
    pgbackrest = record {
      image = "image";
      repos = repo1 ∷ [];
      global = [];
      manual = none;
      restore = none;
      job_tolerations = none;
    };
    volume_snapshots = none;
  };
  proxy = none;
  custom_extensions = [];
  standby = none;
  status = record {
    postgres_size = 1;
    postgres_ready = 1;
    instance_sets = [];
    pgbouncer_size = 0;
    pgbouncer_ready = 0;
    state = app_ready;
    patroni = none;
    pgbackrest = none;
    host = "";
    installed_custom_extensions = [];
    standby = none;
    conditions = [];
    observed_generation = 1;
  };
}

abbrev pub crunchy1 : PostgresCluster
crunchy1 = record {
  meta = named "cluster1";
  status = record {
    instance_sets =
        record { name = "instance1"; ready_replicas = 2; replicas = 2; updated_replicas = 2 } ∷ [];
    patroni = record { system_identifier = ""; switchover = none; switchover_timeline = none };
    pgbackrest =
        some (record { manual_backup = none; repo_host_ready = some true; restore = none });
    pgbouncer_replicas = 0;
    pgbouncer_ready_replicas = 0;
    conditions = says_true "PGBackRestRepoHostReady" ∷ says_true "PGBackRestReplicaCreate" ∷ [];
  };
}

abbrev pub backup_in : PgBackupState → Option ℕ → String → PerconaPgBackup
backup_in x t name = record {
  meta = named name;
  spec = record {
    pg_cluster = "cluster1";
    repo_name = some "repo1";
    method = some method_pgbackrest;
    options = [];
    container_options = record { env = []; env_from = [] };
  };
  status = record {
    job_name = "";
    state = x;
    error = "";
    completed_at = t;
    destination = "";
    backup_type = "";
    storage_type = storage_unset;
    repo = none;
    image = "";
    backup_name = "";
    size = 0;
    cr_version = "";
    latest_restorable_time = none;
    snapshot = none;
    conditions = [];
  };
}

abbrev pub backup1 : PerconaPgBackup
backup1 = backup_in backup_new none "backup1"

abbrev pub restore1 : PerconaPgRestore
restore1 = record {
  meta = named "restore1";
  spec = record {
    pg_cluster = "cluster1";
    repo_name = some "repo1";
    volume_snapshot_backup_name = "";
    options = [];
    container_options = record { env = []; env_from = [] };
  };
  status = record { job_name = ""; state = restore_new; completed_at = none };
}

abbrev pub job1 : Job
job1 = record {
  meta = named "job1";
  conditions = record { kind = "Complete"; status = condition_true } ∷ [];
  completion_time = some 200;
  succeeded = 1;
  failed = 0;
}

abbrev pub lease1 : Lease
lease1 = record { meta = named "lease1"; holder_identity = none; acquire_time = none }

abbrev pub instance1 : StatefulSet
instance1 = record {
  meta = named "cluster1-instance1";
  replicas = 1;
  ready_replicas = 1;
  observed_generation = 1;
  update_revision = "rev-1";
}
