-- ===== src/Types/Write.antt =====
-- The requests by which the controllers change something. Where the code has read the object that
-- it writes, the request holds the object as read and as written.
use percona_postgresql_opera.Prelude.{Bool, String, StringMap}
use percona_postgresql_opera.Types.Meta.{Job, Lease}
use percona_postgresql_opera.Types.Cluster.{PerconaPgCluster, PostgresCluster}
use percona_postgresql_opera.Types.Backup.{PerconaPgBackup}
use percona_postgresql_opera.Types.Restore.{PerconaPgRestore}
use percona_postgresql_opera.Types.Volume.{StatefulSet, Pvc, VolumeSnapshot}

-- A command in a primary pod: `touch` of the file that makes the pod unready, or `rm` of it.
pub record Signal : Type 0 where
  pub pod : String
  pub ready : Bool

pub data Write : Type 0 where
  update_backup_status update_backup patch_backup : PerconaPgBackup → PerconaPgBackup → Write
  update_restore_status patch_restore : PerconaPgRestore → PerconaPgRestore → Write
  update_cluster patch_cluster update_cluster_status : PerconaPgCluster → PerconaPgCluster → Write
  update_crunchy_status patch_crunchy_status : PostgresCluster → PostgresCluster → Write
  update_job : Job → Job → Write
  delete_job : Job → Write
  put_lease : Lease → Lease → Write
  delete_lease : Lease → Write
  patch_stateful_set : StatefulSet → StatefulSet → Write
  create_snapshot : VolumeSnapshot → Write
  create_pvc delete_pvc : Pvc → Write
  create_job delete_named_job delete_endpoints : String → Write
  checkpoint remove_skip_file : String → Write
  set_backup_annotations : String → String → String → StringMap → Write
  signal_lag : Signal → Write
