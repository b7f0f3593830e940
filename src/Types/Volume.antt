-- ===== src/Types/Volume.antt =====
-- Stateful sets, claims of volumes and volume snapshots, with the fields that the code uses.
use percona_postgresql_opera.Prelude.{ℕ, String, Bool, Option}
use percona_postgresql_opera.Types.Meta.{ObjectMeta}

-- `appsv1.StatefulSet`: an instance of PostgreSQL
pub record StatefulSet : Type 0 where
  pub meta : ObjectMeta
  pub replicas : ℕ
  pub ready_replicas : ℕ
  pub observed_generation : ℕ
  pub update_revision : String

-- `corev1.PersistentVolumeClaim`. Of the specification the code changes only the data source.
pub record Pvc : Type 0 where
  pub meta : ObjectMeta
  pub claim : String
  pub data_source : Option String

-- `volumesnapshotv1.VolumeSnapshotError`
pub record VolumeSnapshotError : Type 0 where
  pub message : Option String
  pub time : Option ℕ

pub record VolumeSnapshotStatus : Type 0 where
  pub ready_to_use : Option Bool
  pub error : Option VolumeSnapshotError

pub record VolumeSnapshot : Type 0 where
  pub meta : ObjectMeta
  pub class_name : String
  pub source : String
  pub status : Option VolumeSnapshotStatus
