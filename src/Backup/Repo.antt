-- ===== src/Backup/Repo.antt =====
-- `getRepo`, `getDestination` and the storage type of a backup.
pub mod Scheme
use Prim.Native.String.{◌++◌}
use percona_postgresql_opera.Prelude.{
  String, ◌==◌, if◌then◌else◌, List, [], ◌∷◌, Option, none, some, is_some, value_at, deref,
}
use percona_postgresql_opera.Prelude.Text.{path_join}
use percona_postgresql_opera.Types.Cluster.{PgBackRestRepo, PerconaPgCluster}
use percona_postgresql_opera.Types.Backup.{
  StorageType, storage_s3, storage_azure, storage_gcs, storage_filesystem, PerconaPgBackup,
}

unfoldable pub find_repo : List PgBackRestRepo → String → Option PgBackRestRepo
find_repo [] name = none
find_repo (r ∷ rs) name = if name == r.name then some r else find_repo rs name

abbrev pub repo_name_of : PerconaPgBackup → String
repo_name_of pb = deref pb.spec.repo_name ""

abbrev pub get_repo : PerconaPgCluster → PerconaPgBackup → Option PgBackRestRepo
get_repo pg pb = find_repo pg.backups.pgbackrest.repos (repo_name_of pb)

-- The order of the cases is S3, GCS, Azure.
unfoldable pub destination_of : PgBackRestRepo → String → String
destination_of repo repo_path = elim repo.s3 [
  | some bucket ↦ "s3://" ++ path_join bucket repo_path
  | none ↦ elim repo.gcs [
    | some bucket ↦ "gs://" ++ path_join bucket repo_path
    | none ↦ elim repo.azure [
      | some container ↦ "azure://" ++ path_join container repo_path
      | none ↦ ""
    ]
  ]
]

unfoldable pub get_destination : PerconaPgCluster → PerconaPgBackup → String
unfolding destination_of
get_destination pg pb = elim (get_repo pg pb) [
  | none ↦ ""
  | some repo ↦ destination_of repo (value_at pg.backups.pgbackrest.global (repo.name ++ "-path"))
]

-- The order of the cases is S3, Azure, GCS.
unfoldable pub storage_type_of : PgBackRestRepo → StorageType
storage_type_of repo =
    if is_some repo.s3
    then storage_s3
    else if is_some repo.azure
    then storage_azure
    else if is_some repo.gcs
    then storage_gcs
    else storage_filesystem
