-- ===== src/Backup/Repo/Scheme.antt =====
-- The destination of a backup and its storage type.
use Prim.Native.String.{◌++◌}
use percona_postgresql_opera.Prelude.{
  ◌≡◌, refl, arith, String, false, ◌&&◌, Option, none, some, is_some,
}
use percona_postgresql_opera.Prelude.Text.{path_join}
use percona_postgresql_opera.Types.Cluster.{PgBackRestRepo}
use percona_postgresql_opera.Types.Backup.{
  StorageType, storage_s3, storage_azure, storage_gcs, storage_filesystem, storage_unset,
}
use percona_postgresql_opera.Backup.Repo.{destination_of, storage_type_of}

-- The destination has the scheme of the storage type.
abbrev pub HasScheme : StorageType → String → Type 0
HasScheme storage_s3 d = (rest : String) × (d ≡ "s3://" ++ rest)
HasScheme storage_gcs d = (rest : String) × (d ≡ "gs://" ++ rest)
HasScheme storage_azure d = (rest : String) × (d ≡ "azure://" ++ rest)
HasScheme storage_filesystem d = d ≡ ""
HasScheme storage_unset d = ⊥

by_members :
    (s3 gcs azure : Option String) (repo : PgBackRestRepo) (path : String)
    → repo.s3 ≡ s3
    → repo.gcs ≡ gcs
    → repo.azure ≡ azure
    → (is_some gcs && is_some azure) ≡ false
    → HasScheme (storage_type_of repo) (destination_of repo path)
unfolding storage_type_of destination_of
by_members (some b) gcs azure repo path es eg ea one =
    simp es (path_join b path, ground (arith, es))
by_members none (some b) none repo path es eg ea one =
    simp (es, eg, ea) (path_join b path, ground (arith, es, eg, ea))
by_members none none (some b) repo path es eg ea one =
    simp (es, eg, ea) (path_join b path, ground (arith, es, eg, ea))
by_members none none none repo path es eg ea one = ground (arith, es, eg, ea)
by_members none (some b) (some d) repo path es eg ea one = absurd (cc one)

-- Unless a repository has both a GCS bucket and an Azure container, the destination that a backup
-- records has the scheme of the storage type that it records, and is empty for a volume.
pub storage_type_of-HasScheme :
    (repo : PgBackRestRepo) (path : String)
    → (is_some repo.gcs && is_some repo.azure) ≡ false
    → HasScheme (storage_type_of repo) (destination_of repo path)
storage_type_of-HasScheme repo path one =
    by_members repo.s3 repo.gcs repo.azure repo path refl refl refl one
