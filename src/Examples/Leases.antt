-- ===== src/Examples/Leases.antt =====
-- The theorems on leases at concrete inputs.
use percona_postgresql_opera.Prelude.{none}
use percona_postgresql_opera.Exec.Writes.{Sends}
use percona_postgresql_opera.Lease.{acquire_lease, release_lease}
use percona_postgresql_opera.Lease.Laws.{
  Takes, acquire_lease-Takes, Releases, release_lease-Releases,
}
use percona_postgresql_opera.Examples.Server.{server, server-UpsertLaw}

acquire_lease-Takes_example :
    Sends
      (Takes {W = Unit {0}} none "b1|u1")
      (acquire_lease server "pg-cluster1-backup-lock" "b1|u1" none)
acquire_lease-Takes_example =
    acquire_lease-Takes server "b1|u1" server-UpsertLaw none "pg-cluster1-backup-lock" tt

release_lease-Releases_example :
    Sends (Releases "b1|u1") (release_lease server "pg-cluster1-backup-lock" "b1|u1")
release_lease-Releases_example = release_lease-Releases server "b1|u1" "pg-cluster1-backup-lock"
