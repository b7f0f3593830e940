-- ===== src/Backup/Holder.antt =====
-- The name of a cluster's backup lease and the identity that a backup holds it under.
pub mod RoundTrip
use Prim.Native.String.{◌++◌}
use percona_postgresql_opera.Prelude.{String, List, [], ◌∷◌}
use percona_postgresql_opera.Prelude.Text.{split}
use percona_postgresql_opera.Types.Meta.{ObjectMeta}

unfoldable pub backup_lease_name : String → String
backup_lease_name cluster_name = "pg-" ++ (cluster_name ++ "-backup-lock")

unfoldable pub backup_lease_holder : ObjectMeta → String
backup_lease_holder m = m.name ++ ("|" ++ m.uid)

two_parts : List String → String × String
two_parts (name ∷ uid ∷ []) = (name, uid)
two_parts _ = ("", "")

unfoldable pub parse_backup_lease_holder : String → String × String
unfolding two_parts
parse_backup_lease_holder holder = two_parts (split b'|' holder)
