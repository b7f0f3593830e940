-- ===== src/Backup/Annotation.antt =====
-- `ToCrunchyAnnotation` of percona/naming/prefix.go.
use Prim.Native.String.{◌++◌}
use percona_postgresql_opera.Prelude.{◌≡◌, refl, String, none, some}
use percona_postgresql_opera.Prelude.Text.{cut_prefix}
use percona_postgresql_opera.Types.Meta.{
  pgbackrest_backup, annotation_backup_in_progress, crunchy_backup_in_progress,
}

unfoldable pub replace_prefix : String → String → String → String
replace_prefix s old_prefix new_prefix = elim (cut_prefix s old_prefix) [
  | none ↦ s
  | some rest ↦ new_prefix ++ rest
]

unfoldable pub to_crunchy_annotation : String → String
unfolding replace_prefix cut_prefix
to_crunchy_annotation annotation =
    replace_prefix annotation "pgv2.percona.com/" "postgres-operator.crunchydata.com/"

pub to_crunchy_annotation_known :
    (to_crunchy_annotation pgbackrest_backup ≡ pgbackrest_backup)
    × (to_crunchy_annotation annotation_backup_in_progress ≡ crunchy_backup_in_progress)
unfolding to_crunchy_annotation
to_crunchy_annotation_known = (refl, refl)
