-- ===== src/Backup/Info.antt =====
-- `findBackupInPGBackrestInfo` and `updatePGBackrestInfo`: the backup in pgBackRest's own list.
use percona_postgresql_opera.Prelude.{
  String, Bool, true, false, not, ◌&&◌, ◌||◌, ◌==◌, nat_eq, if◌then◌else◌, List, [], ◌∷◌, Option,
  none, some, StringMap, value_at,
}
use percona_postgresql_opera.Exec.{Exec, pure, read, ◌>>=◌, ◌>>◌, on_option}
use percona_postgresql_opera.Types.Meta.{Pod, annotation_backup_job_type, backup_replica_create}
use percona_postgresql_opera.Types.Backup.{PgBackupStatus, PerconaPgBackup, InfoBackup, InfoStanza}
use percona_postgresql_opera.Types.Write.{Write, set_backup_annotations}
use percona_postgresql_opera.Client.{Client, perform}
use percona_postgresql_opera.Backup.Status.{update_status}
use percona_postgresql_opera.Backup.Repo.{repo_name_of}

abbrev pub info_job_name : String
info_job_name = "percona.com/backup-job-name"

abbrev pub info_job_type : String
info_job_type = "percona.com/backup-job-type"

abbrev pub info_backup_name : String
info_backup_name = "percona.com/backup-name"

abbrev is_empty : StringMap → Bool
is_empty [] = true
is_empty _ = false

-- Whether the loop returns at this entry: none of its three `continue` is taken.
unfoldable pub is_entry_of : PerconaPgBackup → InfoBackup → Bool
is_entry_of pb backup =
    let v = value_at backup.annotation info_job_name in
    let backup_type = value_at backup.annotation info_job_type in
    if is_empty backup.annotation
    then false
    else if not (v == "") && not (v == pb.status.job_name)
    then false
    else if (not (backup_type == value_at pb.meta.annotations annotation_backup_job_type)
          || not (backup_type == backup_replica_create))
        && not (value_at backup.annotation info_backup_name == pb.meta.name)
    then false
    else true

unfoldable pub find_entry : List InfoBackup → PerconaPgBackup → Option InfoBackup
find_entry [] pb = none
find_entry (b ∷ bs) pb = if is_entry_of pb b then some b else find_entry bs pb

unfoldable pub find_backup_in_info :
    List InfoStanza → PerconaPgBackup → Option (String × InfoBackup)
unfolding find_entry
find_backup_in_info [] pb = none
find_backup_in_info (stanza ∷ rest) pb =
    let others = find_backup_in_info rest pb in
    elim (find_entry stanza.backup pb) [ none ↦ others | some b ↦ some (stanza.name, b) ]

abbrev same_info : PgBackupStatus → InfoBackup → Bool
same_info st b =
    (st.backup_name == b.label) && ((st.backup_type == b.kind) && nat_eq st.size b.delta)

abbrev with_info : InfoBackup → PgBackupStatus → PgBackupStatus
with_info b st = record st { backup_name = b.label; backup_type = b.kind; size = b.delta }

module _ {W : Type 0} (c : Client W) where
  record_info : Pod → PerconaPgBackup → String × InfoBackup → Exec W Write (Unit {0})
  record_info pod pb (stanza, b) = do
    if same_info pb.status b then pure tt else update_status c pb (with_info b)
    perform c (
        set_backup_annotations stanza b.label (repo_name_of pb)
          ((info_job_name, pb.status.job_name) ∷ []))

  -- A backup that pgBackRest does not list is passed over.
  unfoldable pub update_pgbackrest_info : Pod → PerconaPgBackup → Exec W Write (Unit {0})
  unfolding record_info
  update_pgbackrest_info pod pb = do
    info ← read (c.get_info pod (repo_name_of pb))
    on_option (find_backup_in_info info pb) (pure tt) (record_info pod pb)
