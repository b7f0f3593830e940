-- ===== src/Backup/Snapshot/Unready.antt =====
-- A backup succeeds only with its snapshots.
use Prim.Native.String.{◌++◌}
use percona_postgresql_opera.Prelude.{
  ℕ, ◌≡◌, refl, sym, ◌∙◌, String, Bool, false, deref, Option, none, some, ap, subst,
}
use percona_postgresql_opera.Exec.{ok, Exec}
use percona_postgresql_opera.Exec.Writes.{Sends, Sends-bind, Sends-weaken, sends_rules}
use percona_postgresql_opera.Exec.Yields.{
  Yields, Yields-read, Yields-if, Yields-case_of, Yields-on_option, Yields-bind, Yields-bind_of,
  Yields-attempt, Yields-pure, Yields-ask, Sends-bind_of, yields_rules,
}
use percona_postgresql_opera.Types.Meta.{role_postgres_data}
use percona_postgresql_opera.Types.Cluster.{PerconaPgCluster}
use percona_postgresql_opera.Types.Backup.{
  backup_failed, backup_succeeded, SnapshotStatus, PgBackupStatus, PerconaPgBackup,
}
use percona_postgresql_opera.Types.Volume.{VolumeSnapshotStatus, VolumeSnapshot}
use percona_postgresql_opera.Types.Write.{Write}
use percona_postgresql_opera.Client.{Client}
use percona_postgresql_opera.Client.Laws.{RetryLaw, PollLaw}
use percona_postgresql_opera.Backup.Transitions.Graph.{OnStatus, OnStatus-weaken, KeepsState}
use percona_postgresql_opera.Backup.Transitions.Updates.{update_status_with-Sends}
use percona_postgresql_opera.Backup.Snapshot.Volumes.{
  snapshot_intent, generate_snapshot_intent, observe_snapshot, look_at_error, reconcile_snapshot,
  reconcile_and_note, reconcile_data_snapshot,
}
use percona_postgresql_opera.Backup.Snapshot.Offline.{SnapshotExecutor}
use percona_postgresql_opera.Backup.Snapshot.{
  Outcome, collect, settle, fail_snapshots, conclude, reconcile_running_snapshot,
}
use percona_postgresql_opera.Backup.Snapshot.Kept.{
  get_target_pvcs-Kept, reconcile_data_snapshot-Kept, reconcile_wal_snapshot-Kept,
  reconcile_tablespace_snapshot-Kept,
}
use percona_postgresql_opera.Backup.Snapshot.Follows.{KeepsStates, collect-Kept}

abbrev pub is_ready_to_use : Option VolumeSnapshotStatus → Bool
is_ready_to_use none = false
is_ready_to_use (some st) = deref st.ready_to_use false

-- No status write turns a backup that has not succeeded into one that has.
abbrev pub NeverSucceeds : Write → Type 0
NeverSucceeds =
    OnStatus (λ old new. new.status.state ≡ backup_succeeded → old.status.state ≡ backup_succeeded)

Sends-NeverSucceeds :
    {W A : Type 0} (m : Exec W Write A) → Sends KeepsState m → Sends NeverSucceeds m
Sends-NeverSucceeds m k = Sends-weaken m (OnStatus-weaken (λ old new same h. sym same ∙ h)) k

abbrev IsFalse : Bool → Type 0
IsFalse b = b ≡ false

abbrev IsUndone : Outcome → Type 0
IsUndone x = x.done ≡ false

module _ {W : Type 0} (c : Client W) where
  -- The server never answers that the snapshot of that name is ready.
  abbrev pub Unready : String → Type 0
  Unready name =
      (w w' : W) (found : VolumeSnapshot)
      → c.get_snapshot name w ≡ (ok found, w')
      → is_ready_to_use found.status ≡ false

  observe_snapshot-IsFalse :
      (st : VolumeSnapshotStatus)
      → deref st.ready_to_use false ≡ false
      → Yields IsFalse (observe_snapshot c st)
  unfolding observe_snapshot look_at_error
  observe_snapshot-IsFalse st h = rw h (search yields_rules)

  reconcile_snapshot-IsFalse :
      (v : VolumeSnapshot) → Unready v.meta.name → Yields IsFalse (reconcile_snapshot c v)
  unfolding reconcile_snapshot
  reconcile_snapshot-IsFalse v unready = Yields-bind _ _ λ created.
      Yields-if created _ _ (λ _. Yields-pure false refl)
        λ _. Yields-bind_of _ _ (Yields-read (c.get_snapshot v.meta.name)) λ found (w, w', e).
          Yields-on_option found.status _ _ (λ _. Yields-pure false refl)
            λ st h. observe_snapshot-IsFalse st (ap is_ready_to_use (sym h) ∙ unready w w' found e)

  generate_snapshot_intent-Is :
      (class_name role pvc : String) (pb : PerconaPgBackup)
      → Yields
          (λ v. snapshot_intent class_name pb role pvc ≡ v)
          (generate_snapshot_intent c class_name pb role pvc)
  unfolding generate_snapshot_intent
  generate_snapshot_intent-Is class_name role pvc pb = Yields-bind _ _ λ _. Yields-pure _ refl

  reconcile_and_note-IsFalse :
      (class_name role pvc : String) (pb : PerconaPgBackup)
      (note : String → SnapshotStatus → SnapshotStatus)
      → Unready (snapshot_intent class_name pb role pvc).meta.name
      → Yields IsFalse (reconcile_and_note c class_name pb role pvc note)
  unfolding reconcile_and_note
  reconcile_and_note-IsFalse class_name role pvc pb note unready =
      Yields-bind_of _ _ (generate_snapshot_intent-Is class_name role pvc pb) λ v h.
        Yields-bind_of _ _
          (reconcile_snapshot-IsFalse v (subst (λ x. Unready x.meta.name) h unready))
          λ ready r. Yields-bind _ _ λ _. Yields-pure ready r

  collect-IsUndone : (m : Exec W Write Bool) → Yields IsFalse m → Yields IsUndone (collect c m)
  unfolding collect
  collect-IsUndone m y =
      Yields-bind_of _ _ (Yields-attempt m y)
        λ r h. Yields-case_of r _ _ (λ b e. Yields-pure _ (h b e)) (λ e _. search yields_rules)

  reconcile_data_snapshot-IsFalse :
      (class_name pvc : String) (pb : PerconaPgBackup)
      → Unready (snapshot_intent class_name pb role_postgres_data pvc).meta.name
      → Yields IsFalse (reconcile_data_snapshot c class_name pb pvc)
  unfolding reconcile_data_snapshot
  reconcile_data_snapshot-IsFalse class_name pvc pb unready =
      reconcile_and_note-IsFalse class_name role_postgres_data pvc pb _ unready

  module _ (retry : RetryLaw c) (poll : PollLaw c) (exec : SnapshotExecutor W)
      (keeps : KeepsStates exec) (pg : PerconaPgCluster) (pb : PerconaPgBackup) where
    settle-NeverSucceeds :
        (f : ℕ → PgBackupStatus → PgBackupStatus)
        → ((now : ℕ) (st : PgBackupStatus) → (f now st).state ≡ backup_failed)
        → Sends NeverSucceeds (settle c exec pg pb f)
    unfolding settle
    settle-NeverSucceeds f h =
        update_status_with-Sends c retry pb _ (λ old. search sends_rules)
          λ old. Yields-ask _ _ λ now. Yields-pure _ λ e. absurd (cc (h now old.status, e))

    conclude-NeverSucceeds :
        (x y z : Outcome) → IsUndone x → Sends NeverSucceeds (conclude c exec pg pb x y z)
    unfolding conclude fail_snapshots
    conclude-NeverSucceeds x y z undone =
        rw undone (search (sends_rules, settle-NeverSucceeds) depth 14)

    -- As long as the server does not answer that the snapshot of the data volume is ready, no
    -- reconciliation of a running snapshot backup writes that a backup has succeeded that has not.
    -- It is assumed that RetryOnConflict and PollUntilContextTimeout behave as documented and that
    -- the executor writes no state into a backup.
    pub reconcile_running_snapshot-NeverSucceeds :
        (class_name : String)
        → Unready (pb.meta.name ++ ("-" ++ role_postgres_data))
        → Sends NeverSucceeds (reconcile_running_snapshot c exec pg pb class_name)
    unfolding reconcile_running_snapshot snapshot_intent
    reconcile_running_snapshot-NeverSucceeds class_name unready =
        Sends-bind _ _ (Sends-NeverSucceeds _ (get_target_pvcs-Kept c retry poll pb)) λ pvcs.
          Sends-bind_of _ _
            (Sends-NeverSucceeds _
              (collect-Kept c retry poll _ (reconcile_data_snapshot-Kept c retry poll _ _ pb)))
            (collect-IsUndone _ (reconcile_data_snapshot-IsFalse class_name pvcs.pgdata pb unready))
            λ x undone.
              search
                (
                  sends_rules,
                  Sends-NeverSucceeds,
                  collect-Kept c retry poll,
                  reconcile_wal_snapshot-Kept c retry poll,
                  reconcile_tablespace_snapshot-Kept c retry poll,
                  conclude-NeverSucceeds,
                )
                depth 14
