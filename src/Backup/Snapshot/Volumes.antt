-- ===== src/Backup/Snapshot/Volumes.antt =====
-- percona/controller/pgbackup/snapshots/reconcile.go: the volumes of the target instance, and the
-- snapshot of one volume.
use Prim.Native.String.{◌++◌}
use percona_postgresql_opera.Prelude.{
  ℕ, ◌+◌, String, Bool, true, false, ◌==◌, if◌then◌else◌, ltb, Option, none, some, List, [], ◌∷◌,
  deref, StringMap, value_at, insert,
}
use percona_postgresql_opera.Exec.{
  volume_snapshot_failed, nil_dereference, errorf, Exec, pure, raise, lift, read, ask, attempt,
  ◌>>=◌, ◌>>◌, case_of, on_option, is_already_exists,
}
use percona_postgresql_opera.Types.Meta.{
  ObjectMeta, annotation_backup_target, label_data, role_postgres_data, role_postgres_wal,
  role_tablespace,
}
use percona_postgresql_opera.Types.Backup.{SnapshotStatus, PerconaPgBackup}
use percona_postgresql_opera.Types.Volume.{
  Pvc, VolumeSnapshotError, VolumeSnapshotStatus, VolumeSnapshot,
}
use percona_postgresql_opera.Types.Write.{Write, create_snapshot}
use percona_postgresql_opera.Client.{Client, perform}
use percona_postgresql_opera.Backup.Status.{update_status_with}

-- The claims of the target instance: its data, its WAL ("" for none), its tablespaces.
pub record TargetPvcs : Type 0 where
  pub pgdata : String
  pub pgwal : String
  pub tablespaces : StringMap

-- The name of the only claim.
abbrev pub only_claim : List Pvc → Option String
only_claim (p ∷ []) = some p.meta.name
only_claim _ = none

unfoldable pub named_tablespaces : List Pvc → StringMap → StringMap
named_tablespaces [] m = m
named_tablespaces (p ∷ ps) m =
    named_tablespaces ps (insert m (value_at p.meta.labels label_data) p.meta.name)

abbrev new_meta : String → String → ObjectMeta
new_meta name namespace = record {
  name = name;
  namespace = namespace;
  uid = "";
  generation = 0;
  resource_version = "";
  creation_timestamp = 0;
  is_deleting = false;
  annotations = [];
  labels = [];
  finalizers = [];
}

-- The snapshot of `generateSnapshotIntent`, less its reference to its owner.
unfoldable pub snapshot_intent : String → PerconaPgBackup → String → String → VolumeSnapshot
snapshot_intent class_name pb role pvc = record {
  meta = new_meta (pb.meta.name ++ ("-" ++ role)) pb.meta.namespace;
  class_name = class_name;
  source = pvc;
  status = none;
}

-- `shouldFailSnapshot`, where an error is reported: its time, if it has one, is five minutes ago.
abbrev pub is_past_deadline : ℕ → VolumeSnapshotError → Bool
is_past_deadline now e = elim e.time [ none ↦ false | some at ↦ ltb (at + 300) now ]

-- A function on `Status.Snapshot`, which panics if there is none.
unfoldable pub with_snapshot :
    {W : Type 0}
    → (SnapshotStatus → SnapshotStatus)
    → PerconaPgBackup
    → Exec W Write PerconaPgBackup
with_snapshot f b =
    on_option b.status.snapshot (raise nil_dereference)
      λ x. pure (record b { status = record b.status { snapshot = some (f x) } })

module _ {W : Type 0} (c : Client W) where
  unfoldable pub get_target_pvcs : PerconaPgBackup → Exec W Write TargetPvcs
  unfolding named_tablespaces
  get_target_pvcs pb =
      let target = value_at pb.meta.annotations annotation_backup_target in
      if target == "" then raise (errorf "backup target instance is not found") else (do
        volumes ← read (c.list_pvcs target role_postgres_data)
        data_pvc ←
            on_option (only_claim volumes) (raise (errorf "unexpected number of data volumes")) pure
        wal_volumes ← read (c.list_pvcs target role_postgres_wal)
        tablespace_volumes ← read (c.list_pvcs target role_tablespace)
        pure (record {
          pgdata = data_pvc;
          pgwal = deref (only_claim wal_volumes) "";
          tablespaces = named_tablespaces tablespace_volumes [];
        }))

  unfoldable pub generate_snapshot_intent :
      String → PerconaPgBackup → String → String → Exec W Write VolumeSnapshot
  unfolding snapshot_intent
  generate_snapshot_intent class_name pb role pvc =
      let intent = snapshot_intent class_name pb role pvc in
      do lift (c.set_controller_reference pb.meta.name intent.meta.name); pure intent

  -- Whether the snapshot was created, which it is not if there is one of its name.
  unfoldable pub ensure_snapshot : VolumeSnapshot → Exec W Write Bool
  ensure_snapshot v = do
    r ← attempt (perform c (create_snapshot v))
    case_of r (λ _. pure true) (λ e. if is_already_exists e then pure false else raise e)

  unfoldable pub look_at_error : VolumeSnapshotError → Exec W Write Bool
  look_at_error e = do
    now ← ask c.now
    if is_past_deadline now e then raise volume_snapshot_failed else pure false

  -- The `switch` on what the snapshot reports.
  unfoldable pub observe_snapshot : VolumeSnapshotStatus → Exec W Write Bool
  unfolding look_at_error
  observe_snapshot st =
      if deref st.ready_to_use false
      then pure true
      else on_option st.error (pure false) look_at_error

  -- Whether the snapshot is ready.
  unfoldable pub reconcile_snapshot : VolumeSnapshot → Exec W Write Bool
  unfolding ensure_snapshot observe_snapshot
  reconcile_snapshot v = do
    created ← ensure_snapshot v
    if created then pure false else (do
      found ← read (c.get_snapshot v.meta.name)
      on_option found.status (pure false) observe_snapshot)

  -- A snapshot is reconciled, and noted in the status whether or not it is ready.
  unfoldable pub reconcile_and_note :
      String
      → PerconaPgBackup
      → String
      → String
      → (String → SnapshotStatus → SnapshotStatus)
      → Exec W Write Bool
  unfolding reconcile_snapshot generate_snapshot_intent
  reconcile_and_note class_name pb role pvc note = do
    intent ← generate_snapshot_intent class_name pb role pvc
    ready ← reconcile_snapshot intent
    update_status_with c pb (with_snapshot (note intent.meta.name))
    pure ready

  unfoldable pub reconcile_data_snapshot : String → PerconaPgBackup → String → Exec W Write Bool
  unfolding reconcile_and_note
  reconcile_data_snapshot class_name pb pvc =
      reconcile_and_note class_name pb role_postgres_data pvc
        λ name x. record x { data_volume_snapshot_ref = some name }

  unfoldable pub reconcile_wal_snapshot : String → PerconaPgBackup → String → Exec W Write Bool
  unfolding reconcile_and_note
  reconcile_wal_snapshot class_name pb pvc =
      if pvc == ""
      then pure true
      else reconcile_and_note class_name pb role_postgres_wal pvc
          λ name x. record x { wal_volume_snapshot_ref = some name }

  unfoldable pub reconcile_tablespace :
      String → PerconaPgBackup → String → String → Exec W Write Bool
  unfolding reconcile_and_note
  reconcile_tablespace class_name pb tablespace pvc =
      reconcile_and_note class_name pb (tablespace ++ ("-" ++ role_tablespace)) pvc λ name x.
        record x {
          tablespace_volume_snapshot_refs =
              insert x.tablespace_volume_snapshot_refs tablespace name;
        }

  -- The loop over the tablespaces, in the order in which Go visits them.
  unfoldable pub each_tablespace : String → PerconaPgBackup → StringMap → Bool → Exec W Write Bool
  unfolding reconcile_tablespace
  each_tablespace class_name pb [] done = pure done
  each_tablespace class_name pb ((tablespace, pvc) ∷ rest) done = do
    ready ← reconcile_tablespace class_name pb tablespace pvc
    each_tablespace class_name pb rest (if ready then done else false)

  unfoldable pub reconcile_tablespace_snapshot :
      String → PerconaPgBackup → StringMap → Exec W Write Bool
  unfolding each_tablespace
  reconcile_tablespace_snapshot class_name pb pvcs = do
    entries ← ask (c.map_entries pvcs)
    each_tablespace class_name pb entries true
