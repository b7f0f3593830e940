-- ===== src/Restore/Snapshot/Volumes.antt =====
-- percona/controller/pgrestore/snapshot/reconcile.go: the claims of the instances, which a restore
-- deletes and creates anew from the snapshots of a backup.
use Prim.Native.String.{◌++◌}
use percona_postgresql_opera.Prelude.{
  String, Bool, true, false, ◌&&◌, ◌==◌, if◌then◌else◌, Option, none, some, List, [], ◌∷◌,
  StringMap, lookup, value_at,
}
use percona_postgresql_opera.Exec.{
  errorf, Exec, pure, raise, read, ask, attempt, ◌>>=◌, ◌>>◌, case_of, on_option, is_not_found,
}
use percona_postgresql_opera.Types.Meta.{annotation_snapshot_restore, label_instance_set}
use percona_postgresql_opera.Types.Cluster.{InstanceSetSpec, PerconaPgCluster}
use percona_postgresql_opera.Types.Backup.{SnapshotStatus, PerconaPgBackup}
use percona_postgresql_opera.Types.Restore.{PerconaPgRestore}
use percona_postgresql_opera.Types.Volume.{StatefulSet, Pvc}
use percona_postgresql_opera.Types.Write.{Write, create_pvc, delete_pvc}
use percona_postgresql_opera.Client.{Client, perform}

-- `volumeContextInfo`: the role of a volume, with the tablespace's name.
pub data VolumeRole : Type 0 where
  data_volume wal_volume : VolumeRole
  tablespace_volume : String → VolumeRole

-- `InstancePostgresDataVolume`, `InstancePostgresWALVolume`, `InstanceTablespaceDataVolume`
abbrev pub claim_name : StatefulSet → VolumeRole → String
claim_name instance data_volume = instance.meta.name ++ "-pgdata"
claim_name instance wal_volume = instance.meta.name ++ "-pgwal"
claim_name instance (tablespace_volume name) =
    instance.meta.name ++ ("-" ++ (name ++ "-tablespace"))

unfoldable pub find_instance_set : List InstanceSetSpec → String → Option InstanceSetSpec
find_instance_set [] name = none
find_instance_set (x ∷ xs) name = if x.name == name then some x else find_instance_set xs name

-- The `switch` of `pvcSpecFromDataSource`: the claim that the instance set asks for.
abbrev pub volume_spec : InstanceSetSpec → VolumeRole → Option String
volume_spec x data_volume = some x.data_volume_claim
volume_spec x wal_volume = x.wal_volume_claim
volume_spec x (tablespace_volume name) = lookup x.tablespace_volumes name

-- The claim that the restore creates: annotated with its name, with the snapshot as its source.
unfoldable pub restored_claim : PerconaPgRestore → StatefulSet → VolumeRole → String → String → Pvc
restored_claim pr instance role claim snapshot_name = record {
  meta = record {
    name = claim_name instance role;
    namespace = instance.meta.namespace;
    uid = "";
    generation = 0;
    resource_version = "";
    creation_timestamp = 0;
    is_deleting = false;
    annotations = (annotation_snapshot_restore, pr.meta.name) ∷ [];
    labels = [];
    finalizers = [];
  };
  claim = claim;
  data_source = some snapshot_name;
}

-- The claim was created by this restore.
abbrev pub is_restored : PerconaPgRestore → Pvc → Bool
is_restored pr pvc = value_at pvc.meta.annotations annotation_snapshot_restore == pr.meta.name

abbrev data_ref : Option SnapshotStatus → Option String
data_ref none = none
data_ref (some x) = x.data_volume_snapshot_ref

abbrev wal_ref : Option SnapshotStatus → Option String
wal_ref none = none
wal_ref (some x) = x.wal_volume_snapshot_ref

abbrev tablespace_refs : Option SnapshotStatus → StringMap
tablespace_refs none = []
tablespace_refs (some x) = x.tablespace_volume_snapshot_refs

module _ {W : Type 0} (c : Client W) (pg : PerconaPgCluster) (pb : PerconaPgBackup)
    (pr : PerconaPgRestore) where
  unfoldable pub pvc_spec_from_data_source : VolumeRole → String → Exec W Write String
  pvc_spec_from_data_source role set_name =
      on_option (find_instance_set pg.instance_sets set_name)
        (raise (errorf "instance set not found"))
        λ x.
          on_option (volume_spec x role) (raise (errorf "volume spec not found in instance spec"))
            pure

  unfoldable pub create_pvc_from_snapshot :
      VolumeRole → StatefulSet → String → Exec W Write (Unit {0})
  unfolding pvc_spec_from_data_source
  create_pvc_from_snapshot role instance snapshot_name =
      let set_name = value_at instance.meta.labels label_instance_set in
      if set_name == "" then raise (errorf "instance set name is not known") else (do
        claim ← pvc_spec_from_data_source role set_name
        perform c (create_pvc (restored_claim pr instance role claim snapshot_name)))

  -- What is made of a claim that exists.
  unfoldable pub replace_pvc : Pvc → Exec W Write Bool
  replace_pvc observed =
      if is_restored pr observed
      then pure true
      else if observed.meta.is_deleting
      then pure false
      else do perform c (delete_pvc observed); pure false

  -- Whether the claim is the restore's.
  unfoldable pub reconcile_instance_pvc : VolumeRole → StatefulSet → String → Exec W Write Bool
  unfolding create_pvc_from_snapshot replace_pvc
  reconcile_instance_pvc role instance snapshot_name = do
    r ← attempt (read (c.get_pvc (claim_name instance role)))
    case_of r replace_pvc (λ e.
        if is_not_found e
        then (do create_pvc_from_snapshot role instance snapshot_name; pure true)
        else raise e)

  unfoldable pub reconcile_data_volume : StatefulSet → Exec W Write Bool
  unfolding reconcile_instance_pvc
  reconcile_data_volume instance =
      on_option (data_ref pb.status.snapshot) (raise (errorf "data volume snapshot not known"))
        λ name. reconcile_instance_pvc data_volume instance name

  unfoldable pub reconcile_wal_volume : StatefulSet → Exec W Write Bool
  unfolding reconcile_instance_pvc
  reconcile_wal_volume instance =
      on_option (wal_ref pb.status.snapshot) (pure true)
        λ name. reconcile_instance_pvc wal_volume instance name

  unfoldable pub each_tablespace_volume : StatefulSet → StringMap → Bool → Exec W Write Bool
  unfolding reconcile_instance_pvc
  each_tablespace_volume instance [] done = pure done
  each_tablespace_volume instance ((tablespace, snapshot_name) ∷ rest) done = do
    ready ← reconcile_instance_pvc (tablespace_volume tablespace) instance snapshot_name
    each_tablespace_volume instance rest (if ready then done else false)

  unfoldable pub reconcile_tablespace_volumes : StatefulSet → Exec W Write Bool
  unfolding each_tablespace_volume
  reconcile_tablespace_volumes instance = do
    entries ← ask (c.map_entries (tablespace_refs pb.status.snapshot))
    each_tablespace_volume instance entries true

  unfoldable pub reconcile_instance : StatefulSet → Exec W Write Bool
  unfolding reconcile_data_volume reconcile_wal_volume reconcile_tablespace_volumes
  reconcile_instance instance = do
    data_done ← reconcile_data_volume instance
    wal_done ← reconcile_wal_volume instance
    tablespaces_done ← reconcile_tablespace_volumes instance
    pure (data_done && (wal_done && tablespaces_done))

  unfoldable pub reconcile_instances : List StatefulSet → Bool → Exec W Write Bool
  unfolding reconcile_instance
  reconcile_instances [] done = pure done
  reconcile_instances (x ∷ xs) done = do
    ready ← reconcile_instance x
    reconcile_instances xs (if ready then done else false)
