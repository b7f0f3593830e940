-- ===== src/Instance.antt =====
-- percona/postgres/common.go: suspending an instance by an annotation of its stateful set, resuming
-- it, and the replica pods of a cluster.
pub mod Suspension
use percona_postgresql_opera.Prelude.{
  String, Bool, true, false, not, ◌&&◌, if◌then◌else◌, List, is_some, lookup, insert, delete, ltb,
  nat_eq,
}
use percona_postgresql_opera.Exec.{Exec, pure, read, ◌>>=◌, ◌>>◌}
use percona_postgresql_opera.Types.Meta.{Pod, annotation_instance_suspended}
use percona_postgresql_opera.Types.Cluster.{PerconaPgCluster}
use percona_postgresql_opera.Types.Volume.{StatefulSet}
use percona_postgresql_opera.Types.Write.{Write, patch_stateful_set}
use percona_postgresql_opera.Client.{Client, perform}

-- Whether the annotation is set, whatever its value.
abbrev pub is_marked : StatefulSet → Bool
is_marked sts = is_some (lookup sts.meta.annotations annotation_instance_suspended)

abbrev pub marked : StatefulSet → StatefulSet
marked sts = record sts {
  meta = record sts.meta {
    annotations = insert sts.meta.annotations annotation_instance_suspended "";
  };
}

abbrev pub unmarked : StatefulSet → StatefulSet
unmarked sts = record sts {
  meta = record sts.meta {
    annotations = delete sts.meta.annotations annotation_instance_suspended;
  };
}

module _ {W : Type 0} (c : Client W) where
  unfoldable pub get_replica_pods : PerconaPgCluster → Exec W Write (List Pod)
  get_replica_pods cr = read (c.list_replica_pods cr.meta.name)

  -- The annotation is written to the stateful set as it is read anew.
  unfoldable pub mark : String → (StatefulSet → StatefulSet) → Exec W Write (Unit {0})
  mark name f =
      c.retry_on_conflict
        do sts ← read (c.get_stateful_set name); perform c (patch_stateful_set sts (f sts))

  -- Whether the instance is suspended. The caller waits for it.
  unfoldable pub suspend_instance : String → Exec W Write Bool
  unfolding mark
  suspend_instance name = do
    sts ← read (c.get_stateful_set name)
    if is_marked sts
        then pure (nat_eq sts.replicas 0 && nat_eq sts.ready_replicas 0)
        else do mark name marked; pure false

  unfoldable pub unsuspend_instance : String → Exec W Write Bool
  unfolding mark
  unsuspend_instance name = do
    sts ← read (c.get_stateful_set name)
    if not (is_marked sts)
        then pure (ltb 0 sts.replicas && ltb 0 sts.ready_replicas)
        else do mark name unmarked; pure false
