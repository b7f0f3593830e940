-- ===== src/Cluster/Conditions.antt =====
-- `updateConditions` and the functions that mirror crunchy's status. The clock is read once for
-- the calls of one run.
pub mod Mirror
pub mod Judgement
use percona_postgresql_opera.Prelude.{
  ℕ, String, Bool, true, false, not, ◌||◌, ◌&&◌, ◌==◌, nat_eq, if◌then◌else◌, List, [], ◌∷◌, Option,
  none, some, deref, contains,
}
use percona_postgresql_opera.Types.Meta.{
  ObjectMeta, ConditionStatus, condition_true, condition_false, condition_unknown, Condition,
  condition_cluster_is_ready_for_backup,
}
use percona_postgresql_opera.Types.Cluster.{
  PatroniStatus, PgBackRestStatus, PgClusterStatus, PerconaPgCluster, PostgresClusterStatus,
}
use percona_postgresql_opera.Client.{Client}
use percona_postgresql_opera.Controller.{is_true}

abbrev pub condition_pmm_ready : String
condition_pmm_ready = "PMMReady"

abbrev pub condition_repo_host_ready : String
condition_repo_host_ready = "PGBackRestRepoHostReady"

abbrev pub condition_replica_create : String
condition_replica_create = "PGBackRestReplicaCreate"

abbrev pub percona_owned_conditions : List String
percona_owned_conditions =
    condition_cluster_is_ready_for_backup ∷ "APIGroupMigration" ∷ "StandbyLagging"
    ∷ "ReadyForLogicalReplication" ∷ condition_pmm_ready ∷ []

abbrev pub with_conditions : List Condition → PerconaPgCluster → PerconaPgCluster
with_conditions xs cr = record cr { status = record cr.status { conditions = xs } }

-- `crunchyTypes[t]`, as the list of its keys
abbrev pub kinds : List Condition → List String
kinds [] = []
kinds (x ∷ xs) = x.kind ∷ kinds xs

-- Crunchy's status has the type, or this operator's controllers own it.
unfoldable pub is_kept : List Condition → String → Bool
is_kept crunchy k = contains (kinds crunchy) k || contains percona_owned_conditions k

-- The types that `stale` collects.
unfoldable pub stale_kinds : List Condition → List Condition → List String
stale_kinds crunchy [] = []
stale_kinds crunchy (x ∷ xs) =
    let rest = stale_kinds crunchy xs in if is_kept crunchy x.kind then rest else x.kind ∷ rest

abbrev pub same_condition_status : ConditionStatus → ConditionStatus → Bool
same_condition_status condition_true condition_true = true
same_condition_status condition_false condition_false = true
same_condition_status condition_unknown condition_unknown = true
same_condition_status _ _ = false

abbrev pub holds : Option Condition → Bool
holds none = false
holds (some x) = is_true x.status

module _ {W : Type 0} (c : Client W) (now : ℕ) where
  unfoldable pub mirror : ℕ → List Condition → List Condition → List Condition
  mirror generation [] xs = xs
  mirror generation (y ∷ ys) xs =
      mirror generation ys
        (c.set_status_condition now xs (record y { observed_generation = generation }))

  unfoldable pub remove_all : List String → List Condition → List Condition
  remove_all [] xs = xs
  remove_all (k ∷ ks) xs = remove_all ks (c.remove_status_condition xs k)

  unfoldable pub sync_conditions : ℕ → List Condition → List Condition → List Condition
  unfolding mirror remove_all stale_kinds
  sync_conditions generation crunchy xs =
      let set = mirror generation crunchy xs in remove_all (stale_kinds crunchy set) set

  -- The condition is there and says just this.
  abbrev pub is_current : Option Condition → ConditionStatus → String → ℕ → Bool
  is_current none status reason generation = false
  is_current (some x) status reason generation =
      same_condition_status x.status status
      && (x.reason == reason)
      && nat_eq x.observed_generation generation

  unfoldable pub set_ready_for_backup :
      ConditionStatus → String → ℕ → List Condition → List Condition
  set_ready_for_backup status reason generation xs =
      if is_current (c.find_status_condition xs condition_cluster_is_ready_for_backup) status reason
        generation
      then xs
      else c.set_status_condition now xs (record {
        kind = condition_cluster_is_ready_for_backup;
        status = status;
        reason = reason;
        message = "";
        last_transition_time = now;
        observed_generation = generation;
      })

  -- What follows the mirroring.
  unfoldable pub judge : ℕ → List Condition → List Condition
  unfolding set_ready_for_backup
  judge generation xs =
      if not (holds (c.find_status_condition xs condition_repo_host_ready))
      then set_ready_for_backup condition_false condition_repo_host_ready generation xs
      else if not (holds (c.find_status_condition xs condition_replica_create))
      then set_ready_for_backup condition_false condition_replica_create generation xs
      else set_ready_for_backup condition_true "AllConditionsAreTrue" generation xs

  unfoldable pub sync_patroni : PatroniStatus → Option PatroniStatus → PatroniStatus
  sync_patroni crunchy own =
      let p =
        deref own
          (record { system_identifier = ""; switchover = none; switchover_timeline = none }) in
      record {
        system_identifier =
            if crunchy.system_identifier == ""
            then p.system_identifier
            else crunchy.system_identifier;
        switchover = elim crunchy.switchover [ none ↦ p.switchover | some s ↦ some s ];
        switchover_timeline = elim crunchy.switchover_timeline [
          | none ↦ p.switchover_timeline
          | some t ↦ some t
        ];
      }

  abbrev sync_pgbackrest :
      Option PgBackRestStatus → Option PgBackRestStatus → Option PgBackRestStatus
  sync_pgbackrest none own = own
  sync_pgbackrest (some s) own = some s

  unfoldable pub update_conditions : PostgresClusterStatus → PerconaPgCluster → PerconaPgCluster
  unfolding sync_conditions judge sync_patroni
  update_conditions crunchy cr = record cr {
    status = record cr.status {
      conditions =
          judge cr.meta.generation
            (sync_conditions cr.meta.generation crunchy.conditions cr.status.conditions);
      patroni = some (sync_patroni crunchy.patroni cr.status.patroni);
      pgbackrest = sync_pgbackrest crunchy.pgbackrest cr.status.pgbackrest;
    };
  }
