-- ===== src/Cluster/Conditions/Judgement.antt =====
-- When a PerconaPGCluster is ready for a backup.
use percona_postgresql_opera.Prelude.{
  ℕ, ◌≡◌, refl, String, Bool, true, false, Bool-cases, inl, inr, List, Option, none, some, arith,
  eq_iff,
}
use percona_postgresql_opera.Types.Meta.{
  ConditionStatus, condition_true, condition_false, condition_unknown, Condition,
  condition_cluster_is_ready_for_backup,
}
use percona_postgresql_opera.Types.Cluster.{PostgresClusterStatus, PerconaPgCluster}
use percona_postgresql_opera.Client.{Client}
use percona_postgresql_opera.Client.Laws.{Says, ConditionLaw}
use percona_postgresql_opera.Cluster.Conditions.{
  condition_repo_host_ready, condition_replica_create, holds, same_condition_status, is_current,
  set_ready_for_backup, judge, update_conditions,
}
use percona_postgresql_opera.Cluster.Conditions.Mirror.{last_of, Mirrored, sync_conditions-Mirrored}

-- The condition found has this status, this reason and this generation.
pub record Reads (status : ConditionStatus) (reason : String) (generation : ℕ)
    (o : Option Condition) : Type 0 where
  pub found : Condition
  pub here : o ≡ some found
  pub status_is : found.status ≡ status
  pub reason_is : found.reason ≡ reason
  pub generation_is : found.observed_generation ≡ generation

abbrev pub verdict : Bool → Bool → ConditionStatus
verdict true true = condition_true
verdict _ _ = condition_false

abbrev pub reason_of : Bool → Bool → String
reason_of false _ = condition_repo_host_ready
reason_of true false = condition_replica_create
reason_of true true = "AllConditionsAreTrue"

same_status_lem : (x y : ConditionStatus) → same_condition_status x y ≡ true → x ≡ y
same_status_lem condition_true condition_true h = refl
same_status_lem condition_false condition_false h = refl
same_status_lem condition_unknown condition_unknown h = refl
same_status_lem condition_true condition_false h = absurd (cc h)
same_status_lem condition_true condition_unknown h = absurd (cc h)
same_status_lem condition_false condition_true h = absurd (cc h)
same_status_lem condition_false condition_unknown h = absurd (cc h)
same_status_lem condition_unknown condition_true h = absurd (cc h)
same_status_lem condition_unknown condition_false h = absurd (cc h)

module _ {W : Type 0} (c : Client W) (law : ConditionLaw c) (now : ℕ) where
  current-Reads :
      (status : ConditionStatus) (reason : String) (generation : ℕ) (o : Option Condition)
      → is_current c now o status reason generation ≡ true
      → Reads status reason generation o
  current-Reads status reason generation none h = absurd (cc h)
  current-Reads status reason generation (some x) h =
      let same : same_condition_status x.status status ≡ true = ground arith in
      record {
        found = x;
        here = refl;
        status_is = same_status_lem x.status status same;
        reason_is = ground (arith, eq_iff x.reason reason);
        generation_is = ground arith;
      }

  set_ready_for_backup-Reads :
      (status : ConditionStatus) (reason : String) (generation : ℕ) (xs : List Condition)
      → Reads status reason generation (
          c.find_status_condition
            (set_ready_for_backup c now status reason generation xs)
            condition_cluster_is_ready_for_backup)
  unfolding set_ready_for_backup
  set_ready_for_backup-Reads status reason generation xs =
      elim (Bool-cases (
        is_current c now (c.find_status_condition xs condition_cluster_is_ready_for_backup) status
          reason generation)) [
            | inl current ↦ rw current (current-Reads status reason generation _ current)
            | inr other ↦ rw other (written (law.find-set now xs _))
          ]
    where
      written :
          {x : Condition} {o : Option Condition}
          → (y : Condition) × (o ≡ some y) × Says y x
          → Reads x.status x.reason x.observed_generation o
      written (y, e, says) = record {
        found = y;
        here = e;
        status_is = says.status;
        reason_is = says.reason;
        generation_is = says.observed_generation;
      }

  judge-Reads :
      (generation : ℕ) (xs : List Condition) (repo_host replica : Bool)
      → holds (c.find_status_condition xs condition_repo_host_ready) ≡ repo_host
      → holds (c.find_status_condition xs condition_replica_create) ≡ replica
      → Reads (verdict repo_host replica) (reason_of repo_host replica) generation (
          c.find_status_condition (judge c now generation xs) condition_cluster_is_ready_for_backup)
  unfolding judge
  judge-Reads generation xs false replica h r = rw h (set_ready_for_backup-Reads _ _ generation xs)
  judge-Reads generation xs true false h r =
      rw (h, r) (set_ready_for_backup-Reads _ _ generation xs)
  judge-Reads generation xs true true h r = rw (h, r) (set_ready_for_backup-Reads _ _ generation xs)

  -- A type that the operator does not own holds after the mirroring just if it holds at crunchy.
  Mirrored-holds :
      (o : Option Condition) (generation : ℕ) (before after : Option Condition)
      → Mirrored false o generation before after
      → holds after ≡ holds o
  Mirrored-holds none generation before after h = rw h refl
  Mirrored-holds (some x) generation before after (y, e, says) = rw (e, says.status) refl

  -- After `updateConditions` the condition ReadyForBackup is there, at the cluster's generation. It
  -- is True exactly if crunchy's status has the conditions on the repository host and on the replica
  -- creation, both True; else it is False, with the first of the two that is not True as its reason.
  -- What the cluster's own conditions said before makes no difference.
  pub update_conditions-Reads :
      (crunchy : PostgresClusterStatus) (cr : PerconaPgCluster)
      → let repo_host = holds (last_of crunchy.conditions condition_repo_host_ready) in
        let replica = holds (last_of crunchy.conditions condition_replica_create) in
        Reads (verdict repo_host replica) (reason_of repo_host replica) cr.meta.generation (
          c.find_status_condition
            (update_conditions c now crunchy cr).status.conditions
            condition_cluster_is_ready_for_backup)
  unfolding update_conditions
  update_conditions-Reads crunchy cr =
      judge-Reads cr.meta.generation _ _ _
        (Mirrored-holds _ _ _ _ (
          sync_conditions-Mirrored c law now cr.meta.generation crunchy.conditions
            cr.status.conditions condition_repo_host_ready))
        (Mirrored-holds _ _ _ _ (
          sync_conditions-Mirrored c law now cr.meta.generation crunchy.conditions
            cr.status.conditions condition_replica_create))
