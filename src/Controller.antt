-- ===== src/Controller.antt =====
-- percona/controller/utils.go: jobs, the instance pod that commands run in, and finalizers.
use percona_postgresql_opera.Prelude.{
  String, Bool, true, false, ◌&&◌, ◌==◌, if◌then◌else◌, List, [], ◌∷◌,
}
use percona_postgresql_opera.Exec.{
  Err, finalizer_pending, errorf, Exec, pure, raise, read, attempt, ◌>>=◌, case_of, is_not_found,
}
use percona_postgresql_opera.Types.Meta.{
  ConditionStatus, condition_true, JobCondition, Job, Pod, finalizer_keep_job,
}
use percona_postgresql_opera.Types.Write.{Write, update_job}
use percona_postgresql_opera.Client.{Client, perform}

abbrev pub is_true : ConditionStatus → Bool
is_true condition_true = true
is_true _ = false

-- The first condition of the kind decides.
unfoldable pub has_condition : List JobCondition → String → Bool
has_condition [] kind = false
has_condition (x ∷ xs) kind = if x.kind == kind then is_true x.status else has_condition xs kind

abbrev pub job_completed : Job → Bool
job_completed job = has_condition job.conditions "Complete"

abbrev pub job_failed : Job → Bool
job_failed job = has_condition job.conditions "Failed"

unfoldable pub any_ready : List JobCondition → Bool
any_ready [] = false
any_ready (x ∷ xs) = if (x.kind == "Ready") && is_true x.status then true else any_ready xs

unfoldable pub ready_pod : {W : Type 0} → List Pod → Exec W Write Pod
unfolding any_ready
ready_pod [] = raise (errorf "no running instance found")
ready_pod (p ∷ ps) =
    if (p.phase == "Running") && any_ready p.conditions then pure p else ready_pod ps

abbrev pub is_pending : Err → Bool
is_pending finalizer_pending = true
is_pending _ = false

-- What `RunFinalizer` asks of `T client.Object`.
pub record Finalizable (W T : Type 0) : Type 0 where
  pub finalizers_of : T → List String
  pub with_finalizers : T → List String → T
  pub patched : T → T → Exec W Write T

module _ {W : Type 0} (c : Client W) where
  -- `client.IgnoreNotFound`
  unfoldable pub ignore_not_found : Err → Exec W Write (Unit {0})
  ignore_not_found e = if is_not_found e then pure tt else raise e

  keep_job_removed : Job → Exec W Write (Unit {0})
  keep_job_removed j =
      let (fs, changed) = c.remove_finalizer j.meta.finalizers finalizer_keep_job in
      if changed
      then perform c (update_job j (record j { meta = record j.meta { finalizers = fs } }))
      else pure tt

  unfoldable pub remove_keep_job_finalizer : Job → Exec W Write (Unit {0})
  unfolding keep_job_removed ignore_not_found
  remove_keep_job_finalizer job =
      c.retry_on_conflict
        do r ← attempt (read (c.get_job job.meta.name)); case_of r keep_job_removed ignore_not_found

  unfoldable pub get_ready_instance_pod : String → Exec W Write Pod
  get_ready_instance_pod cluster_name = do pods ← read (c.list_pods cluster_name); ready_pod pods

  module _ {T : Type 0} (o : Finalizable W T) where
    drop_finalizer : String → T → Exec W Write (Bool × T)
    drop_finalizer finalizer obj =
        let (fs, changed) = c.remove_finalizer (o.finalizers_of obj) finalizer in
        let obj' = o.with_finalizers obj fs in
        if changed
        then (do
          r ← attempt (o.patched obj obj')
          case_of r (λ new. pure (true, new))
              (λ e. if is_not_found e then pure (true, obj') else raise e))
        else pure (true, obj)

    -- Whether the finalizer is done with, and the object as it is in memory afterwards.
    unfoldable pub run_finalizer :
        String → (T → Exec W Write (Unit {0})) → T → Exec W Write (Bool × T)
    unfolding drop_finalizer
    run_finalizer finalizer f obj =
        if c.contains_finalizer (o.finalizers_of obj) finalizer
        then (do
          r ← attempt (f obj)
          case_of r (λ _. drop_finalizer finalizer obj)
              (λ e. if is_pending e then pure (false, obj) else raise e))
        else pure (true, obj)
