-- ===== src/Cluster/Standby/Signalled.antt =====
-- percona/controller/pgcluster/standby.go: the file that makes a lagging primary unready, after
-- a signal and after the condition is written.
use percona_postgresql_opera.Prelude.{
  if◌then◌else◌, ℕ, ℤ, is_greater, ◌≡◌, ◌∙◌, refl, sym, ap, inl, inr, String, ◌==◌, eq_iff, Bool,
  true, false, not, Bool-cases, List, [], ◌∷◌, Option, none, some,
}
use percona_postgresql_opera.Exec.{Result, ok, err, St, Exec, pure, ask, send, case_of, ◌>>=◌}
use percona_postgresql_opera.Exec.Yields.{
  Yields, yields_rules, Yields-pure, Yields-bind, Yields-bind_of, Yields-read,
}
use percona_postgresql_opera.Exec.Inversion.{attempt_ok, bind_ok, ok-inj}
use percona_postgresql_opera.Types.Meta.{
  Pod, Condition, ConditionStatus, condition_true, condition_false, condition_unknown,
  condition_standby_lagging,
}
use percona_postgresql_opera.Types.Write.{Write, signal_lag}
use percona_postgresql_opera.Types.Cluster.{PerconaPgCluster}
use percona_postgresql_opera.Client.{Client}
use percona_postgresql_opera.Client.Laws.{ConditionLaw}
use percona_postgresql_opera.Cluster.Conditions.{same_condition_status}
use percona_postgresql_opera.Cluster.Standby.{
  LagEnv, only_pod, get_primary_pod, set_pod_replication_lag_signal,
}
use percona_postgresql_opera.Cluster.Standby.Check.{
  lagging_is, set_condition, signal_then, write_lag, Left, verdict_on,
}

-- Whether the file is there in the pod after the writes, the latest first; at first it is not.
abbrev pub file_after : String → List Write → Bool
file_after pod [] = false
file_after pod (signal_lag x ∷ xs) = if x.pod == pod then not x.ready else file_after pod xs
file_after pod (_ ∷ xs) = file_after pod xs

abbrev pub has_status : Option Condition → ConditionStatus → Bool
has_status none status = false
has_status (some x) status = same_condition_status x.status status

module _ {W : Type 0} (c : Client W) (env : LagEnv W) (pod : String) where
  -- `IsStatusConditionPresentAndEqual` looks at the condition that `FindStatusCondition` finds.
  abbrev pub PresentLaw : Type 0
  PresentLaw =
      (xs : List Condition) (k : String) (status : ConditionStatus)
      → c.is_status_condition_present_and_equal xs k status
        ≡ has_status (c.find_status_condition xs k) status

  -- Where the server names just one primary of the cluster, it is this pod.
  abbrev pub IsPrimary : PerconaPgCluster → Type 0
  IsPrimary cr =
      (role : String) (w : W) (x : Pod)
      → (env.list_pods_of_role cr.meta.name role w).0 ≡ ok (x ∷ [])
      → x.meta.name ≡ pod

  only_pod-IsPrimary :
      (pods : List Pod)
      → ((x : Pod) → pods ≡ x ∷ [] → x.meta.name ≡ pod)
      → Yields (λ x. x.meta.name ≡ pod) (only_pod env pods)
  unfolding only_pod
  only_pod-IsPrimary [] h = search yields_rules
  only_pod-IsPrimary (x ∷ []) h = Yields-pure x (h x refl)
  only_pod-IsPrimary (x ∷ y ∷ ps) h = search yields_rules

  get_primary_pod-IsPrimary :
      (cr : PerconaPgCluster)
      → IsPrimary cr
      → Yields (λ x. x.meta.name ≡ pod) (get_primary_pod env cr)
  unfolding get_primary_pod
  get_primary_pod-IsPrimary cr primary = Yields-bind _ _ λ four.
      Yields-bind_of _ _ (Yields-read _) λ pods (w, w', e).
        only_pod-IsPrimary pods λ x one. primary _ w x (ap (λ r. r.0) e ∙ ap ok one)

  -- The file is there in the pod just if the condition is True.
  abbrev pub Agrees : List Write → PerconaPgCluster → Type 0
  Agrees log cr = file_after pod log ≡ lagging_is c env cr condition_true

  IsAbout : Condition → Type 0
  IsAbout x = x.kind ≡ condition_standby_lagging

  -- The condition that was set is read back.
  lagging-set :
      ConditionLaw c
      → PresentLaw
      → (now : ℕ) (xs : List Condition) (x : Condition) → x.kind ≡ condition_standby_lagging
      → c.is_status_condition_present_and_equal
          (c.set_status_condition now xs x)
          condition_standby_lagging
          condition_true
        ≡ same_condition_status x.status condition_true
  lagging-set law present now xs x kind =
      let (y, found, says) = law.find-set now xs x in
      present _ _ _
      ∙ ap (λ o. has_status o condition_true)
          (ap (c.find_status_condition (c.set_status_condition now xs x)) (sym kind) ∙ found)
      ∙ ap (λ t. same_condition_status t condition_true) says.status

  pub set_condition_lem :
      ConditionLaw c
      → PresentLaw
      → (x : Condition) (cr cr' : PerconaPgCluster) (s s' : St W Write)
      → x.kind ≡ condition_standby_lagging
      → set_condition c env x cr s ≡ (ok (cr', none), s')
      → file_after pod s.log ≡ same_condition_status x.status condition_true
      → Agrees s'.log cr'
  unfolding set_condition pure ask ◌>>=◌
  set_condition_lem law present x cr cr' s s' kind e file =
      sym (ap (λ p. file_after pod p.1.log) e)
      ∙ file
      ∙ sym (lagging-set law present _ cr.status.conditions x kind)
      ∙ ap (λ y. lagging_is c env y condition_true) (ap (λ y. y.0) (ok-inj (ap (λ p. p.0) e)))

  pub write_lag_lem :
      ConditionLaw c
      → PresentLaw
      → (lag : ℤ) (x : Condition) (cr cr' : PerconaPgCluster) (s s' : St W Write)
      → x.kind ≡ condition_standby_lagging
      → write_lag c env cr lag x s ≡ (ok (cr', none), s')
      → file_after pod s.log ≡ same_condition_status x.status condition_true
      → Agrees s'.log cr'
  unfolding write_lag pure ask ◌>>=◌
  write_lag_lem law present lag x cr cr' s s' kind e file =
      sym (ap (λ p. file_after pod p.1.log) e)
      ∙ file
      ∙ sym (lagging-set law present _ cr.status.conditions x kind)
      ∙ ap (λ y. lagging_is c env y condition_true) (ap (λ y. y.0) (ok-inj (ap (λ p. p.0) e)))

  sent_lem :
      (cr : PerconaPgCluster) (ready : Bool) (s s' : St W Write) (u : Unit {0})
      → IsPrimary cr
      → set_pod_replication_lag_signal env cr ready s ≡ (ok u, s')
      → file_after pod s'.log ≡ not ready
  unfolding set_pod_replication_lag_signal send
  sent_lem cr ready s s' u primary e =
      let (x, s₁, at, after) = bind_ok (get_primary_pod env cr) _ s s' u e in
      let named = (get_primary_pod-IsPrimary cr primary).at s x (ap (λ p. p.0) at) in
      sym (ap (λ p. file_after pod p.1.log) after) ∙ there x.meta.name s₁.log ((eq_iff _ _).1 named)
    where
      there :
          (name : String) (log : List Write)
          → (name == pod) ≡ true
          → file_after pod (signal_lag (record { pod = name; ready = ready }) ∷ log) ≡ not ready
      there name log h = rw h refl

  -- If the signal is sent, the file is there just if the pod is not to be ready.
  pub signal_then_lem :
      (cr cr' : PerconaPgCluster) (ready : Bool) (rest : Exec W Write (Left c env))
      (s s' : St W Write)
      → IsPrimary cr
      → signal_then c env cr ready rest s ≡ (ok (cr', none), s')
      → (s₁ : St W Write) × (file_after pod s₁.log ≡ not ready) × (rest s₁ ≡ (ok (cr', none), s'))
  unfolding signal_then pure case_of
  signal_then_lem cr cr' ready rest s s' primary e =
      let (sent, s₁, at, after) = bind_ok _ _ s s' (cr', none) e in
      follow sent s₁ (attempt_ok _ s s₁ sent at) after
    where
      follow :
          (sent : Result (Unit {0})) (s₁ : St W Write)
          → set_pod_replication_lag_signal env cr ready s ≡ (sent, s₁)
          → case_of sent (λ _. rest) (λ e. pure (cr, some e)) s₁ ≡ (ok (cr', none), s')
          → (s₁ : St W Write) × (file_after pod s₁.log ≡ not ready)
            × (rest s₁ ≡ (ok (cr', none), s'))
      follow (ok u) s₁ at after = (s₁, sent_lem cr ready s s₁ u primary at, after)
      follow (err x) s₁ at after = absurd (cc (ok-inj (ap (λ p. p.0) after)))

  same_status :
      (a b : ConditionStatus)
      → same_condition_status a b ≡ true
      → same_condition_status a condition_true ≡ same_condition_status b condition_true
  same_status condition_true condition_true h = refl
  same_status condition_true condition_false h = absurd (cc h)
  same_status condition_true condition_unknown h = absurd (cc h)
  same_status condition_false condition_true h = absurd (cc h)
  same_status condition_false condition_false h = refl
  same_status condition_false condition_unknown h = refl
  same_status condition_unknown condition_true h = absurd (cc h)
  same_status condition_unknown condition_false h = refl
  same_status condition_unknown condition_unknown h = refl

  pub has_status_lem :
      (o : Option Condition) (b : ConditionStatus)
      → has_status o b ≡ true
      → has_status o condition_true ≡ same_condition_status b condition_true
  has_status_lem none b h = absurd (cc h)
  has_status_lem (some x) b h = same_status x.status b h

  pub verdict_kind : (lag max : ℤ) → (verdict_on c env lag max).kind ≡ condition_standby_lagging
  verdict_kind lag max = elim (Bool-cases (is_greater lag max)) [
    | inl h ↦ rw h refl
    | inr h ↦ rw h refl
  ]

  pub verdict_status :
      (lag max : ℤ)
      → not (not (is_greater lag max))
        ≡ same_condition_status (verdict_on c env lag max).status condition_true
  verdict_status lag max = elim (Bool-cases (is_greater lag max)) [
    | inl h ↦ rw h refl
    | inr h ↦ rw h refl
  ]
