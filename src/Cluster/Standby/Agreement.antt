-- ===== src/Cluster/Standby/Agreement.antt =====
-- percona/controller/pgcluster/standby.go: the file that makes a lagging primary unready.
use percona_postgresql_opera.Prelude.{
  ℤ, is_greater, ◌≡◌, ◌∙◌, refl, sym, ap, subst, inl, inr, String, true, false, not, if◌then◌else◌,
  List, [], ◌∷◌, ◌++◌, All, Option, none, some,
}
use percona_postgresql_opera.Exec.{Err, Result, ok, err, St, pure, ask, case_of, on_option}
use percona_postgresql_opera.Exec.Inversion.{attempt_ok, bind_ok, pure_ok, if_cases}
use percona_postgresql_opera.Exec.Writes.{Adds}
use percona_postgresql_opera.Types.Meta.{condition_true, condition_unknown}
use percona_postgresql_opera.Types.Write.{Write}
use percona_postgresql_opera.Types.Cluster.{StandbySpec, PerconaPgCluster}
use percona_postgresql_opera.Client.{Client}
use percona_postgresql_opera.Client.Laws.{ConditionLaw}
use percona_postgresql_opera.Cluster.Standby.{LagEnv, checked_standby}
use percona_postgresql_opera.Cluster.Standby.Signalled.{
  IsPrimary, file_after, PresentLaw, Agrees, set_condition_lem, write_lag_lem, signal_then_lem,
  has_status_lem, verdict_kind, verdict_status,
}
use percona_postgresql_opera.Cluster.Standby.Quiet.{get_standby_lag-Sends}
use percona_postgresql_opera.Cluster.Standby.Check.{
  lagging_condition, lagging_is, set_condition, signal_then, unknown_text, lag_unknown, lag_known,
  write_lag, compute_lag, is_site_missing, is_uninitialised, should_skip_lag_check, check_standby,
  check_interval, site_missing, with_standby, standby_status, reconcile_standby_lag, Left,
  verdict_on,
}

module _ {W : Type 0} (c : Client W) (env : LagEnv W) (pod : String) where
  module _ (law : ConditionLaw c) (present : PresentLaw c env pod) where
    lag_unknown_lem :
        (cr cr' : PerconaPgCluster) (x : Err) (s s' : St W Write)
        → IsPrimary c env pod cr
        → lag_unknown c env cr x s ≡ (ok (cr', none), s')
        → Agrees c env pod s.log cr
        → Agrees c env pod s'.log cr'
    unfolding lag_unknown
    lag_unknown_lem cr cr' x s s' primary e file =
        let write =
          set_condition c env
            (lagging_condition condition_unknown "ErrorGettingLag" (unknown_text c env x)) cr in
        elim (if_cases (lagging_is c env cr condition_true) (signal_then c env cr true write) write
          s (ok (cr', none), s') e) [
            | inl (lagged, signalled) ↦
                let (s₁, gone, written) =
                  signal_then_lem c env pod cr cr' true _ s s' primary signalled in
                set_condition_lem c env pod law present _ cr cr' s₁ s' refl written gone
            | inr (current, written) ↦
                set_condition_lem c env pod law present _ cr cr' s s' refl written (file ∙ current)
          ]

    lag_known_lem :
        (cr cr' : PerconaPgCluster) (quantity : String) (lag : ℤ) (s s' : St W Write)
        → IsPrimary c env pod cr
        → lag_known c env cr quantity lag s ≡ (ok (cr', none), s')
        → Agrees c env pod s.log cr
        → Agrees c env pod s'.log cr'
    unfolding lag_known
    lag_known_lem cr cr' quantity lag s s' primary e file =
        let max = env.unscaled quantity in
        let x = verdict_on c env lag max in
        let write = write_lag c env cr lag x in
        elim (if_cases (lagging_is c env cr x.status) write
          (signal_then c env cr (not (is_greater lag max)) write) s (ok (cr', none), s') e) [
            | inl (same, written) ↦
                write_lag_lem c env pod law present lag x cr cr' s s'
                  (verdict_kind c env pod lag max) written
                  (file
                    ∙ (present _ _ _ ∙ has_status_lem c env pod _ _ (sym (present _ _ _) ∙ same)))
            | inr (other, signalled) ↦
                let (s₁, done, written) =
                  signal_then_lem c env pod cr cr' (not (is_greater lag max)) write s s' primary
                    signalled in
                write_lag_lem c env pod law present lag x cr cr' s₁ s'
                  (verdict_kind c env pod lag max) written (done ∙ verdict_status c env pod lag max)
          ]

    unsent : {l k : List Write} → Adds (λ x. ⊥) l k → l ≡ k
    unsent a = none_added a.added a.grown a.each
      where
        none_added : {l k : List Write} (xs : List Write) → k ≡ xs ++ l → All (λ x. ⊥) xs → l ≡ k
        none_added [] g h = sym g
        none_added (x ∷ xs) g h = absurd h.0

    compute_lag_lem :
        (spec : StandbySpec) (quantity : String) (cr cr' : PerconaPgCluster) (s s' : St W Write)
        → IsPrimary c env pod cr
        → compute_lag c env spec quantity cr s ≡ (ok (cr', none), s')
        → Agrees c env pod s.log cr
        → Agrees c env pod s'.log cr'
    unfolding compute_lag case_of
    compute_lag_lem spec quantity cr cr' s s' primary e file =
        let (lag, s₁, at, after) = bind_ok _ _ s s' (cr', none) e in
        let quiet = (get_standby_lag-Sends env (λ x. ⊥) spec cr).at s in
        judged lag s₁ after (
          subst (λ l. Agrees c env pod l cr)
            (unsent quiet ∙ ap (λ p. p.1.log) (attempt_ok _ s s₁ lag at)) file)
      where
        judged :
            (lag : Result ℤ) (s₁ : St W Write)
            → case_of lag (lag_known c env cr quantity) (lag_unknown c env cr) s₁
              ≡ (ok (cr', none), s')
            → Agrees c env pod s₁.log cr
            → Agrees c env pod s'.log cr'
        judged (ok n) s₁ after file = lag_known_lem cr cr' quantity n s₁ s' primary after file
        judged (err x) s₁ after file = lag_unknown_lem cr cr' x s₁ s' primary after file

    pure_lem :
        (cr cr' : PerconaPgCluster) (s s' : St W Write)
        → pure {A = Left c env} (cr, none) s ≡ (ok (cr', none), s')
        → Agrees c env pod s.log cr
        → Agrees c env pod s'.log cr'
    pure_lem cr cr' s s' e file =
        let (same, at) = pure_ok _ _ s s' e in
        ap (λ t. file_after pod t.log) (sym at)
        ∙ file
        ∙ ap (λ y. lagging_is c env y condition_true) (ap (λ y. y.0) same)

    -- A check that the interval may leave out.
    interval_lem :
        (spec : StandbySpec) (quantity : String) (cr cr' : PerconaPgCluster) (s s' : St W Write)
        → IsPrimary c env pod cr
        → check_interval c env spec quantity cr s ≡ (ok (cr', none), s')
        → Agrees c env pod s.log cr
        → Agrees c env pod s'.log cr'
    unfolding check_interval ask
    interval_lem spec quantity cr cr' s s' primary e file =
        let (now, s₁, at, after) = bind_ok (ask c.now) _ s s' (cr', none) e in
        let file₁ = subst (λ l. Agrees c env pod l cr) (ap (λ p. p.1.log) at) file in
        elim (if_cases (should_skip_lag_check c env now cr) (pure (cr, none))
          (compute_lag c env spec quantity cr) s₁ (ok (cr', none), s') after) [
            | inl (skip, done) ↦ pure_lem cr cr' s₁ s' done file₁
            | inr (due, done) ↦ compute_lag_lem spec quantity cr cr' s₁ s' primary done file₁
          ]

    check_standby_lem :
        (spec : StandbySpec) (quantity : String) (cr cr' : PerconaPgCluster) (s s' : St W Write)
        → (is_site_missing c env spec cr ≡ true → lagging_is c env cr condition_true ≡ false)
        → IsPrimary c env pod cr
        → check_standby c env spec quantity cr s ≡ (ok (cr', none), s')
        → Agrees c env pod s.log cr
        → Agrees c env pod s'.log cr'
    unfolding check_standby
    check_standby_lem spec quantity cr cr' s s' known primary e file =
        elim (if_cases (is_site_missing c env spec cr) (site_missing c env cr)
          (if is_uninitialised c env cr
            then pure (cr, none)
            else check_interval c env spec quantity cr)
          s (ok (cr', none), s') e) [
            | inl (missing, done) ↦
                set_condition_lem c env pod law present _ cr cr' s s' refl done
                  (file ∙ known missing)
            | inr (found, e₂) ↦
                elim (if_cases (is_uninitialised c env cr) (pure (cr, none))
                  (check_interval c env spec quantity cr) s (ok (cr', none), s') e₂) [
                    | inl (early, done) ↦ pure_lem cr cr' s s' done file
                    | inr (late, done) ↦ interval_lem spec quantity cr cr' s s' primary done file
                  ]
          ]

  -- If the lag of a standby is checked, only a repository is named and the main site is not known,
  -- then the condition is not True.
  abbrev pub IsFollowable : PerconaPgCluster → Type 0
  IsFollowable cr =
      (spec : StandbySpec) (quantity : String)
      → checked_standby env cr ≡ some (spec, quantity)
      → is_site_missing c env spec cr ≡ true
      → lagging_is c env cr condition_true ≡ false

  -- If the file that makes a pod unready is there just if the condition StandbyLagging is True, and
  -- reconcileStandbyLag returns no error, then that is so afterwards, for the cluster as it leaves
  -- it. Where the server names just one primary of the cluster, it is this pod. The condition is not
  -- True at first where the lag is checked, only a repository is named and the main site is not
  -- known; the condition helpers behave as documented.
  pub reconcile_standby_lag-Agrees :
      ConditionLaw c
      → PresentLaw c env pod
      → (cr cr' : PerconaPgCluster) (s s' : St W Write) → IsFollowable cr
      → IsPrimary c env pod cr
      → Agrees c env pod s.log cr
      → reconcile_standby_lag c env cr s ≡ (ok (cr', none), s')
      → Agrees c env pod s'.log cr'
  unfolding reconcile_standby_lag on_option
  reconcile_standby_lag-Agrees law present cr cr' s s' followable primary file e =
      checked (checked_standby env cr) refl e
    where
      checked :
          (o : Option (StandbySpec × String))
          → checked_standby env cr ≡ o
          → on_option o
              (pure (cr, none))
              (λ (spec, quantity).
                check_standby c env spec quantity (with_standby (standby_status cr) cr))
              s
            ≡ (ok (cr', none), s')
          → Agrees c env pod s'.log cr'
      checked none h e = pure_lem law present cr cr' s s' e file
      checked (some (spec, quantity)) h e =
          check_standby_lem law present spec quantity (with_standby (standby_status cr) cr) cr' s s'
            (followable spec quantity h) primary e file
