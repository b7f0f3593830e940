-- ===== src/Backup/Snapshot/Suspended.antt =====
-- The target of a snapshot is down once the executor has prepared it, and serves again once the
-- executor has finished.
use percona_postgresql_opera.Prelude.{◌≡◌, String, subst}
use percona_postgresql_opera.Exec.{ok, St}
use percona_postgresql_opera.Exec.Inversion.{bind_ok, pure_ok}
use percona_postgresql_opera.Types.Cluster.{VolumeSnapshots, PerconaPgCluster}
use percona_postgresql_opera.Types.Backup.{PerconaPgBackup}
use percona_postgresql_opera.Types.Write.{Write}
use percona_postgresql_opera.Client.{Client}
use percona_postgresql_opera.Client.Laws.{PollLaw}
use percona_postgresql_opera.Instance.Suspension.{
  IsDown, IsServing, Answers, suspended_wait, resumed_wait,
}
use percona_postgresql_opera.Backup.Snapshot.Offline.{
  get_backup_target, offline_prepare, offline_finalize, suspend_and_wait, resume_and_wait,
}

module _ {W : Type 0} (c : Client W) (law : PollLaw c) (pg : PerconaPgCluster)
    (pb : PerconaPgBackup) (s s' : St W Write) where
  -- If the offline executor returns a target from its preparation, the last thing that it has seen
  -- is that target's stateful set, marked as suspended and with neither replicas nor ready ones;
  -- PollUntilContextTimeout is assumed to behave as documented.
  pub offline_prepare-IsDown :
      (v : VolumeSnapshots) (target : String)
      → offline_prepare c v pg pb s ≡ (ok target, s')
      → Answers c target IsDown s'.world
  unfolding offline_prepare suspend_and_wait
  offline_prepare-IsDown v target e =
      let (t, s₁, _, e₁) = bind_ok _ _ s s' target e in
      let (_, s₂, _, e₂) = bind_ok _ _ s₁ s' target e₁ in
      let (_, s₃, waited, e₃) = bind_ok _ _ s₂ s' target e₂ in
      let (same, end) = pure_ok t target s₃ s' e₃ in
      subst (λ n. Answers c n IsDown s'.world) same
        (subst (λ z. Answers c t IsDown z.world) end (suspended_wait c t law s₂ s₃ waited))

  -- If the offline executor finishes without an error, it has determined a target, and the last
  -- thing that it has seen is that target's stateful set, no longer marked and with a ready replica;
  -- PollUntilContextTimeout is assumed to behave as documented.
  pub offline_finalize-IsServing :
      offline_finalize c pg pb s ≡ (ok tt, s')
      → (target : String) × (s₁ : St W Write) × (get_backup_target c pg pb s ≡ (ok target, s₁))
        × Answers c target IsServing s'.world
  unfolding offline_finalize resume_and_wait
  offline_finalize-IsServing e =
      let (t, s₁, found, waited) = bind_ok _ _ s s' tt e in
      (t, s₁, found, resumed_wait c t law s₁ s' waited)
