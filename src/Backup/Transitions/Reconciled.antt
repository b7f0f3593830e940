-- ===== src/Backup/Transitions/Reconciled.antt =====
-- A reconciliation of a backup follows the diagram of its states.
use percona_postgresql_opera.Prelude.{
  ℕ, ◌≡◌, refl, ◌≢◌, Bool, true, false, ◌⊎◌, inl, inr, ◌==◌, eq_iff, Option, none, some, arith,
  subst, ap, sym, ◌∙◌, deref, ◌||◌,
}
use percona_postgresql_opera.Exec.{Exec}
use percona_postgresql_opera.Exec.Writes.{Sends, Sends-if, Sends-pure, sends_rules}
use percona_postgresql_opera.Types.Cluster.{PerconaPgCluster}
use percona_postgresql_opera.Types.Backup.{
  BackupMethod, method_pgbackrest, method_volume_snapshot, PgBackupState, backup_new,
  backup_starting, backup_running, backup_failed, backup_succeeded, PerconaPgBackup, is_terminal,
}
use percona_postgresql_opera.Types.Write.{Write}
use percona_postgresql_opera.Client.{Client}
use percona_postgresql_opera.Client.Laws.{RetryLaw, UpsertLaw, Sends-perform}
use percona_postgresql_opera.Backup.Status.{finalized, ensure_finalizers}
use percona_postgresql_opera.Backup.Repo.{repo_name_of}
use percona_postgresql_opera.Backup.Reconcile.{
  is_in_progress, is_failed, is_orphaned, settled, usable, dispatch, continue_with,
  reconcile_pgbackrest, proceed, fail_orphaned, with_lease, find_cluster, reconcile_backup,
  finalize, ensured, reject_no_repo,
}
use percona_postgresql_opera.Backup.Transitions.Graph.{
  Step, abort, fail, unended-Step, Follows, KeepsState, Sends-Follows,
}
use percona_postgresql_opera.Backup.Transitions.Kept.{run_finalizers-Kept}
use percona_postgresql_opera.Backup.Transitions.Locked.{handle_lease-Kept}
use percona_postgresql_opera.Backup.Transitions.States.{
  fail_backup-Follows, reconcile_new-Follows, reconcile_starting-Follows, reconcile_running-Follows,
  reconcile_succeeded-Follows,
}

-- It names a repository, or it has not ended.
abbrev pub MayContinue : PerconaPgBackup → Type 0
MayContinue pb = (repo_name_of pb ≢ "") ⊎ (is_terminal pb.status.state ≡ false)

rejected :
    (pb : PerconaPgBackup)
    → MayContinue pb
    → (repo_name_of pb == "") ≡ true
    → is_terminal pb.status.state ≡ false
rejected pb (inl named) h = absurd (named ((eq_iff _ _).0 h))
rejected pb (inr unended) h = unended

MayContinue-fields :
    (b b' : PerconaPgBackup)
    → b.status ≡ b'.status
    → b.spec ≡ b'.spec
    → MayContinue b
    → MayContinue b'
MayContinue-fields b b' st sp (inl named) = inl (λ e. named (ap (λ x. deref x.repo_name "") sp ∙ e))
MayContinue-fields b b' st sp (inr unended) = inr (sym (ap (λ x. is_terminal x.state) st) ∙ unended)

module _ {W : Type 0} (c : Client W) (law : RetryLaw c)
    (snapshots : PerconaPgBackup → PerconaPgCluster → Exec W Write ℕ) where
  dispatch-Follows :
      (s : PgBackupState) (pg : Option PerconaPgCluster) (pb : PerconaPgBackup)
      → Sends (Follows s) (dispatch c snapshots s pg pb)
  unfolding dispatch
  dispatch-Follows backup_new pg pb = reconcile_new-Follows c law pg pb
  dispatch-Follows backup_starting pg pb = reconcile_starting-Follows c law pg pb
  dispatch-Follows backup_running pg pb = reconcile_running-Follows c law pg pb
  dispatch-Follows backup_succeeded pg pb = reconcile_succeeded-Follows c law pg pb
  dispatch-Follows backup_failed pg pb = Sends-pure 0

  reject_no_repo-Follows :
      (pb : PerconaPgBackup)
      → is_terminal pb.status.state ≡ false
      → Sends (Follows pb.status.state) (reject_no_repo c snapshots pb)
  unfolding reject_no_repo
  reject_no_repo-Follows pb unended = search (sends_rules, fail_backup-Follows c law, unended-Step)

  continue_with-Follows :
      (pg : Option PerconaPgCluster) (pb : PerconaPgBackup)
      → MayContinue pb
      → Sends (Follows pb.status.state) (continue_with c snapshots pg pb)
  unfolding continue_with
  continue_with-Follows pg pb may =
      Sends-if (repo_name_of pb == "") _ _ (λ h. reject_no_repo-Follows pb (rejected pb may h))
        (λ _. dispatch-Follows pb.status.state pg pb)

  ensured_fields :
      (pb : PerconaPgBackup)
      → ((ensured c snapshots pb).status ≡ pb.status) × ((ensured c snapshots pb).spec ≡ pb.spec)
  unfolding ensured finalized
  ensured_fields pb = ground arith

  ensured-Follows :
      (pg : Option PerconaPgCluster) (pb : PerconaPgBackup)
      → MayContinue pb
      → Sends (Follows pb.status.state) (continue_with c snapshots pg (ensured c snapshots pb))
  ensured-Follows pg pb may =
      let (st, sp) = ensured_fields pb in
      subst (λ x. Sends (Follows x.state) (continue_with c snapshots pg (ensured c snapshots pb)))
        st
        (continue_with-Follows pg (ensured c snapshots pb)
          (MayContinue-fields pb (ensured c snapshots pb) (sym st) (sym sp) may))

  ensure_finalizers-Kept : (pb : PerconaPgBackup) → Sends KeepsState (ensure_finalizers c pb)
  unfolding ensure_finalizers
  ensure_finalizers-Kept pb = search (sends_rules, Sends-perform c)

  finalize-Kept : (pb : PerconaPgBackup) → Sends KeepsState (finalize c snapshots pb)
  unfolding finalize
  finalize-Kept pb = search (sends_rules, run_finalizers-Kept c law)

  reconcile_pgbackrest-Follows :
      (pg : Option PerconaPgCluster) (pb : PerconaPgBackup)
      → MayContinue pb
      → Sends (Follows pb.status.state) (reconcile_pgbackrest c snapshots pg pb)
  unfolding reconcile_pgbackrest
  reconcile_pgbackrest-Follows pg pb named =
      search (sends_rules, Sends-Follows, finalize-Kept, ensure_finalizers-Kept, ensured-Follows)
        depth 10

  -- A failed backup whose cluster cannot be used is only finalized.
  reconcile_pgbackrest-Kept :
      (pg : Option PerconaPgCluster) (pb : PerconaPgBackup)
      → pb.status.state ≡ backup_failed
      → Sends KeepsState (reconcile_pgbackrest c snapshots pg pb)
  unfolding reconcile_pgbackrest
  reconcile_pgbackrest-Kept pg pb failed =
      Sends-if (pb.meta.is_deleting || is_failed pb.status.state) _ _ (λ _. finalize-Kept pb)
        (λ h. absurd (ground arith))

  proceed-Kept :
      (m : BackupMethod) (pb : PerconaPgBackup)
      → pb.status.state ≡ backup_failed
      → Sends KeepsState (proceed c snapshots m none pb)
  unfolding proceed
  proceed-Kept method_volume_snapshot pb failed = reconcile_pgbackrest-Kept none pb failed
  proceed-Kept method_pgbackrest pb failed = reconcile_pgbackrest-Kept none pb failed

  module _ (upsert : UpsertLaw c) (pb : PerconaPgBackup)
      (snapshots-Follows : (pg : PerconaPgCluster)
        → Sends (Follows pb.status.state) (snapshots pb pg)) where
    proceed-Follows :
        (m : BackupMethod) (pg : Option PerconaPgCluster)
        → MayContinue pb
        → Sends (Follows pb.status.state) (proceed c snapshots m pg pb)
    unfolding proceed
    proceed-Follows method_volume_snapshot (some pg) named = snapshots-Follows pg
    proceed-Follows method_volume_snapshot none named = reconcile_pgbackrest-Follows none pb named
    proceed-Follows method_pgbackrest pg named = reconcile_pgbackrest-Follows pg pb named

    with_lease-Follows :
        (pg : Option PerconaPgCluster)
        → MayContinue pb
        → Sends (Follows pb.status.state) (with_lease c snapshots pg pb)
    unfolding with_lease
    with_lease-Follows pg named =
        search (sends_rules, Sends-Follows, handle_lease-Kept c law upsert, proceed-Follows)

    with_lease-Kept :
        (b : PerconaPgBackup)
        → b.status.state ≡ backup_failed
        → Sends KeepsState (with_lease c snapshots none b)
    unfolding with_lease
    with_lease-Kept b failed = search (sends_rules, handle_lease-Kept c law upsert, proceed-Kept)

    in_progress-Step : (s : PgBackupState) → is_in_progress s ≡ true → Step s backup_failed
    in_progress-Step backup_starting h = abort
    in_progress-Step backup_running h = fail
    in_progress-Step backup_new h = cc
    in_progress-Step backup_failed h = cc
    in_progress-Step backup_succeeded h = cc

    fail_orphaned-Follows :
        (pg : Option PerconaPgCluster)
        → Sends (Follows pb.status.state) (fail_orphaned c snapshots pg pb)
    unfolding fail_orphaned
    fail_orphaned-Follows pg =
        Sends-if (is_orphaned pg pb) _ _
          (λ h. fail_backup-Follows c law _ pb _ (in_progress-Step _ (ground arith)))
          (λ _. Sends-pure tt)

    settled-Follows :
        (pg : Option PerconaPgCluster)
        → MayContinue pb
        → Sends (Follows pb.status.state) (with_lease c snapshots (usable pg) (settled pg pb))
    settled-Follows pg named = split (usable pg) refl (is_in_progress pb.status.state) refl
      where
        split :
            (u : Option PerconaPgCluster)
            → usable pg ≡ u
            → (b : Bool) → is_in_progress pb.status.state ≡ b
            → Sends (Follows pb.status.state) (with_lease c snapshots (usable pg) (settled pg pb))
        split (some g) e b h = rw e (with_lease-Follows (some g) named)
        split none e true h = rw (e, h) (Sends-Follows _ _ (with_lease-Kept _ refl))
        split none e false h = rw (e, h) (with_lease-Follows none named)

    -- Whatever a reconciliation of a backup that names a repository or has not ended does, a status
    -- write of a backup keeps the state as read or takes one step of the diagram from the state
    -- that the reconciliation found; so it never moves a backup that has ended. It is assumed that
    -- RetryOnConflict and CreateOrUpdate behave as documented and that the snapshot reconciler
    -- follows the diagram for this backup too.
    pub reconcile_backup-Follows :
        MayContinue pb → Sends (Follows pb.status.state) (reconcile_backup c snapshots pb)
    unfolding reconcile_backup find_cluster
    reconcile_backup-Follows named =
        search (sends_rules, fail_orphaned-Follows, settled-Follows) depth 10
