-- ===== src/Backup/Finish/Completed.antt =====
-- What has been sent when finishing a backup asks to come back.
use percona_postgresql_opera.Prelude.{
  ℕ, ◌≡◌, subst, ◌⊎◌, inl, inr, String, true, not, if◌then◌else◌, List, Option, none, some, lookup,
  lookup-delete, Any, arith, ◌==◌,
}
use percona_postgresql_opera.Exec.{Result, ok, Exec, St, pure, ◌>>=◌, ◌>>◌, on_option}
use percona_postgresql_opera.Exec.Writes.{Sends, Adds, Adds-trans, sends_rules}
use percona_postgresql_opera.Exec.Inversion.{bind_ok, if_cases, pure_ok}
use percona_postgresql_opera.Types.Meta.{Job, pgbackrest_backup, annotation_backup_in_progress}
use percona_postgresql_opera.Types.Cluster.{PerconaPgCluster}
use percona_postgresql_opera.Types.Backup.{PerconaPgBackup}
use percona_postgresql_opera.Types.Write.{Write}
use percona_postgresql_opera.Client.{Client}
use percona_postgresql_opera.Client.Laws.{RetryLaw, Sends-perform, Sends-retry}
use percona_postgresql_opera.Backup.Finish.{
  without_annotation, delete_annotation, unlabel_job, clear_manual_backup, release_cluster,
  finish_backup, get_backup_in_progress, is_not_manual,
}
use percona_postgresql_opera.Backup.Finish.Clearing.{
  Clears, manual_backup_cleared, without_labels-Unlabelled, delete_annotation-Clears,
  without_progress_annotation-Cleared,
}
use percona_postgresql_opera.Backup.Finish.Sent.{
  Removes, ClearsManual, Any-later, Unlabels, CrunchyHas, Gone, Released, unlabel_job_ok,
  clear_manual_backup_ok, delete_annotation_ok,
}

module _ {W : Type 0} (c : Client W) (law : RetryLaw c) where
  Gone-later :
      {P : Write → Type 0} (annotation name : String) {l k : List Write}
      → Adds P l k
      → Gone c law annotation name l
      → Gone c law annotation name k
  Gone-later annotation name a (inl x) = inl x
  Gone-later annotation name a (inr (inl x)) = inr (inl x)
  Gone-later annotation name a (inr (inr x)) = inr (inr (Any-later (Removes annotation) a x))

  -- What is done when finishing asks to come back.
  pub record Completed (pb : PerconaPgBackup) (job : Option Job) (log : List Write) : Type 0 where
    pub request_gone : Gone c law pgbackrest_backup pb.spec.pg_cluster log
    pub released :
        CrunchyHas c law true pgbackrest_backup pb.spec.pg_cluster ⊎ Released c law pb job log

  optional_unlabel_ok :
      (job : Option Job) (s s' : St W Write) (u : Unit {0})
      → on_option job (pure tt) (unlabel_job c) s ≡ (ok u, s')
      → (j : Job) → job ≡ some j
      → Any (Unlabels c law j.meta.name) s'.log
  unfolding on_option
  optional_unlabel_ok none s s' u e j h = absurd (cc h)
  optional_unlabel_ok (some i) s s' u e j h =
      subst (λ o. Any (Unlabels c law (named o)) s'.log) h (unlabel_job_ok c law i s s' u e)
    where
      named : Option Job → String
      named none = ""
      named (some k) = k.meta.name

  adds :
      {A : Type 0} {P : Write → Type 0} {m : Exec W Write A} {s s' : St W Write} {r : Result A}
      → Sends P m
      → m s ≡ (r, s')
      → Adds P s.log s'.log
  adds {P = P} {s = s} k e = subst (λ p. Adds P s.log p.1.log) e (k.at s)

  progress_removed :
      (pg : PerconaPgCluster)
      → lookup
          (without_annotation annotation_backup_in_progress pg).meta.annotations
          annotation_backup_in_progress
        ≡ none
  progress_removed pg = simp lookup-delete

  request_removed :
      (pg : PerconaPgCluster)
      → lookup (without_annotation pgbackrest_backup pg).meta.annotations pgbackrest_backup ≡ none
  request_removed pg = simp lookup-delete

  clear_manual_backup-Clears : (name : String) → Sends Clears (clear_manual_backup c name)
  unfolding clear_manual_backup
  clear_manual_backup-Clears name =
      search (sends_rules, Sends-perform c, Sends-retry c _ law, manual_backup_cleared) depth 12

  optional_unlabel-Clears :
      (job : Option Job) → Sends Clears (on_option job (pure tt) (unlabel_job c))
  unfolding unlabel_job
  optional_unlabel-Clears job =
      search (sends_rules, Sends-perform c, Sends-retry c _ law, without_labels-Unlabelled) depth 12

  abbrev released_body : PerconaPgBackup → Option Job → Exec W Write (Option ℕ)
  released_body pb job = do
    on_option job (pure tt) (unlabel_job c)
    clear_manual_backup c pb.spec.pg_cluster
    delete_annotation c annotation_backup_in_progress pb.spec.pg_cluster
    pure (some 5)

  abbrev manual_body : PerconaPgBackup → Option Job → Exec W Write (Option ℕ)
  manual_body pb job = do
    running ← get_backup_in_progress c pb.spec.pg_cluster
    if not (running == pb.meta.name) then pure none else release_cluster c pb job

  -- The rest of `release`, once the request is gone from crunchy's cluster.
  release_rest :
      (pb : PerconaPgBackup) (job : Option Job) (s s' : St W Write) (n : Option ℕ)
      → released_body pb job s ≡ (ok n, s')
      → Released c law pb job s'.log × Adds Clears s.log s'.log
  release_rest pb job s s' n e =
      let name = pb.spec.pg_cluster in
      let (u, s₁, unlabel, r₁) = bind_ok _ _ s s' n e in
      let (v, s₂, clear, r₂) = bind_ok _ _ s₁ s' n r₁ in
      let (b, s₃, delete, r₃) = bind_ok _ _ s₂ s' n r₂ in
      let (same, at) = pure_ok _ _ s₃ s' r₃ in
      let (gone, waits) =
        delete_annotation_ok c law annotation_backup_in_progress name s₂ s₃ b progress_removed
          delete in
      let cleared = adds (clear_manual_backup-Clears name) clear in
      let deleted =
        adds
          (delete_annotation-Clears c law annotation_backup_in_progress name
            without_progress_annotation-Cleared)
          delete in
      let later = Adds-trans cleared deleted in
      subst (λ t. Released c law pb job t.log × Adds Clears s.log t.log) at
        (
          record {
            unlabelled = λ j h.
                Any-later (Unlabels c law j.meta.name) later
                  (optional_unlabel_ok job s s₁ u unlabel j h);
            cleared =
                Any-later ClearsManual deleted (clear_manual_backup_ok c law name s₁ s₂ v clear);
            gone = gone;
          },
          Adds-trans (adds (optional_unlabel-Clears job) unlabel) later,
        )

  -- If `release` comes back, the request is gone, and unless crunchy's cluster still showed it, all
  -- else is done.
  release_cluster_ok :
      (pb : PerconaPgBackup) (job : Option Job) (s s' : St W Write) (n : Option ℕ)
      → release_cluster c pb job s ≡ (ok n, s')
      → Completed pb job s'.log
  unfolding release_cluster
  release_cluster_ok pb job s s' n e =
      let name = pb.spec.pg_cluster in
      let (deleted, s₁, delete, rest) = bind_ok _ _ s s' n e in
      let (gone, waits) =
        delete_annotation_ok c law pgbackrest_backup name s s₁ deleted request_removed delete in
      elim (if_cases (not deleted) (pure (some 5)) (released_body pb job) s₁ (ok n, s') rest) [
        | inl (early, done) ↦
            let (same, at) = pure_ok _ _ s₁ s' done in
            subst (λ t. Completed pb job t.log) at
              (record { request_gone = gone; released = inl (waits (ground (arith, early))) })
        | inr (late, done) ↦
            let (released, more) = release_rest pb job s₁ s' n done in
            record {
              request_gone = Gone-later pgbackrest_backup name more gone;
              released = inr released;
            }
      ]

  -- If finishing a backup asks to come back, then the annotation that requests the backup is gone,
  -- and unless crunchy's cluster still had that annotation, the labels are off the backup's job (if
  -- there is one), the manual backup is cleared from crunchy's status and the annotation of the
  -- backup in progress is gone. An annotation is gone if it has been taken off the cluster, or the
  -- server has answered that crunchy's cluster or the cluster lacks it. The retry behaves as
  -- documented.
  pub finish_backup-Completed :
      (pb : PerconaPgBackup) (job : Option Job) (s s' : St W Write) (seconds : ℕ)
      → finish_backup c pb job s ≡ (ok (some seconds), s')
      → Completed pb job s'.log
  unfolding finish_backup
  finish_backup-Completed pb job s s' seconds e =
      let (u, s₁, info, rest) = bind_ok _ _ s s' (some seconds) e in
      elim (if_cases (is_not_manual job) (pure none) (manual_body pb job) s₁ (ok (some seconds), s')
        rest) [
          | inl (other, done) ↦ absurd (cc ((pure_ok _ _ s₁ s' done).0))
          | inr (own, found) ↦
              let (running, s₂, got, rest₂) = bind_ok _ _ s₁ s' (some seconds) found in
              elim (if_cases (not (running == pb.meta.name)) (pure none) (release_cluster c pb job)
                s₂ (ok (some seconds), s') rest₂) [
                  | inl (differs, done) ↦ absurd (cc ((pure_ok _ _ s₂ s' done).0))
                  | inr (same, released) ↦ release_cluster_ok pb job s₂ s' (some seconds) released
                ]
        ]
