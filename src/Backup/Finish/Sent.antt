-- ===== src/Backup/Finish/Sent.antt =====
-- What the steps of finishing a backup have sent when they return no error.
use percona_postgresql_opera.Prelude.{
  ◌≡◌, refl, sym, ap, subst, ◌⊎◌, inl, inr, String, Bool, true, false, List, [], ◌∷◌, ◌++◌, Option,
  none, some, is_some, lookup, Any,
}
use percona_postgresql_opera.Exec.{ok, St, pure, raise, ◌>>◌, on_option, nil_dereference}
use percona_postgresql_opera.Exec.Writes.{Adds}
use percona_postgresql_opera.Exec.Inversion.{bind_ok, if_cases, read_ok, pure_ok, ok_clash}
use percona_postgresql_opera.Types.Meta.{Job, annotation_backup_in_progress}
use percona_postgresql_opera.Types.Cluster.{PgBackRestStatus, PerconaPgCluster, PostgresCluster}
use percona_postgresql_opera.Types.Backup.{PerconaPgBackup}
use percona_postgresql_opera.Types.Write.{Write, update_cluster, update_crunchy_status, update_job}
use percona_postgresql_opera.Client.{Client, perform}
use percona_postgresql_opera.Client.Laws.{RetryLaw}
use percona_postgresql_opera.Backup.Annotation.{to_crunchy_annotation}
use percona_postgresql_opera.Backup.Status.Written.{retry_ok, perform_ok}
use percona_postgresql_opera.Backup.Finish.{
  without_annotation, without_manual_backup, drop_annotation, delete_annotation, unlabel_job,
  clear_manual_backup,
}
use percona_postgresql_opera.Backup.Finish.Clearing.{Unlabelled, without_labels-Unlabelled}

-- A write that takes the annotation off the cluster.
abbrev pub Removes : String → Write → Type 0
Removes annotation (update_cluster old new) = lookup new.meta.annotations annotation ≡ none
Removes annotation _ = ⊥

-- A write that clears the manual backup of crunchy's status.
abbrev pub ClearsManual : Write → Type 0
ClearsManual (update_crunchy_status old new) =
    (st : PgBackRestStatus) × (new.status.pgbackrest ≡ some st) × (st.manual_backup ≡ none)
ClearsManual _ = ⊥

pub Any-later :
    {P : Write → Type 0} (Q : Write → Type 0) {l k : List Write} → Adds P l k → Any Q l → Any Q k
Any-later {P} Q {l} a found = subst (Any Q) (sym a.grown) (behind a.added)
  where
    behind : (xs : List Write) → Any Q (xs ++ l)
    behind [] = found
    behind (x ∷ xs) = inr (behind xs)

module _ {W : Type 0} (c : Client W) (law : RetryLaw c) where
  -- A write that takes the labels off the job that the server has answered for the name.
  abbrev pub Unlabels : String → Write → Type 0
  Unlabels name (update_job old new) =
      ((w w' : W) × (c.get_job name w ≡ (ok old, w'))) × Unlabelled old new
  Unlabels name _ = ⊥

  -- The server has answered that crunchy's cluster has the annotation, or that it lacks it.
  abbrev pub CrunchyHas : Bool → String → String → Type 0
  CrunchyHas b annotation name =
      (w w' : W) × (p : PostgresCluster) × (c.get_crunchy name w ≡ (ok p, w'))
      × (is_some (lookup p.meta.annotations (to_crunchy_annotation annotation)) ≡ b)

  -- The annotation is not on crunchy's cluster or not on the cluster, as the server has answered, or
  -- has been taken off the cluster.
  abbrev pub Gone : String → String → List Write → Type 0
  Gone annotation name log =
      CrunchyHas false annotation name
      ⊎ ((w w' : W) × (pg : PerconaPgCluster) × (c.get_cluster name w ≡ (ok pg, w'))
          × (lookup pg.meta.annotations annotation ≡ none))
      ⊎ Any (Removes annotation) log

  -- The labels are off the job, the manual backup is cleared and the other annotation is gone.
  pub record Released (pb : PerconaPgBackup) (job : Option Job) (log : List Write) : Type 0 where
    pub unlabelled : (j : Job) → job ≡ some j → Any (Unlabels j.meta.name) log
    pub cleared : Any ClearsManual log
    pub gone : Gone annotation_backup_in_progress pb.spec.pg_cluster log

  pub unlabel_job_ok :
      (job : Job) (s s' : St W Write) (u : Unit {0})
      → unlabel_job c job s ≡ (ok u, s')
      → Any (Unlabels job.meta.name) s'.log
  unfolding unlabel_job
  unlabel_job_ok job s s' u e =
      let (s₁, ran) = retry_ok c law _ s s' e in
      let (j, s₂, got, sent) = bind_ok _ _ s₁ s' tt ran in
      subst (Any (Unlabels job.meta.name)) (sym (perform_ok c law _ s₂ s' sent))
        (inl ((s₁.world, s₂.world, read_ok _ s₁ s₂ j got), without_labels-Unlabelled j))

  pub clear_manual_backup_ok :
      (name : String) (s s' : St W Write) (u : Unit {0})
      → clear_manual_backup c name s ≡ (ok u, s')
      → Any ClearsManual s'.log
  unfolding clear_manual_backup on_option raise
  clear_manual_backup_ok name s s' u e =
      let (s₁, ran) = retry_ok c law _ s s' e in
      let (p, s₂, got, sent) = bind_ok _ _ s₁ s' tt ran in by_status p p.status.pgbackrest s₂ sent
    where
      by_status :
          (p : PostgresCluster) (o : Option PgBackRestStatus) (s₂ : St W Write)
          → on_option o
              (raise nil_dereference)
              (λ st. perform c (update_crunchy_status p (without_manual_backup p st)))
              s₂
            ≡ (ok tt, s')
          → Any ClearsManual s'.log
      by_status p none s₂ h = absurd (ok_clash (ap (λ r. r.0) h))
      by_status p (some st) s₂ h =
          subst (Any ClearsManual) (sym (perform_ok c law _ s₂ s' h))
            (inl (record st { manual_backup = none }, refl, refl))

  absent : (o : Option String) → is_some o ≡ false → o ≡ none
  absent none h = refl
  absent (some x) h = absurd (cc h)

  drop_annotation_ok :
      (annotation name : String) (s s' : St W Write) (u : Unit {0})
      → ((pg : PerconaPgCluster)
          → lookup (without_annotation annotation pg).meta.annotations annotation ≡ none)
      → drop_annotation c annotation name s ≡ (ok u, s')
      → Gone annotation name s'.log
  unfolding drop_annotation
  drop_annotation_ok annotation name s s' u removed e =
      let (s₁, ran) = retry_ok c law _ s s' e in
      let (pg, s₂, got, rest) = bind_ok _ _ s₁ s' tt ran in
      elim (if_cases (is_some (lookup pg.meta.annotations annotation))
        (perform c (update_cluster pg (without_annotation annotation pg))) (pure tt) s₂ (ok tt, s')
        rest) [
          | inl (has, sent) ↦ inr (
              inr (
                subst (Any (Removes annotation)) (sym (perform_ok c law _ s₂ s' sent))
                  (inl (removed pg))))
          | inr (lacks, done) ↦
              inr (inl (s₁.world, s₂.world, pg, read_ok _ s₁ s₂ pg got, absent _ lacks))
        ]

  -- What `deleteAnnotation` returns and has done.
  pub delete_annotation_ok :
      (annotation name : String) (s s' : St W Write) (b : Bool)
      → ((pg : PerconaPgCluster)
          → lookup (without_annotation annotation pg).meta.annotations annotation ≡ none)
      → delete_annotation c annotation name s ≡ (ok b, s')
      → Gone annotation name s'.log × (b ≡ false → CrunchyHas true annotation name)
  unfolding delete_annotation
  delete_annotation_ok annotation name s s' b removed e =
      let (p, s₁, got, rest) = bind_ok _ _ s s' b e in
      let answered = read_ok _ s s₁ p got in
      elim (if_cases (is_some (lookup p.meta.annotations (to_crunchy_annotation annotation)))
        (drop_annotation c annotation name >> pure false) (pure true) s₁ (ok b, s') rest) [
          | inl (has, dropped) ↦
              let (u, s₂, drop, done) = bind_ok _ _ s₁ s' b dropped in
              let (same, at) = pure_ok _ _ s₂ s' done in
              (
                subst (λ t. Gone annotation name t.log) at
                    (drop_annotation_ok annotation name s₁ s₂ u removed drop),
                λ _. (s.world, s₁.world, p, answered, has),
              )
          | inr (lacks, done) ↦
              let (same, at) = pure_ok _ _ s₁ s' done in
              (inl (s.world, s₁.world, p, answered, lacks), λ no. absurd (cc (same, no)))
        ]
