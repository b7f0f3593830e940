-- ===== src/Backup/Status/Written.antt =====
-- An update of a backup's status that returned no error has been sent.
use percona_postgresql_opera.Prelude.{◌≡◌, subst, sym, ap, List, ◌∷◌}
use percona_postgresql_opera.Exec.{ok, St, Exec, read, pure, send, ◌>>=◌}
use percona_postgresql_opera.Exec.Retry.{Retried, last, again}
use percona_postgresql_opera.Exec.Inversion.{bind_ok, read_ok, pure_ok}
use percona_postgresql_opera.Types.Backup.{PgBackupStatus, PerconaPgBackup}
use percona_postgresql_opera.Types.Write.{Write, update_backup_status}
use percona_postgresql_opera.Client.{Client, perform}
use percona_postgresql_opera.Client.Laws.{RetryLaw}
use percona_postgresql_opera.Backup.Status.{with_status, update_status, update_status_with}

-- The last run of the body of a retry that ended well.
pub Retried-last :
    {W E : Type 0} {m : Exec W E (Unit {0})} {s s' : St W E} {u : Unit {0}}
    → Retried m s (ok u) s'
    → (s₁ : St W E) × (m s₁ ≡ (ok tt, s'))
Retried-last (last {s = s} e) = (s, e)
Retried-last (again e rest) = Retried-last rest

module _ {W : Type 0} (c : Client W) (retry : RetryLaw c) where
  pub retry_ok :
      (m : Exec W Write (Unit {0})) (s s' : St W Write)
      → c.retry_on_conflict m s ≡ (ok tt, s')
      → (s₁ : St W Write) × (m s₁ ≡ (ok tt, s'))
  retry_ok m s s' e = Retried-last (subst (λ p. Retried m s p.0 p.1) e (retry.runs m s))

  -- One run of the body of `UpdateStatus`.
  abbrev update_body : PerconaPgBackup → (PgBackupStatus → PgBackupStatus) → Exec W Write (Unit {0})
  update_body pb f = do
    bcp ← read (c.get_backup pb.meta.name)
    bcp' ← pure (with_status f bcp)
    perform c (update_backup_status bcp bcp')

  pub perform_ok :
      (e : Write) (s s' : St W Write) → perform c e s ≡ (ok tt, s') → s'.log ≡ e ∷ s.log
  unfolding perform send
  perform_ok e s s' h = sym (ap (λ p. p.1.log) h)

  -- If `UpdateStatus` returns no error, the last write is of a status, made by the given function of
  -- the backup of that name as the server had answered it. RetryOnConflict is assumed to behave as
  -- documented.
  pub update_status-Writes :
      (pb : PerconaPgBackup) (f : PgBackupStatus → PgBackupStatus) (s s' : St W Write)
      → update_status c pb f s ≡ (ok tt, s')
      → (old : PerconaPgBackup) × (before : List Write) × (w w' : W) × (c.get_backup pb.meta.name w
          ≡ (ok old, w'))
        × (s'.log ≡ update_backup_status old (with_status f old) ∷ before)
  unfolding update_status update_status_with
  update_status-Writes pb f s s' e =
      let (s₁, ran) = retry_ok (update_body pb f) s s' e in
      let (old, s₂, got, rest) = bind_ok _ _ s₁ s' tt ran in
      let (new, s₃, made, sent) = bind_ok _ _ s₂ s' tt rest in
      let (same, same_state) = pure_ok _ new s₂ s₃ made in
      (
        old,
        s₃.log,
        s₁.world,
        s₂.world,
        read_ok _ s₁ s₂ old got,
        subst (λ b. s'.log ≡ update_backup_status old b ∷ s₃.log) (sym same)
            (perform_ok _ s₃ s' sent),
      )
