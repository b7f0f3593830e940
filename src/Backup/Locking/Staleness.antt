-- ===== src/Backup/Locking/Staleness.antt =====
-- When the holder of a cluster's backup lease counts as stale.
use percona_postgresql_opera.Prelude.{
  ◌≡◌, ◌≢◌, ◌⊎◌, ◌↔◌, refl, inl, inr, String, Bool, true, false, not, ◌==◌, if◌then◌else◌,
  Bool-cases, arith, eq_iff,
}
use percona_postgresql_opera.Exec.{
  api, not_found, Result, ok, err, St, pure, raise, read, attempt, ◌>>=◌, case_of, is_not_found,
}
use percona_postgresql_opera.Types.Meta.{ObjectMeta, finalizer_snapshot_in_progress}
use percona_postgresql_opera.Types.Backup.{
  PerconaPgBackup, PgBackupState, backup_succeeded, backup_failed, is_terminal,
}
use percona_postgresql_opera.Types.Write.{Write}
use percona_postgresql_opera.Client.{Client}
use percona_postgresql_opera.Backup.Holder.{backup_lease_holder, parse_backup_lease_holder}
use percona_postgresql_opera.Backup.Holder.RoundTrip.{
  has_bar, parse_backup_lease_holder-backup_lease_holder,
}
use percona_postgresql_opera.Backup.Locking.{has_ended, check_stale}

module _ {W : Type 0} (c : Client W) where
  -- The backup has succeeded or failed, and its snapshot is not in progress.
  abbrev pub HasEnded : PerconaPgBackup → Type 0
  HasEnded b =
      ((b.status.state ≡ backup_succeeded) ⊎ (b.status.state ≡ backup_failed))
      × (c.contains_finalizer b.meta.finalizers finalizer_snapshot_in_progress ≡ false)

  -- The server has no such backup, or another one of that name, or one that has ended.
  abbrev pub IsGone : ObjectMeta → Result PerconaPgBackup → Type 0
  IsGone m (ok b) = ((b.meta.uid == m.uid) ≡ false) ⊎ HasEnded b
  IsGone m (err e) = e ≡ api not_found

  terminal_cases :
      (x : PgBackupState) → is_terminal x ≡ true ↔ ((x ≡ backup_succeeded) ⊎ (x ≡ backup_failed))
  terminal_cases backup_succeeded = (λ h. inl refl, λ h. refl)
  terminal_cases backup_failed = (λ h. inr refl, λ h. refl)
  terminal_cases x = (λ h. absurd (cc h), λ h. ground (arith, h))

  has_ended-HasEnded : (b : PerconaPgBackup) → has_ended c b ≡ true ↔ HasEnded b
  unfolding has_ended
  has_ended-HasEnded b = (
    λ h. ((terminal_cases b.status.state).0 (ground (arith, h)), ground (arith, h)),
    λ (over, free). ground (arith, (terminal_cases b.status.state).1 over, free),
  )

  stale_of : PerconaPgBackup → String → Bool
  stale_of b uid = if not (b.meta.uid == uid) then true else has_ended c b

  answer : String → Result PerconaPgBackup → Result Bool
  answer uid (ok b) = ok (stale_of b uid)
  answer uid (err e) = if is_not_found e then ok true else err e

  answered :
      (uid : String) (r : Result PerconaPgBackup) (s : St W Write)
      → (case_of r
          (λ b. pure (stale_of b uid))
          (λ e. if is_not_found e then pure true else raise e)
          s).0
        ≡ answer uid r
  unfolding answer case_of pure raise
  answered uid (ok b) s = refl
  answered uid (err (api not_found)) s = refl
  answered uid (err e) s = ground arith

  check_parsed :
      (m : ObjectMeta) (s : St W Write)
      → (m.name == "") ≡ false
      → (m.uid == "") ≡ false
      → parse_backup_lease_holder (backup_lease_holder m) ≡ (m.name, m.uid)
      → (check_stale c (backup_lease_holder m) s).0 ≡ answer m.uid (c.get_backup m.name s.world).0
  unfolding check_stale stale_of ◌>>=◌ attempt read
  check_parsed m s n u e = rw e (rw (n, u) (answered m.uid (c.get_backup m.name s.world).0 _))

  answer-IsGone :
      (m : ObjectMeta) (r : Result PerconaPgBackup) → answer m.uid r ≡ ok true ↔ IsGone m r
  unfolding answer stale_of
  answer-IsGone m (ok b) = (λ h. by_test (Bool-cases (b.meta.uid == m.uid)) h, λ h. back h)
    where
      by_test :
          ((b.meta.uid == m.uid) ≡ true ⊎ (b.meta.uid == m.uid) ≡ false)
          → ok (if not (b.meta.uid == m.uid) then true else has_ended c b) ≡ ok true
          → IsGone m (ok b)
      by_test (inl same) h = inr ((has_ended-HasEnded b).0 (ground arith))
      by_test (inr differs) h = inl differs

      back :
          IsGone m (ok b) → ok (if not (b.meta.uid == m.uid) then true else has_ended c b) ≡ ok true
      back (inl differs) = ground arith
      back (inr over) = ground (arith, (has_ended-HasEnded b).1 over)
  answer-IsGone m (err (api not_found)) = (λ h. refl, λ h. refl)
  answer-IsGone m (err e) = (λ h. ground arith, λ h. ground arith)

  -- The lease of a cluster's backup, whose holder names a backup and its uid with no bar in them, is
  -- stale exactly if the server says that there is no such backup, or has another backup of that
  -- name, or the backup has succeeded or failed and lacks the
  -- finalizer of a snapshot in progress. If the server cannot answer, the
  -- holder is not stale.
  pub check_stale-IsGone :
      (m : ObjectMeta) (s : St W Write)
      → m.name ≢ ""
      → m.uid ≢ ""
      → has_bar m.name ≡ false
      → has_bar m.uid ≡ false
      → (check_stale c (backup_lease_holder m) s).0 ≡ ok true
        ↔ IsGone m (c.get_backup m.name s.world).0
  check_stale-IsGone m s n u bn bu =
      rw
        (check_parsed m s (differs m.name n) (differs m.uid u)
          (parse_backup_lease_holder-backup_lease_holder m bn bu))
        (answer-IsGone m (c.get_backup m.name s.world).0)
    where
      differs : (t : String) → t ≢ "" → (t == "") ≡ false
      differs t d = elim (Bool-cases (t == "")) [
        | inl e ↦ absurd (d ((eq_iff t "").0 e))
        | inr e ↦ e
      ]
