-- ===== src/Backup/Latest/Choice.antt =====
-- Which backup `GetLatestBackup` chooses.
use percona_postgresql_opera.Prelude.{
  ℕ, Bool-cases, ◌≡◌, refl, ◌⊎◌, inl, inr, Bool, false, List, [], ◌∷◌, Option, none, some, All, Any,
}
use percona_postgresql_opera.Exec.{ok, St, pure}
use percona_postgresql_opera.Types.Backup.{
  BackupMethod, method_pgbackrest, method_volume_snapshot, PgBackupState, backup_new,
  backup_starting, backup_running, backup_failed, backup_succeeded, PerconaPgBackup, method_of,
}
use percona_postgresql_opera.Types.Write.{Write}
use percona_postgresql_opera.Backup.Latest.{
  Scan, latest_completed_at, is_later, completion_of, scan_method, scan_state, scan_one, scan,
  chosen, latest_of,
}
use percona_postgresql_opera.Backup.Latest.Bounds.{IsCandidate, IsTimed, Reaches, scan-All}

scan_state_latest :
    (b x : PerconaPgBackup) (s : Scan) (st : PgBackupState)
    → (scan_state st b s).latest ≡ some x
    → (s.latest ≡ some x) ⊎ ((b ≡ x) × (st ≡ backup_succeeded))
unfolding scan_state
scan_state_latest b x s backup_succeeded h =
    elim (Bool-cases (is_later (completion_of b) (latest_completed_at s.latest))) [
      | inl later ↦ let e : some b ≡ some x = rw later at h in inr (cc e, refl)
      | inr kept ↦ let e : s.latest ≡ some x = rw kept at h in inl e
    ]
scan_state_latest b x s backup_failed h = inl h
scan_state_latest b x s backup_new h = inl h
scan_state_latest b x s backup_starting h = inl h
scan_state_latest b x s backup_running h = inl h

scan_method_latest :
    (b x : PerconaPgBackup) (s : Scan) (m : BackupMethod)
    → (scan_method m b s).latest ≡ some x
    → (s.latest ≡ some x)
      ⊎ ((b ≡ x) × ((m ≡ method_pgbackrest) × (b.status.state ≡ backup_succeeded)))
unfolding scan_method
scan_method_latest b x s method_volume_snapshot h = inl h
scan_method_latest b x s method_pgbackrest h = elim (scan_state_latest b x s b.status.state h) [
  | inl old ↦ inl old
  | inr here ↦ inr (here.0, (refl, here.1))
]

scan_one_latest :
    (b x : PerconaPgBackup) (s : Scan)
    → (scan_one b s).latest ≡ some x
    → (s.latest ≡ some x) ⊎ ((b ≡ x) × IsCandidate b)
unfolding scan_one
scan_one_latest b x s h = scan_method_latest b x s (method_of b.spec) h

-- What the loop ends with is a candidate of the list, unless it was there before.
scan_latest :
    (bs : List PerconaPgBackup) (x : PerconaPgBackup) (s : Scan)
    → (scan bs s).latest ≡ some x
    → (s.latest ≡ some x) ⊎ Any (λ b. (b ≡ x) × IsCandidate b) bs
unfolding scan
scan_latest [] x s h = inl h
scan_latest (b ∷ bs) x s h = elim (scan_latest bs x (scan_one b s) h) [
  | inr there ↦ inr (inr there)
  | inl before ↦ elim (scan_one_latest b x s before) [
    | inl old ↦ inl old
    | inr here ↦ inr (inl here)
  ]
]

-- The backup chosen among `bs`.
pub record IsLatest (bs : List PerconaPgBackup) (b : PerconaPgBackup) : Type 0 where
  pub listed : Any (λ x. (x ≡ b) × IsCandidate x) bs
  pub greatest : All (λ x. IsCandidate x → Reaches b.status.completed_at (completion_of x)) bs

candidate-Any :
    (bs : List PerconaPgBackup) (s : Scan)
    → All IsTimed bs
    → Any IsCandidate bs
    → (t : ℕ) × (latest_completed_at (scan bs s).latest ≡ some t)
candidate-Any bs s timed any = reached bs bs (scan-All bs s timed) any
  where
    found : (o : Option ℕ) (n : ℕ) → Reaches o n → (t : ℕ) × (o ≡ some t)
    found none n h = absurd h
    found (some t) n h = (t, refl)

    reached :
        (ys xs : List PerconaPgBackup)
        → All
            (λ b.
              IsCandidate b → Reaches (latest_completed_at (scan ys s).latest) (completion_of b))
            xs
        → Any IsCandidate xs
        → (t : ℕ) × (latest_completed_at (scan ys s).latest ≡ some t)
    reached ys [] h none_here = absurd none_here
    reached ys (x ∷ xs) h (inl here) = found _ (completion_of x) (h.0 here)
    reached ys (x ∷ xs) h (inr there) = reached ys xs h.1 there

module _ {W : Type 0} where
  chosen_one :
      (bs : List PerconaPgBackup) (o : Option PerconaPgBackup) (running : Bool) (s : St W Write)
      → ((x : PerconaPgBackup) → o ≡ some x → Any (λ b. (b ≡ x) × IsCandidate b) bs)
      → All (λ b. IsCandidate b → Reaches (latest_completed_at o) (completion_of b)) bs
      → (t : ℕ) × (latest_completed_at o ≡ some t)
      → (b : PerconaPgBackup) × (chosen o (latest_completed_at o) running s ≡ (ok b, s))
        × IsLatest bs b
  unfolding chosen pure
  chosen_one bs none running s listed greatest (t, e) = cc
  chosen_one bs (some b) running s listed greatest (t, e) =
      (b, rw e refl, record { listed = listed b refl; greatest = greatest })

  -- If some backup of the cluster is a succeeded pgBackRest backup, and each such backup has its
  -- time of completion, `GetLatestBackup` returns one of them, which no other has completed after,
  -- whatever else the list holds (running, failed and snapshot backups, in any order).
  pub latest_of-IsLatest :
      (bs : List PerconaPgBackup) (s : St W Write)
      → All IsTimed bs
      → Any IsCandidate bs
      → (b : PerconaPgBackup) × (latest_of bs s ≡ (ok b, s)) × IsLatest bs b
  unfolding latest_of
  latest_of-IsLatest [] s timed any = absurd any
  latest_of-IsLatest (x ∷ xs) s timed any =
      let start : Scan = record { latest = none; running_backup_exists = false } in
      chosen_one (x ∷ xs) (scan (x ∷ xs) start).latest _ s
        (λ b e. elim (scan_latest (x ∷ xs) b start e) [
          | inl bad ↦ absurd (cc bad)
          | inr found ↦ found
        ])
        (scan-All (x ∷ xs) start timed) (candidate-Any (x ∷ xs) start timed any)
