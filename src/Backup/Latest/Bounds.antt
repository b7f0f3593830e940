-- ===== src/Backup/Latest/Bounds.antt =====
-- The time that the loop of `GetLatestBackup` ends with.
use percona_postgresql_opera.Prelude.{
  ℕ, ap, Bool-cases, ◌≡◌, refl, ◌≤◌, ◌⊎◌, inl, inr, true, false, List, [], ◌∷◌, Option, none, some,
  All, arith, deref,
}
use percona_postgresql_opera.Types.Backup.{
  BackupMethod, method_pgbackrest, method_volume_snapshot, PgBackupState, backup_new,
  backup_starting, backup_running, backup_failed, backup_succeeded, PerconaPgBackup, method_of,
}
use percona_postgresql_opera.Backup.Latest.{
  Scan, latest_completed_at, is_later, completion_of, scan_method, scan_state, scan_one, scan,
}

-- A succeeded backup by pgBackRest.
abbrev pub IsCandidate : PerconaPgBackup → Type 0
IsCandidate b = (method_of b.spec ≡ method_pgbackrest) × (b.status.state ≡ backup_succeeded)

-- A succeeded backup by pgBackRest has a time of completion.
abbrev pub IsTimed : PerconaPgBackup → Type 0
IsTimed b = IsCandidate b → (t : ℕ) × (b.status.completed_at ≡ some t)

-- The time is there and not below the bound.
abbrev pub Reaches : Option ℕ → ℕ → Type 0
Reaches none n = ⊥
Reaches (some t) n = n ≤ t

later-le : (o : Option ℕ) (n m : ℕ) → Reaches o n → is_later m o ≡ true → n ≤ m
later-le none n m h e = absurd h
later-le (some t) n m h e = ground arith

not_later : (o : Option ℕ) (m : ℕ) → is_later m o ≡ false → Reaches o m
not_later none m e = cc
not_later (some t) m e = ground arith

module _ (b : PerconaPgBackup) (s : Scan) (timed : (t : ℕ) × (b.status.completed_at ≡ some t)) where
  replaced :
      (n : ℕ)
      → (Reaches (latest_completed_at s.latest) n ⊎ (n ≡ completion_of b))
      → Reaches (latest_completed_at (scan_state backup_succeeded b s).latest) n
  unfolding scan_state
  replaced n h = elim (Bool-cases (is_later (completion_of b) (latest_completed_at s.latest))) [
    | inl later ↦
        let (t, et) = timed in
        let same : completion_of b ≡ t = ap (λ o. deref o b.meta.creation_timestamp) et in
        rw later (rw et (below n h later same))
    | inr kept ↦ rw kept (stays n h kept)
  ]
    where
      below :
          {t : ℕ} (n : ℕ)
          → (Reaches (latest_completed_at s.latest) n ⊎ (n ≡ completion_of b))
          → is_later (completion_of b) (latest_completed_at s.latest) ≡ true
          → completion_of b ≡ t
          → n ≤ t
      below n (inl r) later same = omega (arith, later-le _ n (completion_of b) r later)
      below n (inr r) later same = omega arith

      stays :
          (n : ℕ)
          → (Reaches (latest_completed_at s.latest) n ⊎ (n ≡ completion_of b))
          → is_later (completion_of b) (latest_completed_at s.latest) ≡ false
          → Reaches (latest_completed_at s.latest) n
      stays n (inl r) kept = r
      stays n (inr r) kept = rw r (not_later _ (completion_of b) kept)

-- One more backup in the state `st`: every bound stays, and its time is reached if it succeeded.
scan_state-Reaches :
    (b : PerconaPgBackup) (s : Scan) (st : PgBackupState) (n : ℕ)
    → (st ≡ backup_succeeded → (t : ℕ) × (b.status.completed_at ≡ some t))
    → (Reaches (latest_completed_at s.latest) n ⊎ ((st ≡ backup_succeeded) × (n ≡ completion_of b)))
    → Reaches (latest_completed_at (scan_state st b s).latest) n
unfolding scan_state
scan_state-Reaches b s backup_succeeded n timed (inl h) = replaced b s (timed refl) n (inl h)
scan_state-Reaches b s backup_succeeded n timed (inr h) = replaced b s (timed refl) n (inr h.1)
scan_state-Reaches b s backup_failed n timed (inl h) = h
scan_state-Reaches b s backup_failed n timed (inr h) = absurd (cc h.0)
scan_state-Reaches b s backup_new n timed (inl h) = h
scan_state-Reaches b s backup_new n timed (inr h) = absurd (cc h.0)
scan_state-Reaches b s backup_starting n timed (inl h) = h
scan_state-Reaches b s backup_starting n timed (inr h) = absurd (cc h.0)
scan_state-Reaches b s backup_running n timed (inl h) = h
scan_state-Reaches b s backup_running n timed (inr h) = absurd (cc h.0)

scan_method-Reaches :
    (b : PerconaPgBackup) (s : Scan) (m : BackupMethod) (n : ℕ)
    → (m ≡ method_pgbackrest
        → b.status.state ≡ backup_succeeded
        → (t : ℕ) × (b.status.completed_at ≡ some t))
    → (Reaches (latest_completed_at s.latest) n
        ⊎ (((m ≡ method_pgbackrest) × (b.status.state ≡ backup_succeeded)) × (n ≡ completion_of b)))
    → Reaches (latest_completed_at (scan_method m b s).latest) n
unfolding scan_method
scan_method-Reaches b s method_volume_snapshot n timed (inl h) = h
scan_method-Reaches b s method_volume_snapshot n timed (inr h) = absurd (cc h.0.0)
scan_method-Reaches b s method_pgbackrest n timed (inl h) =
    scan_state-Reaches b s b.status.state n (timed refl) (inl h)
scan_method-Reaches b s method_pgbackrest n timed (inr h) =
    scan_state-Reaches b s b.status.state n (timed refl) (inr (h.0.1, h.1))

-- Looking at one more backup keeps every bound, and reaches its time if it is a candidate.
scan_one-Reaches :
    (b : PerconaPgBackup) (s : Scan) (n : ℕ)
    → IsTimed b
    → (Reaches (latest_completed_at s.latest) n ⊎ (IsCandidate b × (n ≡ completion_of b)))
    → Reaches (latest_completed_at (scan_one b s).latest) n
unfolding scan_one
scan_one-Reaches b s n timed h =
    scan_method-Reaches b s (method_of b.spec) n (λ m e. timed (m, e)) h

pub scan-Reaches :
    (bs : List PerconaPgBackup) (s : Scan) (n : ℕ)
    → All IsTimed bs
    → Reaches (latest_completed_at s.latest) n
    → Reaches (latest_completed_at (scan bs s).latest) n
unfolding scan
scan-Reaches [] s n timed h = h
scan-Reaches (b ∷ bs) s n timed h =
    scan-Reaches bs (scan_one b s) n timed.1 (scan_one-Reaches b s n timed.0 (inl h))

-- The time that the loop ends with reaches that of every candidate.
pub scan-All :
    (bs : List PerconaPgBackup) (s : Scan)
    → All IsTimed bs
    → All
        (λ b. IsCandidate b → Reaches (latest_completed_at (scan bs s).latest) (completion_of b))
        bs
unfolding scan
scan-All [] s timed = tt
scan-All (b ∷ bs) s timed = (
  λ cand.
      scan-Reaches bs (scan_one b s) (completion_of b) timed.1
        (scan_one-Reaches b s (completion_of b) timed.0 (inr (cand, refl))),
  scan-All bs (scan_one b s) timed.1,
)
