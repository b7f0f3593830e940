-- ===== src/Backup/Latest/Untimed.antt =====
-- A succeeded backup with no time of completion, which `GetLatestBackup` ranks by its creation.
use percona_postgresql_opera.Prelude.{ℕ, ◌≡◌, ◌<◌, refl, [], ◌∷◌, none, some, arith}
use percona_postgresql_opera.Exec.{errorf, err, St, raise}
use percona_postgresql_opera.Types.Backup.{backup_succeeded, PerconaPgBackup}
use percona_postgresql_opera.Types.Write.{Write}
use percona_postgresql_opera.Backup.Latest.{
  Scan, scan_method, scan_state, scan_one, scan, chosen, latest_of,
}
use percona_postgresql_opera.Backup.Latest.Bounds.{IsCandidate}

scan_one_candidate :
    (b : PerconaPgBackup) (s : Scan)
    → IsCandidate b
    → scan_one b s ≡ scan_state backup_succeeded b s
unfolding scan_one scan_method
scan_one_candidate b s h = simp (h.0, h.1) refl

module _ {W : Type 0} where
  -- Two succeeded pgBackRest backups, of which the first has its time of completion and the second
  -- was created after that but has no such time: `GetLatestBackup` says that there is no completed
  -- backup, although the first is one.
  pub latest_of_untimed :
      (b₁ b₂ : PerconaPgBackup) (t : ℕ) (s : St W Write)
      → IsCandidate b₁
      → IsCandidate b₂
      → b₁.status.completed_at ≡ some t
      → b₂.status.completed_at ≡ none
      → t < b₂.meta.creation_timestamp
      → latest_of (b₁ ∷ b₂ ∷ []) s ≡ (err (errorf "no completed backups found"), s)
  unfolding latest_of scan scan_state chosen raise
  latest_of_untimed b₁ b₂ t s h₁ h₂ e₁ e₂ later =
      simp (scan_one_candidate b₁ _ h₁, scan_one_candidate b₂ _ h₂, e₁, e₂) (ground (arith, e₁, e₂))
