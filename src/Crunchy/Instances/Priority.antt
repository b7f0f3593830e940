-- ===== src/Crunchy/Instances/Priority.antt =====
-- The order in which a rolling update takes instances.
use percona_postgresql_opera.Prelude.{ℕ, ◌<◌, ◌≡◌, ◌⊎◌, Bool, true, false, ◌||◌, if◌then◌else◌}
use percona_postgresql_opera.Prelude.Order.{str_less}
use percona_postgresql_opera.Crunchy.Instances.{Instance, surely, is_primary, is_available}

-- A comparison as `sort.Sort` wants it.
pub record IsStrictWeak {A : Type 0} (less : A → A → Bool) : Type 0 where
  pub irreflexive : (a : A) → less a a ≡ false
  pub transitive : (a b c : A) → less a b ≡ true → less b c ≡ true → less a c ≡ true
  pub cotransitive : (a b c : A) → less a c ≡ true → (less a b || less b c) ≡ true

-- The primary is above the available instances, and those above the others.
abbrev pub rank : Instance → ℕ
rank i = if surely (is_primary i) then 2 else if surely (is_available i) then 1 else 0

-- Only instances that are neither the primary nor available are ranked by name.
abbrev pub IsBelow : Instance → Instance → Type 0
IsBelow a b = (rank a < rank b) ⊎ ((rank a ≡ 0) × (rank b ≡ 0) × (str_less a.name b.name ≡ true))
