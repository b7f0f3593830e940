-- ===== src/Crunchy/Instances/Rollout/Bounds.antt =====
-- How many available instances a rolling update takes down at once.
use percona_postgresql_opera.Prelude.{
  ℕ, suc, ◌+◌, ◌≤◌, ◌≡◌, ◌⊎◌, if◌then◌else◌, List, [], ◌∷◌, ◌++◌,
}
use percona_postgresql_opera.Exec.{Result, Exec, send}
use percona_postgresql_opera.Crunchy.Instances.{Instance}
use percona_postgresql_opera.Crunchy.Instances.Rollout.{is_unavailable}

-- The instances of the list that are not known to be unavailable.
abbrev pub taken_down : List Instance → ℕ
taken_down [] = 0
taken_down (i ∷ is) = let rest = taken_down is in if is_unavailable i then rest else suc rest

-- None is taken down, or so few that at most one specified instance lacks an available one.
abbrev pub Within : ℕ → ℕ → List Instance → Type 0
Within specified available is = (taken_down is ≡ 0) ⊎ (specified + taken_down is ≤ available + 1)

module _ {W : Type 0} (answer : Instance → W → Result (Unit {0}) × W)
    (specified available : ℕ) where
  -- What the run added to the log, the latest first.
  abbrev Adds : ℕ → List Instance → List Instance → Type 0
  Adds made before after =
      (is : List Instance) × (after ≡ is ++ before) × Within (specified + made) available is

  abbrev redeploy : Instance → Exec W Instance (Unit {0})
  redeploy i = send i (answer i)
