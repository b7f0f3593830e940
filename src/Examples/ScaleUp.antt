-- ===== src/Examples/ScaleUp.antt =====
-- The names of new instances at a set of two.
use percona_postgresql_opera.Prelude.{
  ℕ, zero, suc, ◌≡◌, ◌∙◌, ap, refl, inl, inr, String, false, some, ◌<◌, eq_iff, Bool-cases, List,
  [], ◌∷◌, ◌==◌, arith, length, ◌+◌, ◌-◌,
}
use percona_postgresql_opera.Crunchy.Instances.{PostgresInstanceSetSpec}
use percona_postgresql_opera.Crunchy.Instances.ScaleUp.{runner_names, scale_up_names}
use percona_postgresql_opera.Crunchy.Instances.ScaleUp.Ends.{Grown, Varied, scale_up_names-Grown}
use percona_postgresql_opera.Examples.Instances.{observed_of, replica1}

abbrev pair1 : PostgresInstanceSetSpec
pair1 = record { name = "set1"; replicas = 2; has_wal_volume = false }

-- "x" and "y" in turn.
unfoldable in_turn : ℕ → String
in_turn zero = "x"
in_turn (suc zero) = "y"
in_turn (suc (suc n)) = in_turn n

abbrev two : List String
two = "x" ∷ "y" ∷ []

again :
    (s : String) (n : ℕ)
    → ((k : ℕ) × (k < 2) × (in_turn (n + k) ≡ s))
    → (k : ℕ) × (k < 2) × (in_turn (suc (suc n) + k) ≡ s)
unfolding in_turn
again s n (k, h, e) = (k, h, ap in_turn shift ∙ e)
  where
    shift : suc (suc n) + k ≡ suc (suc (n + k))
    shift = omega arith

in_turn-Varied : Varied in_turn two 2
unfolding in_turn
in_turn-Varied s h = elim (Bool-cases ("x" == s)) [
  | inl x ↦ turn_x s ((eq_iff _ _).0 x)
  | inr no_x ↦ turn_y s ((eq_iff _ _).0 (ground (arith, h, no_x)))
]
  where
    turn_x : (s : String) → "x" ≡ s → (call : ℕ) → (k : ℕ) × (k < 2) × (in_turn (call + k) ≡ s)
    turn_x s e zero = (0, omega arith, e)
    turn_x s e (suc zero) = (1, omega arith, e)
    turn_x s e (suc (suc n)) = again s n (turn_x s e n)

    turn_y : (s : String) → "y" ≡ s → (call : ℕ) → (k : ℕ) × (k < 2) × (in_turn (call + k) ≡ s)
    turn_y s e zero = (1, omega arith, e)
    turn_y s e (suc zero) = (0, omega arith, e)
    turn_y s e (suc (suc n)) = again s n (turn_y s e n)

-- One runner, and one more of a name that is taken at first.
scale_up_names_test :
    scale_up_names in_turn 2 "c" pair1 (observed_of replica1 ∷ []) [] ≡ some ("b" ∷ "c-set1-x" ∷ [])
unfolding scale_up_names in_turn
scale_up_names_test = refl

scale_up_names-Grown_example :
    Grown (scale_up_names in_turn 2 "c" pair1 (observed_of replica1 ∷ []) []) (
      length (runner_names (observed_of replica1 ∷ []))
      + (2 - length (runner_names (observed_of replica1 ∷ []))))
unfolding runner_names
scale_up_names-Grown_example =
    scale_up_names-Grown in_turn two 2 "c" pair1 (observed_of replica1 ∷ []) [] (refl, tt)
      (refl, (refl, tt)) in_turn-Varied (omega arith) (omega arith)
