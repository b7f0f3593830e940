-- ===== src/Crunchy/Instances/ScaleDown/Kept.antt =====
-- How many pods of a set a scale-down keeps.
use percona_postgresql_opera.Prelude.{
  ℕ, suc, ◌+◌, ◌≤◌, ◌<◌, ◌≡◌, subst, ◌⊎◌, inl, inr, true, ltb, if◌then◌else◌, Bool-cases, List, [],
  ◌∷◌, ◌++◌, length, arith,
}
use percona_postgresql_opera.Types.Meta.{Pod}
use percona_postgresql_opera.Crunchy.Instances.{has_leader_role}
use percona_postgresql_opera.Crunchy.Instances.ScaleDown.{leaders, keep_others, keep_of_set}

abbrev others : List Pod → ℕ
others [] = 0
others (p ∷ ps) = let rest = others ps in if has_leader_role p then rest else suc rest

leaders-others : (ps : List Pod) → length (leaders ps) + others ps ≡ length ps
unfolding leaders
leaders-others [] = omega arith
leaders-others (p ∷ ps) = ground (arith, leaders-others ps)

length-snoc : (ps : List Pod) (p : Pod) → length (ps ++ p ∷ []) ≡ length ps + 1
length-snoc [] p = omega arith
length-snoc (x ∷ ps) p = ground (arith, length-snoc ps p)

-- The list is full, or has all that there are.
abbrev pub Fills : ℕ → ℕ → ℕ → Type 0
Fills kept n all = (kept ≤ n) × ((kept ≡ n) ⊎ (kept ≡ all))

Fills-taken :
    (kept n : ℕ) (keep : List Pod) (p : Pod) (k : ℕ)
    → Fills kept n (length (keep ++ p ∷ []) + k)
    → Fills kept n (length keep + suc k)
Fills-taken kept n keep p k (h, inl e) = (h, inl e)
Fills-taken kept n keep p k (h, inr e) = (h, inr (ground (arith, e, length-snoc keep p)))

Fills-full : (kept n k o : ℕ) → n ≤ k → Fills kept n (k + o) → Fills kept n (k + suc o)
Fills-full kept n k o full (h, inl e) = (h, inl e)
Fills-full kept n k o full (h, inr e) = (h, inl (ground (arith, e, h, full)))

keep_others-Fills :
    (ps keep : List Pod) (n : ℕ)
    → length keep ≤ n
    → Fills (length (keep_others ps keep n)) n (length keep + others ps)
unfolding keep_others
keep_others-Fills [] keep n h = (h, inr (omega arith))
keep_others-Fills (p ∷ ps) keep n h = elim (Bool-cases (has_leader_role p)) [
  | inl leads ↦ rw leads (keep_others-Fills ps keep n h)
  | inr follows ↦ elim (Bool-cases (ltb (length keep) n)) [
    | inl fits ↦ rw follows (
        rw fits (
          Fills-taken _ n keep p (others ps)
            (keep_others-Fills ps (keep ++ p ∷ []) n (ground (arith, fits, length-snoc keep p)))))
    | inr full ↦ rw follows (
        rw full (
          Fills-full _ n (length keep) (others ps) (ground (arith, full))
            (keep_others-Fills ps keep n h)))
  ]
]

-- If a set of instances has no more leaders than it is to have pods, and it is to have some, then of
-- its pods exactly as many are kept as are wanted, or all if there are fewer.
pub keep_of_set-Fills :
    (pods : List Pod) (n : ℕ)
    → length (leaders pods) ≤ n
    → 0 < n
    → Fills (length (keep_of_set pods n)) n (length pods)
unfolding keep_of_set
keep_of_set-Fills pods n few some =
    let positive : ltb 0 n ≡ true = ground (arith, some) in
    rw positive (
      subst (Fills (length (keep_others pods (leaders pods) n)) n) (leaders-others pods)
        (keep_others-Fills pods (leaders pods) n few))
