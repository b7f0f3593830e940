-- ===== src/Crunchy/Instances/ScaleUp/Unique.antt =====
-- internal/controller/postgrescluster/instance.go, `scaleUpInstances`: lists of names no two of which
-- are the same, and how many other names must be there for one to be spare.
use percona_postgresql_opera.Prelude.{
  suc, ◌≤◌, ◌<◌, ◌≡◌, ◌∙◌, refl, ap, subst, inl, inr, String, true, false, ◌==◌, ◌||◌, eq_iff,
  eq_refl, Bool-cases, if◌then◌else◌, List, [], ◌∷◌, ◌++◌, map, contains, length, arith,
}

-- No string is in the list twice.
abbrev pub Unique : List String → Type 0
Unique [] = Unit
Unique (x ∷ xs) = (contains xs x ≡ false) × Unique xs

contains-append :
    (xs ys : List String) (a : String) → contains (xs ++ ys) a ≡ (contains xs a || contains ys a)
contains-append [] ys a = refl
contains-append (x ∷ xs) ys a = elim (Bool-cases (x == a)) [
  | inl e ↦ rw e refl
  | inr e ↦ rw e (contains-append xs ys a)
]

eq_sym-false : (a b : String) → (a == b) ≡ false → (b == a) ≡ false
eq_sym-false a b h = elim (Bool-cases (b == a)) [
  | inl e ↦ absurd (cc (h, e, (eq_iff b a).0 e))
  | inr e ↦ e
]

pub Unique-snoc :
    (xs : List String) (a : String) → Unique xs → contains xs a ≡ false → Unique (xs ++ a ∷ [])
Unique-snoc [] a u h = (refl, tt)
Unique-snoc (x ∷ xs) a u h = (
  contains-append xs (a ∷ []) x ∙ ground (arith, h, u.0, eq_sym-false x a (ground (arith, h))),
  Unique-snoc xs a u.1 (ground (arith, h)),
)

pub length-snoc : (xs : List String) (a : String) → length (xs ++ a ∷ []) ≡ suc (length xs)
length-snoc [] a = refl
length-snoc (x ∷ xs) a = ap suc (length-snoc xs a)

-- The list without the first that equals the string.
without : String → List String → List String
without a [] = []
without a (x ∷ xs) = let rest = without a xs in if x == a then xs else x ∷ rest

length-without : (a : String) (xs : List String) → length xs ≤ suc (length (without a xs))
unfolding without
length-without a [] = omega arith
length-without a (x ∷ xs) = ground (arith, length-without a xs)

contains-without :
    (a : String) (xs : List String) (b : String)
    → contains xs b ≡ false
    → contains (without a xs) b ≡ false
unfolding without
contains-without a [] b h = refl
contains-without a (x ∷ xs) b h = elim (Bool-cases (x == a)) [
  | inl e ↦ rw e (ground (arith, h))
  | inr e ↦ rw e (ground (arith, h, contains-without a xs b (ground (arith, h))))
]

Unique-without : (a : String) (xs : List String) → Unique xs → Unique (without a xs)
unfolding without
Unique-without a [] u = tt
Unique-without a (x ∷ xs) u = elim (Bool-cases (x == a)) [
  | inl e ↦ rw e u.1
  | inr e ↦ rw e (contains-without a xs x u.0, Unique-without a xs u.1)
]

without-lem : (a : String) (xs : List String) → Unique xs → contains (without a xs) a ≡ false
unfolding without
without-lem a [] u = refl
without-lem a (x ∷ xs) u = elim (Bool-cases (x == a)) [
  | inl e ↦ rw e (subst (λ y. contains xs y ≡ false) ((eq_iff x a).0 e) u.0)
  | inr e ↦ rw e (ground (arith, e, without-lem a xs u.1))
]

-- More strings than names: one is no name.
abbrev pub Spare : List String → List String → Type 0
Spare xs names = (x : String) × (contains xs x ≡ true) × (contains names x ≡ false)

pub Unique-Spare : (names xs : List String) → Unique xs → length names < length xs → Spare xs names
Unique-Spare [] [] u h = absurd (omega arith)
Unique-Spare [] (x ∷ xs) u h = (x, ground (arith, eq_refl x), refl)
Unique-Spare (n ∷ names) xs u h =
    let (x, has, lacks) =
      Unique-Spare names (without n xs) (Unique-without n xs u)
        (omega (arith, h, length-without n xs)) in
    (x, has_of x has, lacks_of x has lacks)
  where
    has_of : (x : String) → contains (without n xs) x ≡ true → contains xs x ≡ true
    has_of x has = elim (Bool-cases (contains xs x)) [
      | inl e ↦ e
      | inr e ↦ absurd (cc (has, contains-without n xs x e))
    ]

    lacks_of :
        (x : String)
        → contains (without n xs) x ≡ true
        → contains names x ≡ false
        → contains (n ∷ names) x ≡ false
    lacks_of x has lacks = elim (Bool-cases (n == x)) [
      | inl e ↦ absurd (cc (has, (eq_iff n x).0 e, without-lem n xs u))
      | inr e ↦ ground (arith, e, lacks)
    ]

pub Unique-left : (xs ys : List String) → Unique (xs ++ ys) → Unique xs
Unique-left [] ys u = tt
Unique-left (x ∷ xs) ys u = (ground (arith, contains-append xs ys x, u.0), Unique-left xs ys u.1)

pub contains-map :
    (f : String → String) (ss : List String) (x : String)
    → contains (map f ss) x ≡ true
    → (s : String) × (contains ss s ≡ true) × (f s ≡ x)
contains-map f [] x h = absurd (cc h)
contains-map f (s ∷ ss) x h = elim (Bool-cases (f s == x)) [
  | inl e ↦ (s, ground (arith, eq_refl s), (eq_iff _ _).0 e)
  | inr e ↦
      let (t, has, same) = contains-map f ss x (ground (arith, e, h)) in
      (t, ground (arith, has), same)
]

pub length-map : (f : String → String) (ss : List String) → length (map f ss) ≡ length ss
length-map f [] = refl
length-map f (s ∷ ss) = ap suc (length-map f ss)
