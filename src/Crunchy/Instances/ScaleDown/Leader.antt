-- ===== src/Crunchy/Instances/ScaleDown/Leader.antt =====
-- A scale-down keeps the leader.
use percona_postgresql_opera.Prelude.{
  ℕ, ◌<◌, ◌≡◌, refl, sym, ap, ◌∙◌, subst, ◌≢◌, inl, inr, Bool, true, false, not, ◌&&◌, ◌==◌, eq_iff,
  ltb, if◌then◌else◌, Bool-cases, String, List, [], ◌∷◌, ◌++◌, length, contains, arith, All,
}
use percona_postgresql_opera.Exec.{Result, Exec, send}
use percona_postgresql_opera.Exec.Writes.{Sends, Sends-pure, Sends-if, Sends-bind, Sends-send}
use percona_postgresql_opera.Types.Meta.{Pod}
use percona_postgresql_opera.Crunchy.Instances.{PostgresInstanceSetSpec, Instance, has_leader_role}
use percona_postgresql_opera.Crunchy.Instances.Observed.{instance_of, set_of}
use percona_postgresql_opera.Crunchy.Instances.ScaleDown.{
  Wanted, leaders, keep_others, keep_of_set, pods_in_set, pods_to_keep, names_of, pods_of, want,
  wanted, delete_pods, scale_down_instances,
}
use mathlib.Core.List.{Memᴰ}
use mathlib.Core.List.Memᴰ

keep_others-Memᴰ :
    (p : Pod) (ps keep : List Pod) (n : ℕ) → Memᴰ p keep → Memᴰ p (keep_others ps keep n)
unfolding keep_others
keep_others-Memᴰ p [] keep n m = m
keep_others-Memᴰ p (x ∷ ps) keep n m =
    keep_others-Memᴰ p ps _ n (kept (not (has_leader_role x) && ltb (length keep) n))
  where
    kept : (b : Bool) → Memᴰ p (if b then keep ++ x ∷ [] else keep)
    kept true = Memᴰ.append_left (x ∷ []) m
    kept false = m

leaders-Memᴰ :
    (p : Pod) (ps : List Pod) → Memᴰ p ps → has_leader_role p ≡ true → Memᴰ p (leaders ps)
unfolding leaders
leaders-Memᴰ p [] m leads = elim m [ ]
leaders-Memᴰ p (x ∷ ps) (Memᴰ.head e) leads =
    let same : has_leader_role x ≡ true = sym (ap has_leader_role e) ∙ leads in
    rw same (Memᴰ.head e)
leaders-Memᴰ p (x ∷ ps) (Memᴰ.tail m) leads = elim (Bool-cases (has_leader_role x)) [
  | inl h ↦ rw h (Memᴰ.tail (leaders-Memᴰ p ps m leads))
  | inr h ↦ rw h (leaders-Memᴰ p ps m leads)
]

pods_in_set-Memᴰ : (p : Pod) (ps : List Pod) → Memᴰ p ps → Memᴰ p (pods_in_set ps (set_of p))
unfolding pods_in_set
pods_in_set-Memᴰ p [] m = elim m [ ]
pods_in_set-Memᴰ p (x ∷ ps) (Memᴰ.head e) =
    let same : (set_of x == set_of p) ≡ true = (eq_iff _ _).1 (sym (ap set_of e)) in
    rw same (Memᴰ.head e)
pods_in_set-Memᴰ p (x ∷ ps) (Memᴰ.tail m) = elim (Bool-cases (set_of x == set_of p)) [
  | inl h ↦ rw h (Memᴰ.tail (pods_in_set-Memᴰ p ps m))
  | inr h ↦ rw h (pods_in_set-Memᴰ p ps m)
]

keep_of_set-Memᴰ :
    (p : Pod) (ps : List Pod) (n : ℕ)
    → Memᴰ p ps
    → has_leader_role p ≡ true
    → 0 < n
    → Memᴰ p (keep_of_set ps n)
unfolding keep_of_set
keep_of_set-Memᴰ p ps n m leads some =
    let positive : ltb 0 n ≡ true = ground (arith, some) in
    rw positive (keep_others-Memᴰ p ps (leaders ps) n (leaders-Memᴰ p ps m leads))

-- A leader is kept if the map has an entry for its set with a positive number.
pub pods_to_keep-Memᴰ :
    (p : Pod) (ps : List Pod) (m : Wanted) (n : ℕ)
    → Memᴰ p ps
    → has_leader_role p ≡ true
    → 0 < n
    → Memᴰ (set_of p, n) m
    → Memᴰ p (pods_to_keep ps m)
unfolding pods_to_keep
pods_to_keep-Memᴰ p ps [] n mp leads some m = elim m [ ]
pods_to_keep-Memᴰ p ps ((k, j) ∷ m) n mp leads some (Memᴰ.head e) =
    Memᴰ.append_left (pods_to_keep ps m) (
      subst (λ x. Memᴰ p (keep_of_set (pods_in_set ps x.0) x.1)) e
        (keep_of_set-Memᴰ p (pods_in_set ps (set_of p)) n (pods_in_set-Memᴰ p ps mp) leads some))
pods_to_keep-Memᴰ p ps ((k, j) ∷ m) n mp leads some (Memᴰ.tail rest) =
    Memᴰ.append_right (keep_of_set (pods_in_set ps k) j)
      (pods_to_keep-Memᴰ p ps m n mp leads some rest)

pub names_of-contains :
    (p : Pod) (ps : List Pod) → Memᴰ p ps → contains (names_of ps) (instance_of p) ≡ true
unfolding names_of
names_of-contains p [] m = elim m [ ]
names_of-contains p (x ∷ ps) (Memᴰ.head e) =
    let same : (instance_of x == instance_of p) ≡ true = (eq_iff _ _).1 (sym (ap instance_of e)) in
    rw same refl
names_of-contains p (x ∷ ps) (Memᴰ.tail m) = ground (arith, names_of-contains p ps m)

-- The map asks for at least one instance of the set.
abbrev Asks : String → Wanted → Type 0
Asks k m = (n : ℕ) × (0 < n) × Memᴰ (k, n) m

-- Every set of that name is to have an instance.
abbrev AllAsk : String → List PostgresInstanceSetSpec → Type 0
AllAsk k sets = All (λ x. x.name ≡ k → 0 < x.replicas) sets

want-new : (m : Wanted) (k : String) (n : ℕ) → Memᴰ (k, n) (want m k n)
unfolding want
want-new [] k n = Memᴰ.head refl
want-new ((j, i) ∷ m) k n = elim (Bool-cases (j == k)) [
  | inl h ↦ rw h (Memᴰ.head refl)
  | inr h ↦ rw h (Memᴰ.tail (want-new m k n))
]

want-old :
    (m : Wanted) (j : String) (i : ℕ) (k : String) (n : ℕ)
    → j ≢ k
    → Memᴰ (k, n) m
    → Memᴰ (k, n) (want m j i)
unfolding want
want-old [] j i k n differ e = elim e [ ]
want-old ((l, h) ∷ m) j i k n differ (Memᴰ.head e) = elim (Bool-cases (l == j)) [
  | inl same ↦ absurd (differ (sym ((eq_iff _ _).0 same) ∙ sym (ap (λ z. z.0) e)))
  | inr other ↦ rw other (Memᴰ.head e)
]
want-old ((l, h) ∷ m) j i k n differ (Memᴰ.tail e) = elim (Bool-cases (l == j)) [
  | inl same ↦ rw same (Memᴰ.tail e)
  | inr other ↦ rw other (Memᴰ.tail (want-old m j i k n differ e))
]

want-Asks :
    (m : Wanted) (x : PostgresInstanceSetSpec) (k : String)
    → (x.name ≡ k → 0 < x.replicas)
    → Asks k m
    → Asks k (want m x.name x.replicas)
want-Asks m x k asks (n, some, e) = elim (Bool-cases (x.name == k)) [
  | inl h ↦
      let same = (eq_iff _ _).0 h in
      (
        x.replicas,
        asks same,
        subst (λ z. Memᴰ (z, x.replicas) (want m x.name x.replicas)) same
            (want-new m x.name x.replicas),
      )
  | inr h ↦ (n, some, want-old m x.name x.replicas k n (λ e. absurd (cc ((eq_iff _ _).1 e, h))) e)
]

wanted-Asks :
    (sets : List PostgresInstanceSetSpec) (m : Wanted) (k : String)
    → AllAsk k sets
    → Asks k m
    → Asks k (wanted sets m)
unfolding wanted
wanted-Asks [] m k all asks = asks
wanted-Asks (x ∷ sets) m k all asks =
    wanted-Asks sets (want m x.name x.replicas) k all.1 (want-Asks m x k all.0 asks)

wanted-Asks_of :
    (sets : List PostgresInstanceSetSpec) (m : Wanted) (x : PostgresInstanceSetSpec)
    → Memᴰ x sets
    → AllAsk x.name sets
    → Asks x.name (wanted sets m)
unfolding wanted
wanted-Asks_of [] m x e all = elim e [ ]
wanted-Asks_of (y ∷ sets) m x (Memᴰ.head e) all =
    wanted-Asks sets (want m y.name y.replicas) x.name all.1 (
      y.replicas,
      all.0 (sym (ap (λ z. z.name) e)),
      subst (λ z. Memᴰ (z, y.replicas) (want m y.name y.replicas)) (sym (ap (λ z. z.name) e))
          (want-new m y.name y.replicas),
    )
wanted-Asks_of (y ∷ sets) m x (Memᴰ.tail e) all =
    wanted-Asks_of sets (want m y.name y.replicas) x e all.1

delete_pods-Spares :
    {W E : Type 0} (delete_instance : String → Exec W E (Unit {0})) (P : E → Type 0) (name : String)
    (ps : List Pod) (keep : List String)
    → contains keep name ≡ true
    → ((k : String) → k ≢ name → Sends P (delete_instance k))
    → Sends P (delete_pods delete_instance ps keep)
unfolding delete_pods
delete_pods-Spares delete_instance P name [] keep has k = Sends-pure tt
delete_pods-Spares delete_instance P name (p ∷ ps) keep has k =
    let rest = delete_pods-Spares delete_instance P name ps keep has k in
    Sends-if (not (contains keep (instance_of p))) _ _
      (λ h. Sends-bind _ _ (k (instance_of p) (λ e. absurd (ground (arith, e, h, has)))) λ _. rest)
      (λ _. rest)

-- A scale-down does not delete the instance of a pod with the role of the leader, if the set of that
-- pod is in the specification and every set of its name there is to have at least one instance. The
-- map is visited in an order that leaves out no entry.
pub scale_down_instances-Spares :
    {W : Type 0} (answer : String → W → Result (Unit {0}) × W) (order : Wanted → Wanted)
    (sets : List PostgresInstanceSetSpec) (observed : List Instance) (p : Pod)
    (x : PostgresInstanceSetSpec)
    → ((m : Wanted) (e : String × ℕ) → Memᴰ e m → Memᴰ e (order m))
    → Memᴰ p (pods_of observed)
    → has_leader_role p ≡ true
    → (Memᴰ x sets) × (x.name ≡ set_of p)
    → AllAsk x.name sets
    → Sends
        (λ name. name ≢ instance_of p)
        (scale_down_instances (λ name. send name (answer name)) order sets observed)
unfolding scale_down_instances
scale_down_instances-Spares answer order sets observed p x visits mp leads (mx, named) asks =
    let (n, some, e) = wanted-Asks_of sets [] x mx asks in
    delete_pods-Spares (λ name. send name (answer name)) (λ name. name ≢ instance_of p)
      (instance_of p) (pods_of observed)
      (names_of (pods_to_keep (pods_of observed) (order (wanted sets []))))
      (names_of-contains p _ (
        pods_to_keep-Memᴰ p (pods_of observed) (order (wanted sets [])) n mp leads some
          (visits _ _ (subst (λ k. Memᴰ (k, n) (wanted sets [])) named e))))
      (λ k differ. Sends-send k (answer k) differ)
