-- ===== src/Cluster/Conditions/Mirror.antt =====
-- What a PerconaPGCluster's conditions say once crunchy's are mirrored.
use percona_postgresql_opera.Prelude.{
  ℕ, ◌≡◌, ◌⊎◌, refl, ap, ◌∙◌, String, Bool, true, false, not, ◌&&◌, ◌||◌, ◌==◌, if◌then◌else◌,
  Bool-cases, inl, inr, List, [], ◌∷◌, Option, none, some, is_some, contains, arith, eq_iff,
}
use percona_postgresql_opera.Types.Meta.{Condition}
use percona_postgresql_opera.Client.{Client}
use percona_postgresql_opera.Client.Laws.{Says, ConditionLaw}
use percona_postgresql_opera.Cluster.Conditions.{
  percona_owned_conditions, kinds, is_kept, stale_kinds, mirror, remove_all, sync_conditions,
}

-- The last condition of a type in a list.
unfoldable pub last_of : List Condition → String → Option Condition
last_of [] k = none
last_of (x ∷ xs) k = elim (last_of xs k) [
  | some y ↦ some y
  | none ↦ if x.kind == k then some x else none
]

last_of-contains :
    (xs : List Condition) (k : String) → contains (kinds xs) k ≡ is_some (last_of xs k)
unfolding last_of
last_of-contains [] k = refl
last_of-contains (x ∷ xs) k = ground (arith, last_of-contains xs k)

-- The condition found says what the given one does, at this generation.
abbrev pub Shows : Condition → ℕ → Option Condition → Type 0
Shows x generation o =
    (y : Condition) × (o ≡ some y) × Says y (record x { observed_generation = generation })

-- Of one type: what crunchy has is shown; what it has not stays if this operator owns it, and goes
-- otherwise.
abbrev pub Mirrored : Bool → Option Condition → ℕ → Option Condition → Option Condition → Type 0
Mirrored owned (some x) generation before after = Shows x generation after
Mirrored true none generation before after = after ≡ before
Mirrored false none generation before after = after ≡ none

-- What the loop over crunchy's conditions has done to one type.
abbrev Set : Option Condition → ℕ → Option Condition → Option Condition → Type 0
Set none generation before after = after ≡ before
Set (some x) generation before after = Shows x generation after

module _ {W : Type 0} (c : Client W) (law : ConditionLaw c) (now : ℕ) where
  mirror-Set :
      (generation : ℕ) (ys xs : List Condition) (k : String)
      → Set
          (last_of ys k)
          generation
          (c.find_status_condition xs k)
          (c.find_status_condition (mirror c now generation ys xs) k)
  unfolding mirror last_of
  mirror-Set generation [] xs k = refl
  mirror-Set generation (y ∷ ys) xs k =
      here _ (last_of ys k) (Bool-cases (y.kind == k)) (mirror-Set generation ys _ k)
    where
      marked : Condition
      marked = record y { observed_generation = generation }

      here :
          (after o : Option Condition)
          → ((y.kind == k) ≡ true ⊎ (y.kind == k) ≡ false)
          → Set o generation
              (c.find_status_condition (c.set_status_condition now xs marked) k)
              after
          → Set
              (elim o [ some z ↦ some z | none ↦ if y.kind == k then some y else none ])
              generation
              (c.find_status_condition xs k)
              after
      here after (some z) e h = h
      here after none (inl same) h =
          let kind_is : y.kind ≡ k = (eq_iff y.kind k).0 same in
          let (z, found, says) = law.find-set now xs marked in
          rw same (z, cc (h, kind_is, found), says)
      here after none (inr other) h = rw other (h ∙ law.find-set_other now xs marked k other)

  remove_all-find :
      (ks : List String) (xs : List Condition) (j : String)
      → c.find_status_condition (remove_all c now ks xs) j
        ≡ (if contains ks j then none else c.find_status_condition xs j)
  unfolding remove_all
  remove_all-find [] xs j = refl
  remove_all-find (k ∷ ks) xs j =
      ground (arith, remove_all-find ks (c.remove_status_condition xs k) j, law.find-remove xs k j)

  stale_kinds-contains :
      (crunchy xs : List Condition) (j : String)
      → contains (stale_kinds crunchy xs) j
        ≡ (is_some (c.find_status_condition xs j) && not (is_kept crunchy j))
  unfolding stale_kinds
  stale_kinds-contains crunchy [] j = ground (arith, law.find_empty j)
  stale_kinds-contains crunchy (x ∷ xs) j =
      let kind_is : (x.kind == j) ≡ true → is_kept crunchy x.kind ≡ is_kept crunchy j =
        λ e. ap (is_kept crunchy) ((eq_iff x.kind j).0 e) in
      ground (arith, law.find_cons x xs j, stale_kinds-contains crunchy xs j, kind_is)

  combined :
      (o : Option Condition) (owned : Bool) (generation : ℕ) (before mid after : Option Condition)
      → Set o generation before mid
      → after ≡ (if is_some mid && not (is_some o || owned) then none else mid)
      → Mirrored owned o generation before after
  combined (some x) owned generation before (some z) after (y, found, says) e = (y, e ∙ found, says)
  combined (some x) owned generation before none after (y, found, says) e = absurd (cc found)
  combined none true generation before none after h e = e ∙ h
  combined none true generation before (some z) after h e = e ∙ h
  combined none false generation before none after h e = e
  combined none false generation before (some z) after h e = e

  remaining :
      (generation : ℕ) (crunchy xs : List Condition) (k : String)
      → c.find_status_condition (remove_all c now (stale_kinds crunchy xs) xs) k ≡ (
          if is_some (c.find_status_condition xs k)
            && not (is_some (last_of crunchy k) || contains percona_owned_conditions k)
          then none
          else c.find_status_condition xs k)
  unfolding is_kept
  remaining generation crunchy xs k =
      rw
        (
          remove_all-find (stale_kinds crunchy xs) xs k,
          stale_kinds-contains crunchy xs k,
          last_of-contains crunchy k,
        )
        refl

  -- After `syncConditionsFromPostgresToPercona`, for each type: a condition that crunchy's status
  -- has (the last one, were there several) is shown with its status, reason and message at the
  -- cluster's generation; one that it has not is left as it was if the operator's own controllers
  -- own the type, and is gone otherwise.
  pub sync_conditions-Mirrored :
      (generation : ℕ) (crunchy xs : List Condition) (k : String)
      → Mirrored
          (contains percona_owned_conditions k)
          (last_of crunchy k)
          generation
          (c.find_status_condition xs k)
          (c.find_status_condition (sync_conditions c now generation crunchy xs) k)
  unfolding sync_conditions
  sync_conditions-Mirrored generation crunchy xs k =
      combined (last_of crunchy k) (contains percona_owned_conditions k) generation _ _ _
        (mirror-Set generation crunchy xs k)
        (remaining generation crunchy (mirror c now generation crunchy xs) k)
