-- ===== src/Exec/Writes/Growth.antt =====
-- A log that grew by writes of one kind.
use mathlib.Core.List.{append_assoc}
use percona_postgresql_opera.Prelude.{
  ◌≡◌, refl, sym, ap, ◌∙◌, List, [], ◌∷◌, ◌++◌, All, All-append, All-map,
}

module _ {ℓ} {E : Type ℓ} where
  pub record Adds (P : E → Type ℓ) (l l' : List E) : Type ℓ where
    pub added : List E
    pub grown : l' ≡ added ++ l
    pub each : All P added

  pub Adds-refl : {P : E → Type ℓ} (l : List E) → Adds P l l
  Adds-refl l = record { added = []; grown = refl; each = tt }

  pub Adds-one : {P : E → Type ℓ} (e : E) (l : List E) → P e → Adds P l (e ∷ l)
  Adds-one e l p = record { added = e ∷ []; grown = refl; each = (p, tt) }

  pub Adds-trans : {P : E → Type ℓ} {k l m : List E} → Adds P k l → Adds P l m → Adds P k m
  Adds-trans {P} {k} a b = record {
    added = b.added ++ a.added;
    grown = b.grown ∙ ap (λ t. b.added ++ t) a.grown ∙ sym (append_assoc b.added a.added k);
    each = All-append P b.added a.added b.each a.each;
  }

  pub Adds-weaken :
      {P Q : E → Type ℓ} {l m : List E} → ((e : E) → P e → Q e) → Adds P l m → Adds Q l m
  Adds-weaken {P} {Q} f a = record {
    added = a.added;
    grown = a.grown;
    each = All-map P Q a.added f a.each;
  }
