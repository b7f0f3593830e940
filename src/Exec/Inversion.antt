-- ===== src/Exec/Inversion.antt =====
-- What a run that returned a value went through.
use mathlib.Core.Path.{ap₂}
use percona_postgresql_opera.Prelude.{
  ◌≡◌, refl, ap, Bool, true, false, if◌then◌else◌, ◌⊎◌, inl, inr,
}
use percona_postgresql_opera.Exec.{Err, Result, ok, err, St, Exec, pure, read, lift, attempt, ◌>>=◌}

pub ok-inj {ℓ} : {A : Type ℓ} {a b : A} → ok a ≡ ok b → a ≡ b
ok-inj e = cc

pub ok_clash {ℓ} : {A : Type ℓ} {a : A} {x : Err} → err x ≡ ok a → ⊥
ok_clash e = cc

module _ {ℓ} {W E A : Type ℓ} where
  pub if_cases :
      (b : Bool) (m n : Exec W E A) (s : St W E) (p : Result A × St W E)
      → (if b then m else n) s ≡ p
      → ((b ≡ true) × (m s ≡ p)) ⊎ ((b ≡ false) × (n s ≡ p))
  if_cases true m n s p e = inl (refl, e)
  if_cases false m n s p e = inr (refl, e)

  pub read_ok :
      (f : W → Result A × W) (s s' : St W E) (a : A)
      → read f s ≡ (ok a, s')
      → f s.world ≡ (ok a, s'.world)
  unfolding read
  read_ok f s s' a e = ap (λ p. (p.0, p.1.world)) e

  pub pure_ok : (a b : A) (s s' : St W E) → pure a s ≡ (ok b, s') → (a ≡ b) × (s ≡ s')
  unfolding pure
  pure_ok a b s s' e = (ok-inj (ap (λ p. p.0) e), ap (λ p. p.1) e)

module _ {ℓ} {W E A B : Type ℓ} where
  pub bind_ok :
      (m : Exec W E A) (f : A → Exec W E B) (s s' : St W E) (b : B)
      → (m >>= f) s ≡ (ok b, s')
      → (a : A) × (s₁ : St W E) × (m s ≡ (ok a, s₁)) × (f a s₁ ≡ (ok b, s'))
  unfolding ◌>>=◌
  bind_ok m f s s' b e = case (m s).0 (m s).1 refl e
    where
      case :
          (r : Result A) (s₁ : St W E)
          → m s ≡ (r, s₁)
          → (lift r >>= f) s₁ ≡ (ok b, s')
          → (a : A) × (s₁ : St W E) × (m s ≡ (ok a, s₁)) × (f a s₁ ≡ (ok b, s'))
      case (ok a) s₁ h e = (a, s₁, h, e)
      case (err x) s₁ h e = absurd (ok_clash (ap (λ p. p.0) e))

module _ {ℓ} {W E A : Type ℓ} where
  pub attempt_ok :
      (m : Exec W E A) (s s' : St W E) (r : Result A) → attempt m s ≡ (ok r, s') → m s ≡ (r, s')
  unfolding attempt
  attempt_ok m s s' r e = ap₂ (λ x y. (x, y)) (ok-inj (ap (λ p. p.0) e)) (ap (λ p. p.1) e)
