-- ===== src/Exec/Yields.antt =====
-- What holds of the value that a method returns, if it returns one.
use percona_postgresql_opera.Prelude.{
  ◌≡◌, refl, subst, ap, ◌∙◌, Bool, true, false, if◌then◌else◌, List, Option, none, some,
}
use percona_postgresql_opera.Exec.{
  Err, Result, ok, err, St, Exec, pure, raise, lift, read, ask, attempt, ◌>>=◌, case_of, on_option,
}
use percona_postgresql_opera.Exec.Inversion.{ok-inj, ok_clash}
use percona_postgresql_opera.Exec.Writes.{Sends, Adds, Adds-trans}

pub record Yields {ℓ} {W E A : Type ℓ} (Q : A → Type ℓ) (m : Exec W E A) : Type ℓ where
  pub at : (s : St W E) (a : A) → (m s).0 ≡ ok a → Q a

module _ {ℓ} {W E A : Type ℓ} {Q : A → Type ℓ} where
  pub Yields-pure : (a : A) → Q a → Yields Q (pure {W = W} {E = E} a)
  unfolding pure
  Yields-pure a q = record { at = λ s b e. subst Q (ok-inj e) q }

  pub Yields-raise : (e : Err) → Yields Q (raise {W = W} {E = E} e)
  unfolding raise
  Yields-raise e = record { at = λ s b h. absurd (ok_clash h) }

  -- The value of an attempt is what the method yields.
  pub Yields-attempt :
      (m : Exec W E A) → Yields Q m → Yields (λ r. (a : A) → r ≡ ok a → Q a) (attempt m)
  unfolding attempt
  Yields-attempt m y = record { at = λ s r e b h. y.at s b (ok-inj e ∙ h) }

  pub Yields-if :
      (b : Bool) (m n : Exec W E A)
      → (b ≡ true → Yields Q m)
      → (b ≡ false → Yields Q n)
      → Yields Q (if b then m else n)
  Yields-if true m n km kn = km refl
  Yields-if false m n km kn = kn refl

module _ {ℓ} {W E A : Type ℓ} where
  pub Yields-read :
      (f : W → Result A × W) → Yields (λ a. (w w' : W) × (f w ≡ (ok a, w'))) (read {E = E} f)
  unfolding read
  Yields-read f = record { at = λ s a e. (s.world, (f s.world).1, ap (λ r. (r, (f s.world).1)) e) }

module _ {ℓ} {W E A B : Type ℓ} {Q : B → Type ℓ} where
  -- What is read first does not matter.
  pub Yields-bind :
      (m : Exec W E A) (f : A → Exec W E B) → ((a : A) → Yields Q (f a)) → Yields Q (m >>= f)
  unfolding ◌>>=◌
  Yields-bind m f k = record { at = λ s. rest (m s).0 (m s).1 }
    where
      rest : (r : Result A) (s' : St W E) (b : B) → ((lift r >>= f) s').0 ≡ ok b → Q b
      rest (ok a) s' b e = (k a).at s' b e
      rest (err x) s' b e = absurd (ok_clash e)

  pub Yields-bind_of :
      {P : A → Type ℓ} (m : Exec W E A) (f : A → Exec W E B)
      → Yields P m
      → ((a : A) → P a → Yields Q (f a))
      → Yields Q (m >>= f)
  unfolding ◌>>=◌
  Yields-bind_of {P} m f y k = record { at = λ s. rest (m s).0 (m s).1 (y.at s) }
    where
      rest :
          (r : Result A) (s' : St W E)
          → ((a : A) → r ≡ ok a → P a)
          → (b : B) → ((lift r >>= f) s').0 ≡ ok b
          → Q b
      rest (ok a) s' p b e = (k a (p a refl)).at s' b e
      rest (err x) s' p b e = absurd (ok_clash e)

  pub Yields-case_of :
      (r : Result A) (f : A → Exec W E B) (g : Err → Exec W E B)
      → ((a : A) → r ≡ ok a → Yields Q (f a))
      → ((e : Err) → r ≡ err e → Yields Q (g e))
      → Yields Q (case_of r f g)
  unfolding case_of
  Yields-case_of (ok a) f g kf kg = kf a refl
  Yields-case_of (err e) f g kf kg = kg e refl

module _ {ℓ κ} {W E : Type ℓ} {A : Type κ} {B : Type ℓ} {Q : B → Type ℓ} where
  pub Yields-on_option :
      (o : Option A) (m : Exec W E B) (f : A → Exec W E B)
      → (o ≡ none → Yields Q m)
      → ((a : A) → o ≡ some a → Yields Q (f a))
      → Yields Q (on_option o m f)
  unfolding on_option
  Yields-on_option none m f km kf = km refl
  Yields-on_option (some a) m f km kf = kf a refl

module _ {ℓ} {W E A B : Type ℓ} where
  pub Yields-ask :
      {Q : B → Type ℓ} (f : W → A × W) (g : A → Exec W E B)
      → ((a : A) → Yields Q (g a))
      → Yields Q (ask f >>= g)
  unfolding ◌>>=◌ ask
  Yields-ask f g k = record { at = λ s b e. (k (f s.world).0).at _ b e }

  -- The rest may use what the first part yields.
  pub Sends-bind_of :
      {P : E → Type ℓ} {Q : A → Type ℓ} (m : Exec W E A) (f : A → Exec W E B)
      → Sends P m
      → Yields Q m
      → ((a : A) → Q a → Sends P (f a))
      → Sends P (m >>= f)
  unfolding ◌>>=◌
  Sends-bind_of {P} {Q} m f km y kf = record {
    at = λ s. rest s.log (m s).0 (m s).1 (y.at s) (km.at s);
  }
    where
      rest :
          (l : List E) (r : Result A) (s' : St W E)
          → ((a : A) → r ≡ ok a → Q a)
          → Adds P l s'.log
          → Adds P l ((lift r >>= f) s').1.log
      rest l (ok a) s' q h = Adds-trans h ((kf a (q a refl)).at s')
      rest l (err e) s' q h = h

pub ruleset yields_rules =
    (Yields-pure, Yields-raise, Yields-if, Yields-bind, Yields-case_of, Yields-on_option)
