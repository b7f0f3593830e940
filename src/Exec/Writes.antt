-- ===== src/Exec/Writes.antt =====
-- The writes that a method sends, whether it returns a value or an error; one rule for each way to
-- build a method.
mod Growth
pub use Growth.*
use percona_postgresql_opera.Prelude.{
  ◌≡◌, refl, Bool, true, false, Option, none, some, List, if◌then◌else◌,
}
use percona_postgresql_opera.Exec.{
  Err, Result, ok, err, St, Exec, pure, raise, lift, read, ask, send, attempt, ◌>>=◌, case_of,
  on_option,
}

-- From every state `m` only adds to the log, and every write that it adds satisfies `P`.
pub record Sends {ℓ} {W E A : Type ℓ} (P : E → Type ℓ) (m : Exec W E A) : Type ℓ where
  pub at : (s : St W E) → Adds P s.log (m s).1.log

module _ {ℓ} {W E A : Type ℓ} {P : E → Type ℓ} where
  pub Sends-pure : (a : A) → Sends P (pure {W = W} a)
  unfolding pure
  Sends-pure a = record { at = λ s. Adds-refl s.log }

  pub Sends-raise : (e : Err) → Sends P (raise {W = W} {A = A} e)
  unfolding raise
  Sends-raise e = record { at = λ s. Adds-refl s.log }

  pub Sends-lift : (r : Result A) → Sends P (lift {W = W} r)
  unfolding lift
  Sends-lift r = record { at = λ s. Adds-refl s.log }

  pub Sends-read : (f : W → Result A × W) → Sends P (read f)
  unfolding read
  Sends-read f = record { at = λ s. Adds-refl s.log }

  pub Sends-ask : (f : W → A × W) → Sends P (ask f)
  unfolding ask
  Sends-ask f = record { at = λ s. Adds-refl s.log }

  pub Sends-send : (e : E) (f : W → Result A × W) → P e → Sends P (send e f)
  unfolding send
  Sends-send e f p = record { at = λ s. Adds-one e s.log p }

  pub Sends-attempt : (m : Exec W E A) → Sends P m → Sends P (attempt m)
  unfolding attempt
  Sends-attempt m k = record { at = λ s. k.at s }

  pub Sends-weaken :
      {Q : E → Type ℓ} (m : Exec W E A) → ((e : E) → P e → Q e) → Sends P m → Sends Q m
  Sends-weaken m f k = record { at = λ s. Adds-weaken f (k.at s) }

  pub Sends-if :
      (b : Bool) (m n : Exec W E A)
      → (b ≡ true → Sends P m)
      → (b ≡ false → Sends P n)
      → Sends P (if b then m else n)
  Sends-if true m n km kn = km refl
  Sends-if false m n km kn = kn refl

module _ {ℓ} {W E A B : Type ℓ} {P : E → Type ℓ} where
  pub Sends-bind :
      (m : Exec W E A) (f : A → Exec W E B)
      → Sends P m
      → ((a : A) → Sends P (f a))
      → Sends P (m >>= f)
  unfolding ◌>>=◌
  Sends-bind m f km kf = record { at = λ s. rest s.log (m s).0 (m s).1 (km.at s) }
    where
      rest :
          (l : List E) (r : Result A) (s' : St W E)
          → Adds P l s'.log
          → Adds P l ((lift r >>= f) s').1.log
      rest l (ok a) s' h = Adds-trans h ((kf a).at s')
      rest l (err e) s' h = h

  pub Sends-case_of :
      (r : Result A) (f : A → Exec W E B) (g : Err → Exec W E B)
      → ((a : A) → r ≡ ok a → Sends P (f a))
      → ((e : Err) → r ≡ err e → Sends P (g e))
      → Sends P (case_of r f g)
  unfolding case_of
  Sends-case_of (ok a) f g kf kg = kf a refl
  Sends-case_of (err e) f g kf kg = kg e refl

module _ {ℓ κ} {W E : Type ℓ} {A : Type κ} {B : Type ℓ} {P : E → Type ℓ} where
  pub Sends-on_option :
      (o : Option A) (m : Exec W E B) (f : A → Exec W E B)
      → (o ≡ none → Sends P m)
      → ((a : A) → o ≡ some a → Sends P (f a))
      → Sends P (on_option o m f)
  unfolding on_option
  Sends-on_option none m f km kf = km refl
  Sends-on_option (some a) m f km kf = kf a refl

pub ruleset sends_rules = (
  Sends-pure, Sends-raise, Sends-lift, Sends-read, Sends-ask, Sends-send, Sends-attempt, Sends-if,
  Sends-bind, Sends-case_of, Sends-on_option,
)
