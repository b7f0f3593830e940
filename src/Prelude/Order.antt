-- ===== src/Prelude/Order.antt =====
-- The order of strings, by the numbers of their characters, is strict and total.
use Prim.Native.Nat.{compare as compare_ℕ, Ordering}
use Prim.Native.Char.{Char, code}
use Prim.Native.String.{String, [], ◌∷◌, then, compare}
use Prim.Native.String.compare
use text.Mathlib.Text.{is_lt}
use text.Mathlib.TextPositions.{compare_refl}
use mathlib.Core.Path.{◌≡◌, refl, sym, ap, ◌∙◌}
use mathlib.Core.Bool.{Bool, true, false, ◌&&◌, ◌||◌}
use native.Mathlib.Omega.{arith}
use percona_postgresql_opera.Prelude.Tests.{ltb, nat_eq}

-- `s < t`
abbrev pub str_less : String → String → Bool
str_less s t = is_lt (compare s t)

less_cons :
    (c d : Char) (s t : String)
    → str_less (c ∷ s) (d ∷ t)
      ≡ (ltb (code c) (code d) || (nat_eq (code c) (code d) && str_less s t))
less_cons c d s t =
    ap is_lt (compare.cons-cons c d s t) ∙ by_code (compare_ℕ (code c) (code d)) (compare s t)
  where
    by_code :
        (o r : Ordering)
        → is_lt (then o r) ≡ (
            elim o [ Ordering.lt ↦ true | _ ↦ false ]
            || (elim o [ Ordering.eq ↦ true | _ ↦ false ] && is_lt r))
    by_code Ordering.lt r = refl
    by_code Ordering.eq r = refl
    by_code Ordering.gt r = refl

less_nil : (s : String) → str_less s [] ≡ false
less_nil [] = refl
less_nil (c ∷ s) = ap is_lt (compare.cons-nil c s)

nil_less : (d : Char) (t : String) → str_less [] (d ∷ t) ≡ true
nil_less d t = ap is_lt (compare.nil-cons d t)

pub str_less_irrefl : (s : String) → str_less s s ≡ false
str_less_irrefl s = ap is_lt (compare_refl s)

pub str_less_trans :
    (s t u : String) → str_less s t ≡ true → str_less t u ≡ true → str_less s u ≡ true
str_less_trans s t [] h k = absurd (cc (k, less_nil t))
str_less_trans s [] (e ∷ u) h k = absurd (cc (h, less_nil s))
str_less_trans [] (d ∷ t) (e ∷ u) h k = nil_less e u
str_less_trans (c ∷ s) (d ∷ t) (e ∷ u) h k =
    let h' = sym (less_cons c d s t) ∙ h in
    let k' = sym (less_cons d e t u) ∙ k in
    less_cons c e s u ∙ ground (arith, h', k', str_less_trans s t u)

-- What is between or beside two strings in order is above the one or below the other.
pub str_less_cotrans :
    (s t u : String) → str_less s u ≡ true → (str_less s t || str_less t u) ≡ true
str_less_cotrans s t [] h = absurd (cc (h, less_nil s))
str_less_cotrans [] [] (e ∷ u) h = rw (nil_less e u) (ground arith)
str_less_cotrans [] (d ∷ t) (e ∷ u) h = rw (nil_less d t) refl
str_less_cotrans (c ∷ s) [] (e ∷ u) h = rw (nil_less e u) (ground arith)
str_less_cotrans (c ∷ s) (d ∷ t) (e ∷ u) h =
    let h' = sym (less_cons c e s u) ∙ h in
    let rest = str_less_cotrans s t u in
    rw (less_cons c d s t, less_cons d e t u) (ground (arith, h', rest))
