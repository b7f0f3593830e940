-- ===== src/Prelude/Integers.antt =====
-- Go's `int64`, over the native numbers.
use Prim.Native.Nat.{ℕ}
use mathlib.Core.Bool.{Bool, true, false}
use percona_postgresql_opera.Prelude.Tests.{ltb}

pub data ℤ : Type 0 where
  pos : ℕ → ℤ
  -- `negsuc n` is `- (n + 1)`.
  negsuc : ℕ → ℤ

-- `a > b`
abbrev pub is_greater : ℤ → ℤ → Bool
is_greater (pos a) (pos b) = ltb b a
is_greater (pos a) (negsuc b) = true
is_greater (negsuc a) (pos b) = false
is_greater (negsuc a) (negsuc b) = ltb a b
