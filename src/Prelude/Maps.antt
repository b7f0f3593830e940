-- ===== src/Prelude/Maps.antt =====
-- Go's `map[string]string`, as an association list. A nil map is the empty list.
use mathlib.Core.Path.{◌≡◌, refl}
use mathlib.Core.Option.{Option, none, some}
use mathlib.Core.List.{List, [], ◌∷◌}
use native.Mathlib.Omega.{arith}
use Prim.Native.String.{String}
use text.Mathlib.TextEquality.{eq_iff}
use percona_postgresql_opera.Prelude.Tests.{◌==◌, if◌then◌else◌, deref}

abbrev pub StringMap : Type 0
StringMap = List (String × String)

-- `v, ok := m[k]`
unfoldable pub lookup : StringMap → String → Option String
lookup [] k = none
lookup ((j, v) ∷ m) k = if j == k then some v else lookup m k

-- `m[k]`, which is "" where the key is missing
abbrev pub value_at : StringMap → String → String
value_at m k = deref (lookup m k) ""

-- `m[k] = v`
unfoldable pub insert : StringMap → String → String → StringMap
insert [] k v = (k, v) ∷ []
insert ((j, w) ∷ m) k v = if j == k then (k, v) ∷ m else (j, w) ∷ insert m k v

-- `delete(m, k)`
unfoldable pub delete : StringMap → String → StringMap
delete [] k = []
delete ((j, v) ∷ m) k = let rest = delete m k in if j == k then rest else (j, v) ∷ rest

pub lookup-insert :
    (m : StringMap) (k v j : String)
    → lookup (insert m k v) j ≡ (if k == j then some v else lookup m j)
unfolding lookup insert
lookup-insert [] k v j = refl
lookup-insert ((i, w) ∷ m) k v j =
    ground (arith, eq_iff k j, eq_iff i k, eq_iff i j, lookup-insert m k v j)

pub lookup-delete :
    (m : StringMap) (k j : String) → lookup (delete m k) j ≡ (if k == j then none else lookup m j)
unfolding lookup delete
lookup-delete [] k j = ground arith
lookup-delete ((i, v) ∷ m) k j =
    ground (arith, lookup-delete m k j, eq_iff i k, eq_iff i j, eq_iff k j)

pub ruleset map_laws = (lookup-insert, lookup-delete)
