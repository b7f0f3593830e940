-- ===== src/Prelude/Text.antt =====
-- `strings.Split` at one character, `strings.CutPrefix` and `path.Join` of Go's standard library.
use Prim.Native.Nat.{ℕ}
use Prim.Native.Char.{Char, code}
use Prim.Native.String.{String, ◌++◌, len, slice}
use mathlib.Core.Bool.{Bool}
use mathlib.Core.Option.{Option, none, some}
use mathlib.Core.Path.{◌≡◌, refl}
use mathlib.Core.List.{List, [], ◌∷◌}
use text.Mathlib.Text.{◌==◌, starts_with}
use percona_postgresql_opera.Prelude.Tests.{if◌then◌else◌, nat_eq}

push : Char → List String → List String
push ch [] = String.◌∷◌ ch "" ∷ []
push ch (s ∷ ss) = String.◌∷◌ ch s ∷ ss

-- `strings.Split(s, sep)` for a separator of one character
unfoldable pub split : ℕ → String → List String
unfolding push
split sep String.[] = "" ∷ []
split sep (String.◌∷◌ ch s) =
    let rest = split sep s in if nat_eq (code ch) sep then "" ∷ rest else push ch rest

unfoldable pub cut_prefix : String → String → Option String
cut_prefix s prefix = if starts_with s prefix then some (slice s (len prefix) (len s)) else none

-- `path.Clean` over the elements of a path: the stack of those kept, the last first.
unfoldable pub clean_step : Bool → List String → String → List String
clean_step rooted [] x =
    if x == ""
    then []
    else if x == "."
    then []
    else if x == ".."
    then (if rooted then [] else ".." ∷ [])
    else x ∷ []
clean_step rooted (k ∷ ks) x =
    if x == ""
    then k ∷ ks
    else if x == "."
    then k ∷ ks
    else if x == ".."
    then (if k == ".." then ".." ∷ k ∷ ks else ks)
    else x ∷ k ∷ ks

clean_all : Bool → List String → List String → List String
clean_all rooted kept [] = kept
clean_all rooted kept (x ∷ xs) = clean_all rooted (clean_step rooted kept x) xs

join_reversed : List String → String → String
join_reversed [] acc = acc
join_reversed (x ∷ xs) acc = join_reversed xs (if acc == "" then x else x ++ ("/" ++ acc))

unfoldable pub clean : String → String
unfolding clean_all join_reversed split clean_step
clean s =
    let rooted = starts_with s "/" in
    let body = join_reversed (clean_all rooted [] (split b'/' s)) "" in
    if rooted then "/" ++ body else if body == "" then "." else body

-- `path.Join(a, b)`: empty elements are left out
unfoldable pub path_join : String → String → String
unfolding clean
path_join a b =
    if a == ""
    then (if b == "" then "" else clean b)
    else if b == ""
    then clean a
    else clean (a ++ ("/" ++ b))

joined : path_join "bucket/" "/repo1/../x" ≡ "bucket/x"
unfolding path_join
joined = refl
