-- ===== src/Api/Path.antt =====
-- What api/task_status.go does with the path: `strings.Trim(path, "/")` and `strings.Split(…, "/")`.
pub mod Laws
use Prim.Native.Char.{Char, code}
use mathlib.Core.List.{reverse}
use architecture_playground.Base.{
  String, Bool, List, [], ◌∷◌, map, chars, of_chars, eqb, if◌then◌else◌,
}

abbrev pub is_slash : Char → Bool
is_slash c = eqb (code c) b'/'

unfoldable drop_slashes : List Char → List Char
drop_slashes [] = []
drop_slashes (c ∷ cs) = if is_slash c then drop_slashes cs else (c ∷ cs)

unfoldable trim_slashes : List Char → List Char
unfolding drop_slashes
trim_slashes cs = reverse (drop_slashes (reverse (drop_slashes cs)))

-- A character in front of the first part.
abbrev push_front : Char → List (List Char) → List (List Char)
push_front c [] = (c ∷ []) ∷ []
push_front c (part ∷ parts) = (c ∷ part) ∷ parts

-- There is always a first part.
unfoldable split_slash : List Char → List (List Char)
split_slash [] = [] ∷ []
split_slash (c ∷ cs) =
    let parts = split_slash cs in if is_slash c then ([] ∷ parts) else push_front c parts

unfoldable pub path_parts : String → List String
unfolding trim_slashes split_slash
path_parts path = map of_chars (split_slash (trim_slashes (chars path)))
