-- ===== src/Files/Path.antt =====
-- std::path on Unix, as far as files/*.rs uses it. A path is its text.
pub mod Components
pub mod Names
use rusp.Prelude.{
  ℕ, Bool, true, false, not, ◌&&◌, ◌||◌, Option, none, some, List, [], ◌∷◌, ◌++◌, ◌==◌,
  if◌then◌else◌, text_eq, codes, starts_with, ends_with, split,
}
use rusp.Error.{Text}

abbrev pub slash : ℕ
slash = b'/'

pub data Component : Type 0 where
  root_dir cur_dir parent_dir : Component
  normal : Text → Component

unfoldable pub is_slash : ℕ → Bool
is_slash c = c == slash

abbrev pub is_nil : Text → Bool
is_nil [] = true
is_nil (c ∷ cs) = false

-- What a part between two slashes contributes: empty parts and `.` nothing.
unfoldable pub of_segment : Text → List Component
of_segment s =
    if is_nil s || text_eq s (codes ".")
    then []
    else if text_eq s (codes "..")
    then parent_dir ∷ []
    else normal s ∷ []

unfoldable pub of_segments : List Text → List Component
of_segments [] = []
of_segments (s ∷ ss) = of_segment s ++ of_segments ss

-- A leading `.` of a relative path is kept.
unfoldable pub first_segment : Bool → Text → List Component
first_segment absolute s =
    if not absolute && text_eq s (codes ".") then cur_dir ∷ [] else of_segment s

unfoldable pub with_first : Bool → List Text → List Component
with_first absolute [] = []
with_first absolute (s ∷ ss) =
    (if absolute then root_dir ∷ [] else []) ++ (first_segment absolute s ++ of_segments ss)

-- Path::components
unfoldable pub components : Text → List Component
components path = with_first (starts_with slash path) (split is_slash path)

-- PathBuf::push: an absolute path replaces; else a slash is put in where there is none.
unfoldable pub push : Text → Text → Text
push path part =
    if starts_with slash part
    then part
    else if is_nil path || ends_with slash path
    then path ++ part
    else path ++ (slash ∷ part)

unfoldable pub component_eq : Component → Component → Bool
component_eq root_dir root_dir = true
component_eq cur_dir cur_dir = true
component_eq parent_dir parent_dir = true
component_eq (normal a) (normal b) = text_eq a b
component_eq _ _ = false

-- Path::strip_prefix, on components.
unfoldable pub strip_prefix : List Component → List Component → Option (List Component)
strip_prefix [] path = some path
strip_prefix (c ∷ cs) [] = none
strip_prefix (c ∷ cs) (d ∷ ds) = if component_eq c d then strip_prefix cs ds else none
