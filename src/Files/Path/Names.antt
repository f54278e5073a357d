-- ===== src/Files/Path/Names.antt =====
-- std::path on Unix: the parent, the name and the extension of a path.
use rusp.Prelude.{
  Bool, false, ◌||◌, Option, none, some, List, [], ◌∷◌, ◌==◌, if◌then◌else◌, text_eq, codes, split,
  join,
}
use mathlib.Core.List.{reverse}
use rusp.Error.{Text}
use rusp.Files.Path.{Component, normal, components, slash, is_slash, is_nil}

-- Parts that are no component, off the end of a path whose parts stand in reverse order; the first
-- part of the path stays.
unfoldable pub skip_empty : List Text → List Text
skip_empty [] = []
skip_empty (s ∷ []) = s ∷ []
skip_empty (s ∷ t ∷ rest) =
    let skipped = skip_empty (t ∷ rest) in
    if is_nil s || text_eq s (codes ".") then skipped else s ∷ t ∷ rest

-- A sole first part that is empty is the root.
unfoldable pub rebuild : List Text → Text
rebuild ([] ∷ []) = slash ∷ []
rebuild parts = join slash (reverse parts)

unfoldable pub without_last : List Text → Option Text
without_last [] = none
without_last ([] ∷ []) = none
without_last ((c ∷ cs) ∷ []) = some []
without_last (s ∷ t ∷ rest) = some (rebuild (skip_empty (t ∷ rest)))

-- Path::parent
unfoldable pub parent : Text → Option Text
parent path = without_last (skip_empty (reverse (split is_slash path)))

unfoldable pub last_name : List Component → Option Text
last_name [] = none
last_name (normal name ∷ []) = some name
last_name (_ ∷ []) = none
last_name (_ ∷ d ∷ rest) = last_name (d ∷ rest)

-- Path::file_name
unfoldable pub file_name : Text → Option Text
file_name path = last_name (components path)

unfoldable pub has_dot : Text → Bool
has_dot [] = false
has_dot (c ∷ cs) = c == b'.' || has_dot cs

-- A name cut at its last dot; `none` without one.
unfoldable pub cut_at_dot : Text → Option (Text × Text)
cut_at_dot [] = none
cut_at_dot (c ∷ cs) = elim (cut_at_dot cs) [
  | some cut ↦ some (c ∷ cut.0, cut.1)
  | none ↦ if c == b'.' then some ([], cs) else none
]

unfoldable pub stem_and_rest : Option (Text × Text) → Option (Text × Text)
stem_and_rest none = none
stem_and_rest (some ([], rest)) = none
stem_and_rest (some (c ∷ stem, rest)) = some (c ∷ stem, rest)

-- Path::extension of a file name, with the stem in front of it: a dot at the front starts none.
unfoldable pub extension : Text → Option (Text × Text)
extension name = stem_and_rest (cut_at_dot name)
