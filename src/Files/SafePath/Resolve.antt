-- ===== src/Files/SafePath/Resolve.antt =====
-- files/safe_path.rs: joining an offered path to the destination, and the way back.
use rusp.Prelude.{
  Bool, true, false, not, Option, none, some, List, [], ◌∷◌, Result, ok, err, ◌>>=◌, ◌>>◌, fail_if,
  join,
}
use rusp.Error.{Text, TransferError, unsafe_path, lit, shown}
use rusp.Files.Path.{
  Component, root_dir, cur_dir, parent_dir, normal, slash, components, push, strip_prefix,
}
use rusp.Files.SafePath.{validate}

unfoldable pub push_all : Text → List Text → Text
push_all path [] = path
push_all path (c ∷ cs) = push_all (push path c) cs

-- `any` is the variable of the loop.
unfoldable pub plain : Bool → List Component → Bool
plain any [] = any
plain any (normal s ∷ cs) = plain true cs
plain any (root_dir ∷ cs) = false
plain any (cur_dir ∷ cs) = false
plain any (parent_dir ∷ cs) = false

unfoldable pub plain_relative : Option (List Component) → Bool
plain_relative none = false
plain_relative (some cs) = plain false cs

unfoldable pub is_plain_descendant : Text → Text → Bool
is_plain_descendant root path = plain_relative (strip_prefix (components root) (components path))

unfoldable pub resolve : Text → Text → Result TransferError Text
resolve root offered = do
  parts ← validate offered
  let path = push_all root parts
  fail_if (not (is_plain_descendant root path)) (
      unsafe_path
        (lit "`" ∷ shown offered ∷ lit "` would end up outside the destination directory" ∷ []))
  ok path

-- The names of a relative path; every path of the model is valid UTF-8.
unfoldable pub manifest_parts : Text → List Component → Result TransferError (List Text)
manifest_parts relative [] = ok []
manifest_parts relative (normal s ∷ cs) = do rest ← manifest_parts relative cs; ok (s ∷ rest)
manifest_parts relative (root_dir ∷ cs) =
    err (unsafe_path (shown relative ∷ lit " is not a plain relative path" ∷ []))
manifest_parts relative (cur_dir ∷ cs) =
    err (unsafe_path (shown relative ∷ lit " is not a plain relative path" ∷ []))
manifest_parts relative (parent_dir ∷ cs) =
    err (unsafe_path (shown relative ∷ lit " is not a plain relative path" ∷ []))

unfoldable pub joined_parts : List Text → Result TransferError Text
joined_parts [] = err (unsafe_path (lit "empty path" ∷ []))
joined_parts (p ∷ ps) = ok (join slash (p ∷ ps))

unfoldable pub to_manifest_path : Text → Result TransferError Text
to_manifest_path relative = do
  parts ← manifest_parts relative (components relative)
  joined_parts parts
