-- ===== src/Files/Scan/Walk.antt =====
-- files/scan.rs: `scan`, from the paths of the command line to the manifest. What the file system says
-- of a path, and the walk over a directory (crate `walkdir`), are parameters.
use rusp.Prelude.{
  ℕ, zero, suc, ℤ, pos, negated, ◌+◌, ◌^◌, ◌%◌, Bool, true, false, not, ◌&&◌, Option, none, some,
  List, [], ◌∷◌, ◌++◌, length, any, ltb, ◌==◌, if◌then◌else◌, Result, ok, err, ok_or, map_err,
  ◌>>=◌, ◌>>◌, fail_if, codes, decimal, starts_with, text_eq,
}
use rusp.Error.{
  Error, TransferError, Text, Message, IoError, transfer, io, bad_manifest, unsafe_path, lit, shown,
  number, from_transfer,
}
use rusp.Files.Path.Names.{file_name, extension}
use rusp.Files.SafePath.{validate}
use rusp.Files.SafePath.Resolve.{to_manifest_path}
use rusp.Files.Scan.{Source, Scan}
use rusp.Transfer.Receiver.{max_entries}

pub data Kind : Type 0 where
  symlink directory regular special : Kind

-- `modified_seconds` is folded into the time.
-- A time of modification: how many seconds after 1970 it is, or how many before.
pub data Modified : Type 0 where
  after before : ℕ → Modified

pub record Metadata : Type 0 where
  pub kind : Kind
  pub len : ℕ
  pub mode : Option ℕ
  pub modified : Result IoError Modified

-- An item of the walk below a directory; `relative` is what `strip_prefix` leaves of its path.
pub record Item : Type 0 where
  pub depth : ℕ
  pub path : Text
  pub relative : Option Text
  pub kind : Kind
  pub metadata : Result IoError Metadata

pub record FileTree : Type 0 where
  pub symlink_metadata : Text → Result IoError Metadata
  pub metadata : Text → Result IoError Metadata
  -- The name of what `canonicalize` gives.
  pub canonical_name : Text → Option Text
  pub walk : Text → Bool → List (Result Message Item)

unfoldable pub with_path : {A : Type 0} → Text → Result IoError A → Result Error A
with_path path = map_err (io (lit "read " ∷ shown path ∷ []))

unfoldable pub directory_source : Text → Source
directory_source path = record {
  entry = record { path = path; kind = 1; size = 0; mode = none; mtime = none };
  path = none;
}

-- `file_entry`, with the place that the file is read from.
-- The seconds with their sign, if `i64::try_from` takes them.
unfoldable pub signed : (ℕ → ℤ) → ℕ → Option ℤ
signed sign secs = if ltb secs (2 ^ 63) then some (sign secs) else none

unfoldable pub modified_seconds : Result IoError Modified → Option ℤ
modified_seconds (err e) = none
modified_seconds (ok (after secs)) = signed pos secs
modified_seconds (ok (before secs)) = signed negated secs

unfoldable pub file_source : Text → Metadata → Text → Source
file_source name m path = record {
  entry = record {
    path = name;
    kind = 0;
    size = m.len;
    mode = m.mode;
    mtime = modified_seconds m.modified;
  };
  path = some path;
}

unfoldable pub push_source : Scan → Source → Scan
push_source scan s = record scan { sources = scan.sources ++ (s ∷ []) }

unfoldable pub push_file : Scan → Text → Metadata → Text → Scan
push_file scan name m path = record (push_source scan (file_source name m path)) {
  total_bytes = (scan.total_bytes + m.len) % 2 ^ 64;
}

unfoldable pub skip : Scan → Message → Scan
skip scan why = record scan { skipped = scan.skipped ++ (why ∷ []) }

unfoldable pub skip_link : Scan → Text → Scan
skip_link scan path =
    skip scan
      (shown path ∷ lit ": symbolic link (use --follow-symlinks to send what it points at)" ∷ [])

unfoldable pub skip_special : Scan → Text → Scan
skip_special scan path = skip scan (shown path ∷ lit ": not a regular file or directory" ∷ [])

-- A name and whether it is taken; `used` holds what was given out.
unfoldable pub is_used : Text → List Text → Bool
is_used name used = any (text_eq name) used

unfoldable pub split_extension : Text → Option (Text × Text)
split_extension name = if starts_with b'.' name then none else extension name

unfoldable pub variant : Text → Option (Text × Text) → ℕ → Text
variant name none n = name ++ codes " (" ++ decimal n ++ codes ")"
variant name (some (stem, ext)) n = stem ++ codes " (" ++ decimal n ++ codes ")." ++ ext

-- The loop over `2..1000`, from `n` on with so many numbers left.
unfoldable pub first_variant : Text → List Text → ℕ → ℕ → Text × List Text
first_variant name used n zero =
    let fallback = name ++ (b'.' ∷ decimal (length used)) in
    (fallback, if is_used fallback used then used else fallback ∷ used)
first_variant name used n (suc left) =
    let rest = first_variant name used (suc n) left in
    let tried = variant name (split_extension name) n in
    if is_used tried used then rest else (tried, tried ∷ used)

unfoldable pub disambiguate : Text → List Text → Text × List Text
disambiguate name used =
    if is_used name used then first_variant name used 2 998 else (name, name ∷ used)

-- `validate(&name)?`, where the parts are not needed.
unfoldable pub check_path : Text → Result Error (Unit {0})
check_path path = from_transfer (validate path) >>= λ _. ok tt

unfoldable pub or_canonical : Option Text → Option Text → Option Text
or_canonical none other = other
or_canonical (some name) other = some name

unfoldable pub top_level_name : FileTree → Text → Result Error Text
top_level_name tree path = do
  name ← ok_or (or_canonical (file_name path) (tree.canonical_name path)) (
      transfer
        (bad_manifest (lit "cannot work out a name to send " ∷ shown path ∷ lit " under" ∷ [])))
  check_path name
  ok name

unfoldable pub check_count : Scan → Message → Result Error Scan
check_count scan why =
    if ltb max_entries (length scan.sources) then err (transfer (bad_manifest why)) else ok scan

unfoldable pub add_item_file : Scan → Text → Item → Result Error Scan
add_item_file scan name item = do
  m ← with_path item.path item.metadata
  ok (push_file scan name m item.path)

-- An item, by its type.
unfoldable pub add_kind : Scan → Text → Item → Kind → Result Error Scan
add_kind scan name item symlink = ok (skip_link scan item.path)
add_kind scan name item directory = ok (push_source scan (directory_source name))
add_kind scan name item regular = add_item_file scan name item
add_kind scan name item special = ok (skip_special scan item.path)

-- The path of an item in the manifest.
unfoldable pub item_name : Text → Item → Result Error Text
item_name top item = do
  relative ← ok_or item.relative (transfer (unsafe_path (shown item.path ∷ [])))
  below ← from_transfer (to_manifest_path relative)
  ok (top ++ (b'/' ∷ below))

unfoldable pub too_many : Text → Message
too_many root = lit "more than " ∷ number max_entries ∷ lit " items under " ∷ shown root ∷ []

unfoldable pub add_checked : Text → Text → Scan → Item → Result Error Scan
add_checked root name scan item = do
  check_path name
  added ← add_kind scan name item item.kind
  check_count added (too_many root)

unfoldable pub add_item : Text → Text → Scan → Result Message Item → Result Error Scan
add_item root top scan (err why) = ok (skip scan why)
add_item root top scan (ok item) =
    if item.depth == 0
    then ok scan
    else (item_name top item >>= λ name. add_checked root name scan item)

unfoldable pub add_items : Text → Text → Scan → List (Result Message Item) → Result Error Scan
add_items root top scan [] = ok scan
add_items root top scan (i ∷ is) = add_item root top scan i >>= λ s. add_items root top s is

unfoldable pub add_directory : FileTree → Bool → Scan → Text → Text → Result Error Scan
add_directory tree follow scan root top =
    add_items root top (push_source scan (directory_source top)) (tree.walk root follow)

-- A path of the command line, once its name is settled.
unfoldable pub add_top : FileTree → Bool → Scan → Text → Text → Metadata → Kind → Result Error Scan
add_top tree follow scan path top m directory = add_directory tree follow scan path top
add_top tree follow scan path top m regular = ok (push_file scan top m path)
add_top tree follow scan path top m _ = ok (skip_special scan path)

abbrev pub is_symlink : Kind → Bool
is_symlink symlink = true
is_symlink _ = false

unfoldable pub add_named :
    FileTree → Bool → Scan → Text → List Text → Metadata → Result Error (Scan × List Text)
add_named tree follow scan path used m = do
  name ← top_level_name tree path
  added ← add_top tree follow scan path (disambiguate name used).0 m m.kind
  ok (added, (disambiguate name used).1)

-- What a link points at.
unfoldable pub target_of : FileTree → Text → Metadata → Result Error Metadata
target_of tree path m = if is_symlink m.kind then with_path path (tree.metadata path) else ok m

-- One turn of the loop of `scan`.
unfoldable pub add_path :
    FileTree → Bool → Text → Scan × List Text → Metadata → Result Error (Scan × List Text)
add_path tree follow path (scan, used) m =
    if is_symlink m.kind && not follow
    then ok (skip_link scan path, used)
    else (target_of tree path m >>= add_named tree follow scan path used)

unfoldable pub add_paths :
    FileTree → Bool → List Text → Scan × List Text → Result Error (Scan × List Text)
add_paths tree follow [] state = ok state
add_paths tree follow (p ∷ ps) state = do
  m ← with_path p (tree.symlink_metadata p)
  next ← add_path tree follow p state m
  add_paths tree follow ps next

abbrev pub first_path : List Source → Option Text
first_path [] = none
first_path (s ∷ ss) = some s.entry.path

unfoldable pub name_hint : Scan → List Text → Option Text
name_hint scan paths = if length paths == 1 then first_path scan.sources else none

abbrev pub is_nil : {A : Type 0} → List A → Bool
is_nil [] = true
is_nil (x ∷ xs) = false

abbrev pub empty_scan : Scan
empty_scan = record { sources = []; total_bytes = 0; skipped = []; name_hint = none }

unfoldable pub too_large : Scan → Message
too_large scan =
    number (length scan.sources)
    ∷ lit " items is more than one transfer can carry (the limit is "
    ∷ number max_entries
    ∷ lit ")"
    ∷ []

-- Behind the loop.
unfoldable pub finish_scan : List Text → Scan × List Text → Result Error Scan
finish_scan paths (found, used) = do
  fail_if (is_nil found.sources) (transfer TransferError.empty)
  checked ← check_count found (too_large found)
  ok (record checked { name_hint = name_hint checked paths })

unfoldable pub scan : FileTree → Bool → List Text → Result Error Scan
scan tree follow paths = do
  fail_if (is_nil paths) (transfer TransferError.empty)
  found ← add_paths tree follow paths (empty_scan, [])
  finish_scan paths found
