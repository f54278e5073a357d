-- ===== src/Files/Writer/Create.antt =====
-- files/writer.rs: opening a destination: directories, conflicts and the part file.
use rusp.Prelude.{
  ℕ, zero, suc, ◌+◌, ◌*◌, ◌/◌, ◌%◌, Bool, ◌&&◌, ◌||◌, Option, none, some, List, [], ◌∷◌, ◌++◌, ◌==◌,
  if◌then◌else◌, starts_with, Result, ok, err, map_err, ok_or, codes, decimal, join, map, Act,
}
use rusp.Prelude.Steps.{◌>>=◌, ◌>>◌, pure, lift}
use rusp.Error.{
  Error, TransferError, Text, IoError, Message, unsafe_path, transfer, code, io, lit, shown,
}
use rusp.Config.{ConflictPolicy}
use rusp.Files.Path.{
  Component, root_dir, cur_dir, parent_dir, normal, components, push, strip_prefix,
}
use rusp.Files.Path.Names.{parent, file_name, extension}
use rusp.Files.SafePath.Resolve.{resolve}
use rusp.Files.Disk.{Disk, FileType, directory, symlink, regular}
use rusp.Files.Writer.{FileWriter, at_path}

pub data Destination : Type 0 where
  ready : FileWriter → Destination
  skipped : Text → Destination

abbrev pub refuse : {A : Type 0} → Message → Result Error A
refuse why = err (transfer (unsafe_path why))

-- `unwrap_or(Path::new("."))`
unfoldable pub or_dot : Option Text → Text
or_dot none = codes "."
or_dot (some path) = path

unfoldable pub file_name_or_refuse : Text → Result Error Text
file_name_or_refuse path = ok_or (file_name path) (transfer (unsafe_path (shown path ∷ [])))

-- The permission bits with execution wherever there is reading.
unfoldable pub add_execute : ℕ → ℕ → ℕ
add_execute bit mode = if mode / (bit * 4) % 2 == 1 && mode / bit % 2 == 0 then mode + bit else mode

unfoldable pub is_executable : ℕ → Bool
is_executable mode = mode % 2 == 1 || mode / 8 % 2 == 1 || mode / 64 % 2 == 1

unfoldable pub component_text : Component → Text
component_text root_dir = []
component_text cur_dir = codes "."
component_text parent_dir = codes ".."
component_text (normal name) = name

-- Path::display of the rest that `strip_prefix` leaves.
unfoldable pub display : List Component → Text
display relative = join b'/' (map component_text relative)

module _ {D : Type 0} (disk : Disk D) where
  unfoldable pub root_found : Text → Result IoError FileType → Act Error D (Unit {0})
  root_found root (ok directory) = pure tt
  root_found root (ok _) = lift (refuse (shown root ∷ lit " exists and is not a directory" ∷ []))
  root_found root (err IoError.not_found) =
      at_path "create destination directory" root (disk.create_dir_all root)
  root_found root (err e) = lift (err (io (lit "inspect " ∷ shown root ∷ []) e))

  unfoldable pub ensure_root : Text → Act Error D (Unit {0})
  ensure_root root d = let (found, d') = disk.metadata root d in root_found root found d'

  unfoldable pub created : Text → Result IoError (Unit {0}) → Result Error (Unit {0})
  created path (ok _) = ok tt
  created path (err IoError.already_exists) = ok tt
  created path (err e) = err (io (lit "create " ∷ shown path ∷ []) e)

  unfoldable pub directory_found : Text → Result IoError FileType → Act Error D (Unit {0})
  directory_found path (ok directory) = pure tt
  directory_found path (ok symlink) =
      lift (refuse (shown path ∷ lit " is a symbolic link; refusing to write through it" ∷ []))
  directory_found path (ok regular) =
      lift (refuse (shown path ∷ lit " exists and is not a directory" ∷ []))
  directory_found path (err IoError.not_found) =
      λ d. let (done, d') = disk.create_dir path d in (created path done, d')
  directory_found path (err e) = lift (err (io (lit "inspect " ∷ shown path ∷ []) e))

  unfoldable pub ensure_directory : Text → Act Error D (Unit {0})
  ensure_directory path d =
      let (found, d') = disk.symlink_metadata path d in directory_found path found d'

  unfoldable pub ensure_below : List Component → Text → List Component → Act Error D (Unit {0})
  ensure_below relative path [] = pure tt
  ensure_below relative path (normal name ∷ rest) =
      ensure_directory (push path name) >> ensure_below relative (push path name) rest
  ensure_below relative path (_ ∷ rest) =
      lift (refuse (shown (display relative) ∷ lit " is not a plain relative path" ∷ []))

  unfoldable pub below_root : Text → Text → Option (List Component) → Act Error D (Unit {0})
  below_root root target none =
      lift (refuse (shown target ∷ lit " is outside the destination" ∷ []))
  below_root root target (some relative) = ensure_root root >> ensure_below relative root relative

  unfoldable pub create_directory_chain : Text → Text → Act Error D (Unit {0})
  create_directory_chain root target =
      below_root root target (strip_prefix (components root) (components target))

  unfoldable pub create_directory : Text → Text → Act Error D Text
  create_directory root relative = do
    target ← lift (map_err transfer (resolve root relative))
    create_directory_chain root target
    pure target

  unfoldable pub candidate : Text → Option (Text × Text) → ℕ → Text
  candidate name none n = name ++ codes " (" ++ decimal n ++ codes ")"
  candidate name (some (stem, ext)) n = stem ++ codes " (" ++ decimal n ++ codes ")." ++ ext

  -- A name that starts with a dot is not cut.
  unfoldable pub cut_name : Text → Option (Text × Text)
  cut_name name = if starts_with b'.' name then none else extension name

  -- `for n in 1..10_000`, from `n` on with so many numbers left.
  unfoldable pub first_free : Text → Text → Text → ℕ → ℕ → Act Error D Text
  first_free target dir name n zero d = (err (transfer (TransferError.exists target)), d)
  first_free target dir name n (suc left) d =
      let path = push dir (candidate name (cut_name name) n) in
      let (found, d') = disk.symlink_metadata path d in
      let rest = first_free target dir name (suc n) left d' in
      elim found [ err _ ↦ (ok path, d') | ok _ ↦ rest ]

  unfoldable pub free_name : Text → Act Error D Text
  free_name target = do
    name ← lift (file_name_or_refuse target)
    first_free target (or_dot (parent target)) name 1 9999

  unfoldable pub replace : Text → Result IoError FileType → Act Error D (Unit {0})
  replace target (ok directory) = lift (refuse (shown target ∷ lit " is a directory" ∷ []))
  replace target _ = at_path "replace" target (disk.remove_file target)

  unfoldable pub resolve_taken : Text → ConflictPolicy → Act Error D (Option Text)
  resolve_taken target ConflictPolicy.skip = pure none
  resolve_taken target ConflictPolicy.fail = lift (err (transfer (TransferError.exists target)))
  resolve_taken target ConflictPolicy.overwrite = do
    (λ d. let (found, d') = disk.symlink_metadata target d in replace target found d')
    pure (some target)
  resolve_taken target ConflictPolicy.rename = do path ← free_name target; pure (some path)

  -- `none` means to skip the file.
  unfoldable pub resolve_conflict : Text → ConflictPolicy → Act Error D (Option Text)
  resolve_conflict target policy d =
      let (found, d') = disk.symlink_metadata target d in
      elim found [ err _ ↦ (ok (some target), d') | ok _ ↦ resolve_taken target policy d' ]

  unfoldable pub part_suffix : Text
  part_suffix = codes "rusp-part"

  unfoldable pub part_path_for : Text → Act Error D Text
  part_path_for final_path = do
    suffix ← (λ d. let (got, d') = disk.random 6 d in (map_err code got, d'))
    name ← lift (file_name_or_refuse final_path)
    pure (
        push (or_dot (parent final_path))
          (name ++ codes "." ++ disk.encode_hex suffix ++ codes "." ++ part_suffix))

  unfoldable pub open_part : Text → Option Text → Act Error D Destination
  open_part target none = pure (skipped target)
  open_part target (some final_path) = do
    part_path ← part_path_for final_path
    at_path "create" part_path (disk.create_new part_path)
    pure (
        ready
          (record { final_path = final_path; part_path = part_path; absorbed = []; written = 0 }))

  -- FileWriter::create
  unfoldable pub create : Text → Text → ConflictPolicy → Act Error D Destination
  create root relative policy = do
    target ← lift (map_err transfer (resolve root relative))
    dir ← lift (ok_or (parent target) (transfer (unsafe_path (shown relative ∷ []))))
    create_directory_chain root dir
    chosen ← resolve_conflict target policy
    open_part target chosen

  unfoldable pub mark_executable : Text → Act Error D (Unit {0})
  mark_executable path = do
    current ← at_path "read" path (disk.mode path)
    at_path "set permissions on" path
        (disk.set_mode path (add_execute 64 (add_execute 8 (add_execute 1 current))))

  -- FileWriter::apply_mode
  unfoldable pub apply_mode : Text → Option ℕ → Act Error D (Unit {0})
  apply_mode path none = pure tt
  apply_mode path (some mode) = if is_executable mode then mark_executable path else pure tt
