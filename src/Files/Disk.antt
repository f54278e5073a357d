-- ===== src/Files/Disk.antt =====
-- The file system calls that files/writer.rs makes (tokio::fs, std::fs), as an interface: the
-- operating system is not part of the program. Each call reports a result and leaves a new state of
-- the disk.
use rusp.Prelude.{ℕ, ◌≡◌, ◌≢◌, Option, some, List, ◌++◌, ok, err, Act}
use rusp.Error.{Text, IoError, CodeError}

pub data FileType : Type 0 where
  directory symlink regular : FileType

pub record Disk (D : Type 0) : Type 0 where
  pub symlink_metadata : Text → Act IoError D FileType
  pub metadata : Text → Act IoError D FileType
  pub create_dir : Text → Act IoError D (Unit {0})
  pub create_dir_all : Text → Act IoError D (Unit {0})
  pub create_new : Text → Act IoError D (Unit {0})
  pub write_all : Text → List ℕ → Act IoError D (Unit {0})
  pub flush_and_sync : Text → Act IoError D (Unit {0})
  pub rename : Text → Text → Act IoError D (Unit {0})
  pub remove_file : Text → Act IoError D (Unit {0})
  pub mode : Text → Act IoError D ℕ
  pub set_mode : Text → ℕ → Act IoError D (Unit {0})
  -- getrandom, so many bytes; and `hex::encode`
  pub random : ℕ → Act CodeError D (List ℕ)
  pub encode_hex : List ℕ → Text
  -- The BLAKE3 digest.
  pub blake3 : List ℕ → List ℕ

-- What is relied on of the calls behind an open file, for the contents that the disk holds under a
-- path: what a call that succeeds does to its own paths, and that each call leaves the other paths
-- as they are.
pub record IsDisk {D : Type 0} (disk : Disk D) (contents : Text → D → Option (List ℕ))
    : Type 0 where
  pub appends :
      (path : Text) (bytes held : List ℕ) (d : D)
      → contents path d ≡ some held
      → (disk.write_all path bytes d).0 ≡ ok tt
      → contents path (disk.write_all path bytes d).1 ≡ some (held ++ bytes)
  pub write_elsewhere :
      (path other : Text) (bytes : List ℕ) (d : D)
      → other ≢ path
      → contents other (disk.write_all path bytes d).1 ≡ contents other d
  pub keeps :
      (path other : Text) (d : D) → contents other (disk.flush_and_sync path d).1 ≡ contents other d
  pub moves :
      (from to : Text) (d : D)
      → (disk.rename from to d).0 ≡ ok tt
      → contents to (disk.rename from to d).1 ≡ contents from d
  pub move_elsewhere :
      (from to other : Text) (d : D)
      → other ≢ from
      → other ≢ to
      → contents other (disk.rename from to d).1 ≡ contents other d
  pub failed_move :
      (from to other : Text) (e : IoError) (d : D)
      → (disk.rename from to d).0 ≡ err e
      → contents other (disk.rename from to d).1 ≡ contents other d
  pub removes :
      (path other : Text) (d : D)
      → other ≢ path
      → contents other (disk.remove_file path d).1 ≡ contents other d
  pub mode_keeps :
      (path other : Text) (d : D) → contents other (disk.mode path d).1 ≡ contents other d
  pub set_mode_keeps :
      (path other : Text) (mode : ℕ) (d : D)
      → contents other (disk.set_mode path mode d).1 ≡ contents other d

-- Calls on an open file and on a finished one that do not fail.
pub record IsReliable {D : Type 0} (disk : Disk D) : Type 0 where
  pub writes : (path : Text) (bytes : List ℕ) (d : D) → (disk.write_all path bytes d).0 ≡ ok tt
  pub flushes : (path : Text) (d : D) → (disk.flush_and_sync path d).0 ≡ ok tt
  pub renames : (from to : Text) (d : D) → (disk.rename from to d).0 ≡ ok tt
  pub modes : (path : Text) (d : D) → (mode : ℕ) × ((disk.mode path d).0 ≡ ok mode)
  pub sets_mode : (path : Text) (mode : ℕ) (d : D) → (disk.set_mode path mode d).0 ≡ ok tt
