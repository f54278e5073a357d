-- ===== src/Files/Writer.antt =====
-- files/writer.rs: a file being received, from its first byte to the rename.
pub mod Commit
pub mod Create
use Prim.Native.String.{String}
use rusp.Prelude.{
  ℕ, ◌+◌, ◌^◌, ◌%◌, ◌*◌, ◌/◌, Bool, not, Option, none, some, List, [], ◌∷◌, ◌++◌, length, ◌==◌,
  if◌then◌else◌, text_eq, Result, ok, err, map_err, codes, Act,
}
use rusp.Prelude.Steps.{◌>>=◌, ◌>>◌, pure, lift}
use rusp.Error.{
  Error, TransferError, Text, IoError, integrity, size_mismatch, transfer, io, lit, shown,
}
use rusp.Files.Disk.{Disk}
use rusp.Files.Path.Names.{file_name}
use rusp.Protocol.Message.{Hash32, short}

-- `BLAKE3` state: what the hasher has absorbed.
pub record FileWriter : Type 0 where
  pub final_path : Text
  pub part_path : Text
  pub absorbed : List ℕ
  pub written : ℕ

unfoldable pub name_or_file : Option Text → Text
name_or_file none = codes "file"
name_or_file (some name) = name

unfoldable pub display_name : Text → Text
display_name path = name_or_file (file_name path)

-- `.path_ctx(verb, path)`
unfoldable pub at_path : {A : Type 0} {D : Type 0} → String → Text → Act IoError D A → Act Error D A
at_path verb path call d =
    let (done, d') = call d in (map_err (io (lit verb ∷ lit " " ∷ shown path ∷ [])) done, d')

module _ {D : Type 0} (disk : Disk D) where
  unfoldable pub after_write :
      FileWriter → List ℕ → Result Error (Unit {0}) × D → Result Error (Unit {0}) × FileWriter × D
  after_write w bytes (err e, d) = (err e, w, d)
  after_write w bytes (ok _, d) = (
    ok tt,
    record w { absorbed = w.absorbed ++ bytes; written = (w.written + length bytes) % 2 ^ 64 },
    d,
  )

  unfoldable pub write : FileWriter → List ℕ → D → Result Error (Unit {0}) × FileWriter × D
  write w bytes d =
      after_write w bytes (at_path ("write") w.part_path (disk.write_all w.part_path bytes) d)

  unfoldable pub hash : FileWriter → Hash32
  hash w = disk.blake3 w.absorbed

  -- `Drop`: the result of the removal is ignored.
  unfoldable pub discard : FileWriter → D → D
  discard w d = (disk.remove_file w.part_path d).1

  -- The body of `commit`, without the drop of `self` that ends every path through it.
  unfoldable pub commit_body : FileWriter → Hash32 → ℕ → Act Error D Text
  commit_body w expected expected_size =
      if not (w.written == expected_size)
      then lift (err (transfer (size_mismatch (display_name w.final_path) expected_size w.written)))
      else if not (text_eq (hash w) expected)
      then lift
          (err (transfer (integrity (display_name w.final_path) (short expected) (short (hash w)))))
      else do
        at_path "finish writing" w.part_path (disk.flush_and_sync w.part_path)
        at_path "move into place" w.final_path (disk.rename w.part_path w.final_path)
        pure w.final_path

  unfoldable pub dropping : FileWriter → Result Error Text × D → Result Error Text × D
  dropping w (done, d) = (done, discard w d)

  unfoldable pub commit : FileWriter → Hash32 → ℕ → Act Error D Text
  commit w expected expected_size d = dropping w (commit_body w expected expected_size d)
