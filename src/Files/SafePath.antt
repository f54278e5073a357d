-- ===== src/Files/SafePath.antt =====
-- files/safe_path.rs, as it is built for Unix: a path from the peer is accepted or refused.
pub mod Resolve
pub mod Sound
pub mod Device
use rusp.Prelude.{
  ℕ, ◌+◌, ◌≤◌, Bool, true, false, not, ◌&&◌, ◌||◌, Option, none, some, List, [], ◌∷◌, ◌++◌, map,
  any, length, ltb, leb, ◌==◌, if◌then◌else◌, text_eq, Result, ok, err, ◌>>=◌, ◌>>◌, fail_if, codes,
  as_bytes, is_control, is_ascii_alphabetic, to_ascii_lowercase, starts_with, ends_with, split,
  until, trim_end, join,
}
use Prim.Native.String.{String}
use rusp.Error.{Text, Message, TransferError, unsafe_path, lit, shown}

abbrev pub max_component_len : ℕ
max_component_len = 255

abbrev pub max_path_len : ℕ
max_path_len = 4096

abbrev pub slash : ℕ
slash = b'/'

abbrev pub backslash : ℕ
backslash = 0x5c

abbrev windows_device_names : List Text
windows_device_names = map codes (
    "con" ∷ "prn" ∷ "aux" ∷ "nul" ∷ "com1" ∷ "com2" ∷ "com3" ∷ "com4" ∷ "com5" ∷ "com6" ∷ "com7"
    ∷ "com8" ∷ "com9" ∷ "lpt1" ∷ "lpt2" ∷ "lpt3" ∷ "lpt4" ∷ "lpt5" ∷ "lpt6" ∷ "lpt7" ∷ "lpt8"
    ∷ "lpt9" ∷ [])

unfoldable pub is_separator : ℕ → Bool
is_separator c = c == slash || c == backslash

abbrev pub is_nil : Text → Bool
is_nil [] = true
is_nil (c ∷ cs) = false

abbrev second_is_colon : List ℕ → Bool
second_is_colon (b0 ∷ b1 ∷ rest) = b1 == b':' && is_ascii_alphabetic b0
second_is_colon _ = false

abbrev doubled : ℕ → Text → Bool
doubled c (a ∷ b ∷ rest) = a == c && b == c
doubled c _ = false

-- `C:`, `\\` and `//`
unfoldable pub is_windows_drive_prefixed : Text → Bool
is_windows_drive_prefixed path =
    second_is_colon (as_bytes path) || (doubled backslash path || doubled slash path)

unfoldable pub is_windows_device_name : Text → Bool
is_windows_device_name component =
    let stem = map to_ascii_lowercase (trim_end b' ' (until b'.' component)) in
    any (text_eq stem) windows_device_names

unfoldable pub refuse : Text → String → TransferError
refuse offered why = unsafe_path (lit "`" ∷ shown offered ∷ lit "` " ∷ lit why ∷ [])

unfoldable pub check_component : Text → Text → Result TransferError (Unit {0})
check_component offered c = do
  fail_if (is_nil c) (refuse offered "has an empty path component")
  fail_if (text_eq c (codes ".") || text_eq c (codes ".."))
      (refuse offered "tries to leave the destination directory")
  fail_if (ltb max_component_len (length (as_bytes c)))
      (refuse offered "has a path component that is too long")
  fail_if (ends_with b' ' c || ends_with b'.' c) (
      refuse offered
        "has a component ending in a dot or space, which some systems silently rewrite")
  fail_if (is_windows_device_name c) (refuse offered "uses a reserved Windows device name")

unfoldable pub check_components : Text → List Text → Result TransferError (Unit {0})
check_components offered [] = ok tt
check_components offered (c ∷ cs) = check_component offered c >> check_components offered cs

unfoldable pub validate : Text → Result TransferError (List Text)
validate offered = do
  fail_if (is_nil offered) (refuse offered "is empty")
  fail_if (ltb max_path_len (length (as_bytes offered)))
      (refuse offered "is longer than the protocol allows")
  fail_if (any is_control offered) (refuse offered "contains control characters")
  fail_if (starts_with slash offered || starts_with backslash offered)
      (refuse offered "is an absolute path")
  fail_if (is_windows_drive_prefixed offered) (refuse offered "names a Windows drive")
  check_components offered (split is_separator offered)
  ok (split is_separator offered)
