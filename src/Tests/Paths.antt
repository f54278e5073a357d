-- ===== src/Tests/Paths.antt =====
-- files/safe_path.rs and transfer/sender.rs: concrete runs.
use rusp.Prelude.{
  ◌==◌, ◌||◌, ◌≤◌, length, as_bytes, ◌<◌, ◌≤◌, length, Distinct, ◌≡◌, ◌↔◌, refl, none, List, [],
  ◌∷◌, ◌++◌, map, ok, codes, All, split, as_bytes, is_control, ends_with, until, trim_end,
  to_ascii_lowercase, text_eq, encode_utf8,
}
use rusp.Error.{Text}
use rusp.Files.Path.{components, normal}
use rusp.Files.SafePath.{
  validate, is_separator, check_components, check_component, is_windows_device_name,
  is_windows_drive_prefixed,
}
use rusp.Files.SafePath.Resolve.{resolve}
use rusp.Files.SafePath.Sound.{IsSafe, IsDrive, validate-IsSafe, resolve-components}
use rusp.Protocol.Message.{Offer}
use rusp.Transfer.Receiver.{inspect, inspect_entries, max_entries}
use rusp.Transfer.Receiver.Inspection.{IsAcceptable, path_of, inspect_lem}
use rusp.Transfer.Sender.{validate_selection}
use rusp.Transfer.Sender.Selection.{Ascending, validate_selection_lem}

abbrev root : Text
root = codes "/tmp"

abbrev offered : Text
offered = codes "a/b.txt"

abbrev parts : List Text
parts = codes "a" ∷ codes "b.txt" ∷ []

validate-IsSafe_example :
    (parts ≡ split (λ ch. ch == b'/' || ch == 0x5c) offered)
    × (length (as_bytes offered) ≤ 4096)
    × (¬ IsDrive offered)
    × All IsSafe parts
unfolding validate check_components check_component split is_separator is_control as_bytes
    encode_utf8 ends_with is_windows_device_name is_windows_drive_prefixed until trim_end
    to_ascii_lowercase text_eq
validate-IsSafe_example = validate-IsSafe offered parts refl

resolve-components_example :
    (path : Text) × (resolve root offered ≡ ok path)
    × (components path ≡ components root ++ map normal parts)
unfolding validate check_components check_component split is_separator is_control as_bytes
    encode_utf8 ends_with is_windows_device_name is_windows_drive_prefixed until trim_end
    to_ascii_lowercase text_eq
resolve-components_example = resolve-components root offered parts refl

validate_selection_lem_example :
    (validate_selection (0 ∷ 2 ∷ []) 3 ≡ ok (0 ∷ 2 ∷ [])) ↔ Ascending 3 none (0 ∷ 2 ∷ [])
validate_selection_lem_example = validate_selection_lem (0 ∷ 2 ∷ []) 3

-- An offer of one file.
abbrev one_file : Offer
one_file = record {
  entries = record { path = offered; kind = 0; size = 3; mode = none; mtime = none } ∷ [];
  total_bytes = 3;
  name_hint = none;
}

inspect_lem_example :
    (0 < length one_file.entries)
    × (length one_file.entries ≤ max_entries)
    × All IsAcceptable one_file.entries
    × Distinct (map path_of one_file.entries)
unfolding inspect inspect_entries validate check_components check_component split is_separator
    is_control as_bytes encode_utf8 ends_with is_windows_device_name is_windows_drive_prefixed until
    trim_end to_ascii_lowercase text_eq
inspect_lem_example = inspect_lem one_file refl
