-- ===== src/Tests/Scanning.antt =====
-- A scan of a directory with one file, and of a file with the same name.
use rusp.Prelude.{
  negsuc, negated, split, text_eq, as_bytes, decimal, digits, encode_utf8, ends_with,
  is_ascii_alphabetic, is_control, join, to_ascii_lowercase, trim_end, until, ◌≤◌, refl, false,
  none, some, List, [], ◌∷◌, length, codes, Result, ok,
}
use rusp.Error.{Text, Message}
use rusp.Files.Path.Names.{file_name, last_name, cut_at_dot, extension, stem_and_rest}
use rusp.Files.Path.{components, with_first, is_slash, first_segment, of_segment, of_segments}
use rusp.Files.SafePath.Resolve.{joined_parts, manifest_parts, to_manifest_path}
use rusp.Files.SafePath.{
  check_component, check_components, is_separator, is_windows_device_name,
  is_windows_drive_prefixed, refuse, validate,
}
use rusp.Files.Scan.{Scan}
use rusp.Files.Scan.Walk.{
  add_paths, with_path, add_path, target_of, add_named, top_level_name, or_canonical, add_checked,
  add_directory, add_item, add_item_file, add_items, add_kind, add_top, check_count, check_path,
  directory_source, disambiguate, file_source, finish_scan, first_variant, is_used, item_name,
  name_hint, push_file, push_source, split_extension, variant, FileTree, before, modified_seconds,
  signed, Metadata, Item, directory, regular, scan,
}
use rusp.Files.Scan.Manifest.{IsManifest, scan-IsManifest}
use rusp.Transfer.Receiver.{max_entries}

abbrev file_data : Metadata
file_data = record { kind = regular; len = 5; mode = none; modified = ok (before 86400) }

abbrev directory_data : Metadata
directory_data = record { kind = directory; len = 0; mode = none; modified = ok (before 86400) }

abbrev below : List (Result Message Item)
below =
    ok (record {
      depth = 1;
      path = codes "a/b";
      relative = some (codes "b");
      kind = regular;
      metadata = ok file_data;
    })
    ∷ []

abbrev metadata_of : Text → Metadata
metadata_of (c ∷ []) = directory_data
metadata_of _ = file_data

abbrev tree : FileTree
tree = record {
  symlink_metadata = λ path. ok (metadata_of path);
  metadata = λ path. ok file_data;
  canonical_name = λ path. none;
  walk = λ path follow. below;
}

abbrev paths : List Text
paths = codes "a" ∷ codes "x/a" ∷ []

abbrev scanned : Scan
scanned = record {
  sources =
      record {
        entry = record { path = codes "a"; kind = 1; size = 0; mode = none; mtime = none };
        path = none;
      }
      ∷ record {
        entry = record {
          path = codes "a/b";
          kind = 0;
          size = 5;
          mode = none;
          mtime = some (negsuc 86399);
        };
        path = some (codes "a/b");
      }
      ∷ record {
        entry = record {
          path = codes "a (2)";
          kind = 0;
          size = 5;
          mode = none;
          mtime = some (negsuc 86399);
        };
        path = some (codes "x/a");
      }
      ∷ [];
  total_bytes = 10;
  skipped = [];
  name_hint = none;
}

scan-IsManifest_example :
    IsManifest scanned × (1 ≤ length scanned.sources) × (length scanned.sources ≤ max_entries)
unfolding modified_seconds signed negated scan add_paths with_path add_path target_of add_named
    top_level_name or_canonical file_name last_name components with_first split is_slash
    first_segment text_eq of_segment of_segments cut_at_dot extension stem_and_rest joined_parts
    manifest_parts to_manifest_path check_component check_components is_separator
    is_windows_device_name is_windows_drive_prefixed refuse validate add_checked add_directory
    add_item add_item_file add_items add_kind add_top check_count check_path directory_source
    disambiguate file_source finish_scan first_variant is_used item_name name_hint push_file
    push_source split_extension variant as_bytes decimal digits encode_utf8 ends_with
    is_ascii_alphabetic is_control join to_ascii_lowercase trim_end until
scan-IsManifest_example = scan-IsManifest tree false paths scanned refl
