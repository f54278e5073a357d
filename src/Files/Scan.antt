-- ===== src/Files/Scan.antt =====
-- files/scan.rs: the manifest of what is to be sent.
pub mod Walk
pub mod Manifest
use rusp.Prelude.{ℕ, ◌+◌, Bool, Option, List, [], ◌∷◌, map, if◌then◌else◌}
use rusp.Error.{Text, Message}
use rusp.Protocol.Message.{Entry, is_file, is_directory}

-- A manifest entry and the local file it came from; directories have none.
pub record Source : Type 0 where
  pub entry : Entry
  pub path : Option Text

pub record Scan : Type 0 where
  pub sources : List Source
  pub total_bytes : ℕ
  pub skipped : List Message
  pub name_hint : Option Text

unfoldable pub entries : Scan → List Entry
entries scan = map (λ s. s.entry) scan.sources

abbrev pub count : (Entry → Bool) → List Source → ℕ
count p [] = 0
count p (s ∷ ss) = let rest = count p ss in if p s.entry then rest + 1 else rest

unfoldable pub file_count : Scan → ℕ
file_count scan = count (λ e. is_file e.kind) scan.sources

unfoldable pub directory_count : Scan → ℕ
directory_count scan = count (λ e. is_directory e.kind) scan.sources
