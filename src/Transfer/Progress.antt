-- ===== src/Transfer/Progress.antt =====
-- transfer/progress.rs: the events of a transfer, and their counters.
use rusp.Prelude.{ℕ, ◌+◌, ◌^◌, ◌%◌}
use rusp.Error.{Text, Message}

pub data Event : Type 0 where
  started : ℕ → ℕ → Event
  file_started : ℕ → Text → ℕ → Event
  advanced : ℕ → Event
  file_finished : ℕ → Text → Event
  file_skipped : ℕ → Text → Message → Event
  directory_created : Text → Event
  finished : ℕ → ℕ → ℕ → Event

-- The counters are of 64 bits and wrap around.
pub record Counters : Type 0 where
  pub bytes : ℕ
  pub files : ℕ
  pub skipped : ℕ

unfoldable pub event : Counters → Event → Counters
event c (advanced n) = record c { bytes = (c.bytes + n) % 2 ^ 64 }
event c (file_finished index path) = record c { files = (c.files + 1) % 2 ^ 64 }
event c (file_skipped index path why) = record c { skipped = (c.skipped + 1) % 2 ^ 64 }
event c _ = c

unfoldable pub snapshot : Counters → ℕ × ℕ × ℕ
snapshot c = (c.bytes, c.files, c.skipped)
