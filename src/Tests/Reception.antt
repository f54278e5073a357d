-- ===== src/Tests/Reception.antt =====
-- files/writer.rs and transfer/receiver.rs: concrete runs on a disk in memory.
use rusp.Prelude.{
  ℕ, ◌+◌, ◌≤◌, ◌≡◌, ◌≢◌, ◌⊎◌, refl, ap, Bool, leb, ◌∙◌, false, Option, none, some, List, [], ◌∷◌,
  ◌++◌, length, text_eq, text_eq→eq, text_eq_refl, Bool-cases, inl, inr, if◌then◌else◌, Result, ok,
  err, codes, arith,
}
use rusp.Error.{Error, Text}
use rusp.Config.{ConflictPolicy}
use rusp.Protocol.Message.{Entry, Offer, control, file_end, sender}
use rusp.Protocol.Channel.{Channel}
use rusp.Files.Disk.{Disk, IsDisk, regular}
use rusp.Files.Writer.{
  FileWriter, commit, commit_body, dropping, discard, at_path, hash, write, after_write,
}
use rusp.Files.Writer.Create.{apply_mode}
use rusp.Files.Writer.Commit.{Holds, commit_lem, commit_elsewhere}
use rusp.Transfer.Receiver.{ReceiveOptions, Plan, entry_at}
use rusp.Transfer.Receiver.Files.{Active, active_write, after_active_write, active_finish}
use rusp.Transfer.Receiver.Run.{
  Receiving, Flow, handle, on_data, wrote, emit, on_file_end, end_entry, finished, marked,
  count_file,
}
use rusp.Transfer.Receiver.Session.{PendingOffer}
use rusp.Transfer.Receiver.Loop.{Side}
use rusp.Transfer.Receiver.Integrity.{Receives, active_write_lem}
use rusp.Transfer.Receiver.Reception.{feed, step_on, data_messages, joined, IsStored, received_file}

-- The contents of each path.
abbrev Memory : Type 0
Memory = Text → Option (List ℕ)

abbrev contents : Text → Memory → Option (List ℕ)
contents path d = d path

abbrev set : Text → Option (List ℕ) → Memory → Memory
set path new d other = if text_eq other path then new else d other

abbrev appended : Option (List ℕ) → List ℕ → Option (List ℕ)
appended none bytes = none
appended (some held) bytes = some (held ++ bytes)

-- The digest is the list of the bytes itself.
abbrev memory : Disk Memory
memory = record {
  symlink_metadata = λ path d. (ok regular, d);
  metadata = λ path d. (ok regular, d);
  create_dir = λ path d. (ok tt, d);
  create_dir_all = λ path d. (ok tt, d);
  create_new = λ path d. (ok tt, set path (some []) d);
  write_all = λ path bytes d. (ok tt, set path (appended (d path) bytes) d);
  flush_and_sync = λ path d. (ok tt, d);
  rename = λ from to d. (ok tt, set to (d from) (set from none d));
  remove_file = λ path d. (ok tt, set path none d);
  mode = λ path d. (ok 0, d);
  set_mode = λ path mode d. (ok tt, d);
  random = λ n d. (ok [], d);
  encode_hex = λ bytes. bytes;
  blake3 = λ bytes. bytes;
}

set_same : (path : Text) (new : Option (List ℕ)) (d : Memory) → set path new d path ≡ new
set_same path new d = rw (text_eq_refl path)

set_other :
    (path other : Text) (new : Option (List ℕ)) (d : Memory)
    → other ≢ path
    → set path new d other ≡ d other
set_other path other new d ne = elim (Bool-cases (text_eq other path)) [
  | inl same ↦ absurd (ne (text_eq→eq other path same))
  | inr differ ↦ rw differ
]

memory-IsDisk : IsDisk memory contents
memory-IsDisk = record {
  appends = λ path bytes held d h done.
      set_same path (appended (d path) bytes) d ∙ ap (λ o. appended o bytes) h;
  write_elsewhere = λ path other bytes d ne. set_other path other _ d ne;
  keeps = λ path other d. refl;
  moves = λ from to d done. set_same to (d from) (set from none d);
  move_elsewhere = λ from to other d ne ne'.
      set_other to other (d from) (set from none d) ne' ∙ set_other from other none d ne;
  failed_move = λ from to other e d h. cc;
  removes = λ path other d ne. set_other path other none d ne;
  mode_keeps = λ path other d. refl;
  set_mode_keeps = λ path other mode d. refl;
}

abbrev part : FileWriter
part = record {
  final_path = codes "f";
  part_path = codes "f.p";
  absorbed = 1 ∷ 2 ∷ [];
  written = 2;
}

abbrev half_written : Memory
half_written = set (codes "f.p") (some (1 ∷ 2 ∷ [])) (λ path. none)

part-Holds : Holds memory contents part half_written
unfolding text_eq
part-Holds = record {
  stored = refl;
  counted = omega arith;
  apart = λ e. absurd (omega (arith, ap length e));
}

abbrev committed : Result Error Text × Memory
committed = commit memory part (1 ∷ 2 ∷ []) 2 half_written

commit_lem_example :
    ((committed.0 ≡ ok (codes "f"))
      × (contents (codes "f") committed.1 ≡ some (1 ∷ 2 ∷ []))
      × (memory.blake3 part.absorbed ≡ 1 ∷ 2 ∷ [])
      × (part.written ≡ 2))
    ⊎ ((e : Error) × (committed.0 ≡ err e)
        × (contents (codes "f") committed.1 ≡ contents (codes "f") half_written))
commit_lem_example =
    commit_lem memory contents part (1 ∷ 2 ∷ []) 2 half_written (codes "f") memory-IsDisk part-Holds
      part-Holds.apart

commit_elsewhere_example :
    contents (codes "other") committed.1 ≡ contents (codes "other") half_written
commit_elsewhere_example =
    commit_elsewhere memory contents part (1 ∷ 2 ∷ []) 2 half_written (codes "other") memory-IsDisk
      part-Holds (λ e. absurd (omega (arith, ap length e)))
      (λ e. absurd (omega (arith, ap length e)))

abbrev next_chunk : List ℕ
next_chunk = 3 ∷ []

abbrev active : Active
active = record { index = 0; limit = 5; received = 2; writer = part }

active-Receives : Receives memory contents active half_written
active-Receives = record {
  holds = part-Holds;
  counted = refl;
  within = omega arith;
  small = omega arith;
}

abbrev entry : Entry
entry = record { path = codes "f"; kind = 0; size = 5; mode = none; mtime = none }

abbrev one_file : Offer
one_file = record { entries = entry ∷ []; total_bytes = 5; name_hint = none }

abbrev options : ReceiveOptions
options = record { output_dir = codes "/tmp"; on_conflict = ConflictPolicy.rename }

abbrev wants_it : Plan
wants_it = record { wanted = 0 ∷ []; skipped = []; files = 1; bytes = 5; directories = 0 }

abbrev running : Receiving Memory
running = record {
  current = some active;
  report = record { files = 0; bytes = 0; skipped = 0; directories = 0; output_dir = codes "/tmp" };
  events = [];
  on_disk = half_written;
}

abbrev chunks : List (ℕ × List ℕ)
chunks = (2, 3 ∷ []) ∷ (3, 4 ∷ 5 ∷ []) ∷ []

abbrev whole : List ℕ
whole = 1 ∷ 2 ∷ 3 ∷ 4 ∷ 5 ∷ []

abbrev after_all : Result Error Flow × Receiving Memory
after_all =
    feed memory one_file wants_it options 10
      (data_messages chunks ++ control (file_end 0 whole 5) ∷ []) running

received_file_example :
    IsStored memory one_file wants_it options 10 contents
      (codes "f")
      (1 ∷ 2 ∷ joined chunks)
      whole
      5
      running
      after_all.1
    × (0 ≡ active.index)
    × (5 ≤ active.limit)
unfolding feed step_on data_messages handle on_data wrote emit active_write after_active_write write
    after_write at_path on_file_end end_entry entry_at finished active_finish commit dropping
    commit_body hash text_eq marked apply_mode count_file discard
received_file_example =
    received_file memory one_file wants_it options 10 contents chunks 0 whole 5 active running
      memory-IsDisk active-Receives refl refl

active_write_lem_example :
    Receives memory contents
      (active_write memory active 2 next_chunk 10 half_written).1
      (active_write memory active 2 next_chunk 10 half_written).2
    × ((active_write memory active 2 next_chunk 10 half_written).1.writer.absorbed
        ≡ part.absorbed ++ next_chunk)
    × ((active_write memory active 2 next_chunk 10 half_written).1.writer.final_path
        ≡ part.final_path)
    × ((active_write memory active 2 next_chunk 10 half_written).1.index ≡ active.index)
    × ((active_write memory active 2 next_chunk 10 half_written).1.limit ≡ active.limit)
    × (active.received ≡ length part.absorbed)
    × (length next_chunk ≤ 10)
    × (length part.absorbed + 1 ≤ active.limit)
unfolding active_write after_active_write write after_write at_path
active_write_lem_example =
    active_write_lem memory contents active 2 10 next_chunk half_written memory-IsDisk
      active-Receives refl

abbrev pending : PendingOffer
pending = record { offer = one_file; plan = wants_it; options = options; chunk_limit = 10 }

abbrev channel : Channel
channel = record {
  reader = record { inner = record { incoming = 0 ∷ 1 ∷ []; broken = none }; max_frame = 100 };
  writer = record {
    inner = record { sent = []; room = 200 };
    max_frame = 100;
    scratch = record { bytes = []; len = 4 };
  };
  seal_key = record { key = []; counter = 0 };
  open_key = record { key = []; counter = 0; poisoned = false };
  version = 1;
  role = sender;
  peer_agent = [];
  in_buf = [];
  out_buf = record { bytes = 0 ∷ 0 ∷ 0 ∷ 0 ∷ []; len = 4 };
}

abbrev side : Side Memory
side = record {
  channel = channel;
  state = record {
    current = none;
    report = record { files = 0; bytes = 0; skipped = 0; directories = 0; output_dir = [] };
    events = [];
    on_disk = half_written;
  };
}

-- Cancelled at the second check.
abbrev token : ℕ → Bool
token n = leb 1 n
