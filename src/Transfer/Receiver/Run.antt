-- ===== src/Transfer/Receiver/Run.antt =====
-- transfer/receiver.rs: the loop that writes what arrives (`run`), one message at a time.
use rusp.Prelude.{
  ℕ, ◌+◌, ◌^◌, ◌%◌, not, Option, none, some, List, [], ◌∷◌, ◌++◌, length, any, ◌==◌, if◌then◌else◌,
  Result, ok, err,
}
use rusp.Error.{Error, TransferError, Text, transfer, bad_manifest, lit, shown}
use rusp.Protocol.Message.{
  Entry, Offer, Hash32, Incoming, control, data_chunk, file_start, file_end, complete, cancel,
  failure, keepalive, name, is_file,
}
use rusp.Files.Disk.{Disk}
use rusp.Files.Path.{push}
use rusp.Files.Writer.{discard}
use rusp.Files.Writer.Create.{Destination, ready, skipped, create, apply_mode}
use rusp.Transfer.Progress.{Event, advanced, file_started, file_finished}
use rusp.Transfer.Sender.{peer_failure, cancelled_by_peer, unexpected_message}
use rusp.Transfer.Receiver.{ReceiveOptions, ReceiveReport, Plan, entry_at}
use rusp.Transfer.Receiver.Files.{Active, active_write, active_finish}

-- The local variables of `run`, the events it has reported and the disk.
pub record Receiving (D : Type 0) : Type 0 where
  pub current : Option Active
  pub report : ReceiveReport
  pub events : List Event
  pub on_disk : D

-- Whether the loop goes on or breaks.
pub data Flow : Type 0 where
  goes_on done : Flow

module _ {D : Type 0} (disk : Disk D) (offer : Offer) (plan : Plan) (options : ReceiveOptions)
    (chunk_limit : ℕ) where
  abbrev State : Type 0
  State = Receiving D

  unfoldable pub emit : Event → State → State
  emit e st = record st { events = st.events ++ e ∷ [] }

  -- A value of type `Active` that goes out of scope removes its part file.
  unfoldable pub drop_current : Option Active → State → State
  drop_current none st = record st { current = none }
  drop_current (some a) st = record st {
    current = none;
    on_disk = discard disk a.writer st.on_disk;
  }

  unfoldable pub wrote :
      ℕ → State → Result Error (Unit {0}) × Active × D → Result Error Flow × State
  wrote n st (ok _, a, d) =
      (ok goes_on, emit (advanced n) (record st { current = some a; on_disk = d }))
  wrote n st (err e, a, d) = (err e, record st { current = some a; on_disk = d })

  unfoldable pub on_data : ℕ → List ℕ → Option Active → State → Result Error Flow × State
  on_data offset bytes none st = (err (unexpected_message "data" "a file to have been started"), st)
  on_data offset bytes (some a) st =
      wrote (length bytes) st (active_write disk a offset bytes chunk_limit st.on_disk)

  unfoldable pub opened :
      ℕ → Entry → State → Result Error Destination × D → Result Error Flow × State
  opened index entry st (err e, d) = (err e, record st { on_disk = d })
  opened index entry st (ok (skipped _), d) = (
    err (transfer (TransferError.exists (push options.output_dir entry.path))),
    record st { on_disk = d },
  )
  opened index entry st (ok (ready w), d) = (
    ok goes_on,
    emit (file_started index entry.path entry.size) (record st {
      current = some (record { index = index; limit = entry.size; received = 0; writer = w });
      on_disk = d;
    }),
  )

  unfoldable pub start_entry : ℕ → Result Error Entry → State → Result Error Flow × State
  start_entry index (err e) st = (err e, st)
  start_entry index (ok entry) st =
      if not (is_file entry.kind)
      then (
        err (
            transfer (
              bad_manifest
                (shown entry.path ∷ lit " is not a file but data was sent for it" ∷ []))),
        st,
      )
      else if not (any (◌==◌ index) plan.wanted)
      then (
        err (
            transfer
              (bad_manifest (shown entry.path ∷ lit " was not accepted but was sent anyway" ∷ []))),
        st,
      )
      else opened index entry st
          (create disk options.output_dir entry.path options.on_conflict st.on_disk)

  unfoldable pub on_file_start : ℕ → Option Active → State → Result Error Flow × State
  on_file_start index (some a) st =
      (err (unexpected_message "file-start" "the current file to finish"), drop_current (some a) st)
  on_file_start index none st = start_entry index (entry_at offer index) st

  unfoldable pub count_file : ℕ → ℕ → Entry → State → State
  count_file index size entry st = emit (file_finished index entry.path) (record st {
    report = record st.report {
      files = (st.report.files + 1) % 2 ^ 32;
      bytes = (st.report.bytes + size) % 2 ^ 64;
    };
  })

  unfoldable pub marked :
      ℕ → ℕ → Entry → State → Result Error (Unit {0}) × D → Result Error Flow × State
  marked index size entry st (err e, d) = (err e, record st { on_disk = d })
  marked index size entry st (ok _, d) =
      (ok goes_on, count_file index size entry (record st { on_disk = d }))

  unfoldable pub finished :
      ℕ → ℕ → Entry → State → Result Error Text × D → Result Error Flow × State
  finished index size entry st (err e, d) = (err e, record st { on_disk = d })
  finished index size entry st (ok path, d) =
      marked index size entry (record st { on_disk = d }) (apply_mode disk path entry.mode d)

  unfoldable pub end_entry :
      ℕ → Hash32 → ℕ → Active → Result Error Entry → State → Result Error Flow × State
  end_entry index hash size a (err e) st = (err e, drop_current (some a) st)
  end_entry index hash size a (ok entry) st =
      finished index size entry (record st { current = none })
        (active_finish disk a hash size st.on_disk)

  unfoldable pub on_file_end : ℕ → Hash32 → ℕ → Option Active → State → Result Error Flow × State
  on_file_end index hash size none st =
      (err (unexpected_message "file-end" "a file to have been started"), st)
  on_file_end index hash size (some a) st =
      if not (a.index == index)
      then (
        err (unexpected_message "file-end" "the file that was started"),
        drop_current (some a) st,
      )
      else end_entry index hash size a (entry_at offer index) st

  unfoldable pub on_complete : Option Active → State → Result Error Flow × State
  on_complete none st = (ok done, st)
  on_complete (some a) st =
      (err (unexpected_message "complete" "the current file to finish"), drop_current (some a) st)

  -- The body of the loop, behind the `recv`.
  unfoldable pub handle : Incoming → State → Result Error Flow × State
  handle (data_chunk offset bytes) st = on_data offset bytes st.current st
  handle (control (file_start index)) st = on_file_start index st.current st
  handle (control (file_end index hash size)) st = on_file_end index hash size st.current st
  handle (control (complete summary)) st = on_complete st.current st
  handle (control (cancel reason)) st = (err (cancelled_by_peer reason), drop_current st.current st)
  handle (control (failure code message)) st =
      (err (peer_failure code message), drop_current st.current st)
  handle (control keepalive) st = (ok goes_on, st)
  handle (control msg) st = (err (unexpected_message (name msg) "file data or completion"), st)
