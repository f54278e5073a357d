-- ===== src/Transfer/Sender/Run.antt =====
-- transfer/sender.rs: the loops of `send_file` and `send`.
use rusp.Prelude.{
  ℕ, zero, suc, ◌+◌, ◌-◌, ◌^◌, ◌%◌, min, Option, none, some, List, [], ◌∷◌, ◌++◌, length, get_elem?,
  ltb, if◌then◌else◌, Result, ok, err, ok_or, Act,
}
use rusp.Prelude.Steps.{◌>>=◌, ◌>>◌, pure, lift}
use rusp.Error.{Error, Text, transfer, bad_manifest, declined, lit, shown}
use rusp.Protocol.Frame.{with_capacity}
use rusp.Protocol.Message.{
  Capabilities, Entry, Hash32, ControlMessage, Incoming, control, capabilities, offer, accept,
  decline, cancel, failure, file_start, file_end, complete, intersect, is_file, name,
}
use rusp.Protocol.Version.{local_capabilities}
use rusp.Protocol.Externals.{Externals}
use rusp.Protocol.Channel.{
  Channel, apply_capabilities, chunk_size, send_control, recv, recv_control,
}
use rusp.Files.Scan.{Source, Scan, entries, file_count}
use rusp.Transfer.Progress.{started, file_started, advanced, file_finished, finished}
use rusp.Transfer.Sender.{
  peer_failure, cancelled_by_peer, unexpected_message, validate_selection, frame_capacity,
}
use rusp.Transfer.Sender.Send.{
  Reader, SendReport, Sending, Halt, halt, fill_chunk, open_source, check_cancelled, emit, on_files,
  on_channel, send_chunk,
}

unfoldable pub expect_capabilities : ControlMessage → Result Error Capabilities
expect_capabilities (capabilities caps) = ok caps
expect_capabilities (failure code message) = err (peer_failure code message)
expect_capabilities other = err (unexpected_message (name other) "capabilities")

unfoldable pub expect_selection : ℕ → ControlMessage → Result Error (List ℕ)
expect_selection n (accept wanted) = validate_selection wanted n
expect_selection n (decline reason) = err (transfer (declined reason))
expect_selection n (cancel reason) = err (cancelled_by_peer reason)
expect_selection n (failure code message) = err (peer_failure code message)
expect_selection n other = err (unexpected_message (name other) "accept or decline")

unfoldable pub expect_complete : ControlMessage → Result Error (Unit {0})
expect_complete (complete summary) = ok tt
expect_complete (failure code message) = err (peer_failure code message)
expect_complete (cancel reason) = err (cancelled_by_peer reason)
expect_complete other = err (unexpected_message (name other) "complete")

-- `scan.sources.get(index).and_then(|s| s.path)`
unfoldable pub path_of : Option Source → Option Text
path_of none = none
path_of (some s) = s.path

unfoldable pub source_path : Scan → ℕ → Option Text
source_path scan index = path_of (get_elem? scan.sources index)

-- What the message that is read after a failed write says.
unfoldable pub recovered : Result Error (Option Incoming) → Option Error
recovered (ok (some (control (failure code message)))) = some (peer_failure code message)
recovered (ok (some (control (cancel reason)))) = some (cancelled_by_peer reason)
recovered _ = none

unfoldable pub recover_peer_error : Externals → Channel → Option Error × Channel
recover_peer_error env c = let (got, c') = recv env c in (recovered got, c')

-- Sums over the selected files; an index that passed the check is in range.
abbrev pub keep_file : Option Entry → List Entry → List Entry
keep_file none es = es
keep_file (some e) es = if is_file e.kind then e ∷ es else es

unfoldable pub selected : List Entry → List ℕ → List Entry
selected es [] = []
selected es (i ∷ is) = keep_file (get_elem? es i) (selected es is)

unfoldable pub total_size : List Entry → ℕ
total_size [] = 0
total_size (e ∷ es) = (e.size + total_size es) % 2 ^ 64

module _ (env : Externals) (blake3 : List ℕ → Hash32) {F : Type 0} (reader : Reader F) where
  unfoldable pub send_message : ControlMessage → Act Halt (Sending F) (Unit {0})
  send_message msg = on_channel (λ c. send_control env c msg)

  -- Behind a read: an empty chunk means that the file has become shorter, and ends the loop.
  unfoldable pub after_chunk :
      (ℕ × List ℕ → Act Halt (Sending F) (ℕ × List ℕ))
      → ℕ
      → ℕ × List ℕ
      → List ℕ
      → Act Halt (Sending F) (ℕ × List ℕ)
  after_chunk next want sent [] = pure sent
  after_chunk next want (offset, hashed) (b ∷ bytes) = do
    send_chunk env offset want (b ∷ bytes)
    emit (advanced (length (b ∷ bytes)))
    next (offset + length (b ∷ bytes), hashed ++ (b ∷ bytes))

  -- The loop of `send_file`; the state is the offset and what has been hashed. Each turn but the last
  -- adds a byte, so that the size of the entry is enough turns.
  unfoldable pub send_chunks : ℕ → Text → ℕ → ℕ → ℕ × List ℕ → Act Halt (Sending F) (ℕ × List ℕ)
  send_chunks zero path chunk size sent = pure sent
  send_chunks (suc turns) path chunk size (offset, hashed) =
      if ltb offset size
      then (do
        check_cancelled
        bytes ←
            on_files
              (fill_chunk reader path (min chunk (size - offset)) (min chunk (size - offset)) [])
        after_chunk (send_chunks turns path chunk size) (min chunk (size - offset)) (offset, hashed)
            bytes)
      else pure (offset, hashed)

  unfoldable pub send_file : ℕ → Entry → Text → ℕ → Act Halt (Sending F) ℕ
  send_file index entry path chunk = do
    send_message (file_start index)
    on_files (open_source reader path)
    sent ← send_chunks entry.size path chunk entry.size (0, [])
    send_message (file_end index (blake3 sent.1) sent.0)
    pure sent.0

  unfoldable pub add_file : SendReport → ℕ → SendReport
  add_file report sent = record report {
    files = (report.files + 1) % 2 ^ 32;
    bytes = (report.bytes + sent) % 2 ^ 64;
  }

  unfoldable pub no_source : {A : Type 0} → Entry → Result Halt A
  no_source entry =
      err (some (transfer (bad_manifest (lit "no source file for entry " ∷ shown entry.path ∷ []))))

  -- One turn of the loop of `send`.
  unfoldable pub send_source :
      ℕ → ℕ → SendReport → Entry → Option Text → Act Halt (Sending F) SendReport
  send_source chunk index report entry none = lift (no_source entry)
  send_source chunk index report entry (some path) = do
    emit (file_started index entry.path entry.size)
    sent ← send_file index entry path chunk
    emit (file_finished index entry.path)
    pure (add_file report sent)

  unfoldable pub send_entry :
      Scan → ℕ → ℕ → SendReport → Option Entry → Act Halt (Sending F) SendReport
  send_entry scan chunk index report none = lift (err none)
  send_entry scan chunk index report (some entry) =
      if is_file entry.kind
      then send_source chunk index report entry (source_path scan index)
      else pure report

  unfoldable pub send_wanted : Scan → ℕ → List ℕ → SendReport → Act Halt (Sending F) SendReport
  send_wanted scan chunk [] report = pure report
  send_wanted scan chunk (index ∷ wanted) report = do
    check_cancelled
    report' ← send_entry scan chunk index report (get_elem? (entries scan) index)
    send_wanted scan chunk wanted report'

  unfoldable pub negotiate : Act Error Channel Capabilities
  negotiate = do
    (λ c. send_control env c (capabilities local_capabilities))
    got ← recv_control env
    theirs ← lift (expect_capabilities got)
    (λ c. (
      ok (intersect local_capabilities theirs),
      apply_capabilities c (intersect local_capabilities theirs),
    ))

  unfoldable pub new_report : Scan → List ℕ → SendReport
  new_report scan wanted = record {
    files = 0;
    bytes = 0;
    skipped = file_count scan % 2 ^ 32 - length (selected (entries scan) wanted) % 2 ^ 32;
  }

  unfoldable pub send : Scan → Act Halt (Sending F) SendReport
  send scan = do
    caps ← on_channel negotiate
    chunk ← (λ st. (ok_or (chunk_size st.channel caps) none, st))
    send_message (
        offer (record {
          entries = entries scan;
          total_bytes = scan.total_bytes;
          name_hint = scan.name_hint;
        }))
    answer ← on_channel (recv_control env)
    wanted ← lift (halt (expect_selection (length (entries scan)) answer))
    emit (
        started (length (selected (entries scan) wanted) % 2 ^ 32)
          (total_size (selected (entries scan) wanted)))
    (λ st. (ok tt, record st { buf = with_capacity (frame_capacity chunk) }))
    report ← send_wanted scan chunk wanted (new_report scan wanted)
    send_message
        (complete (record { files = report.files; bytes = report.bytes; skipped = report.skipped }))
    reply ← on_channel (recv_control env)
    lift (halt (expect_complete reply))
    emit (finished report.files report.bytes report.skipped)
    pure report
