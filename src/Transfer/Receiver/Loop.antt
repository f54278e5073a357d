-- ===== src/Transfer/Receiver/Loop.antt =====
-- transfer/receiver.rs: the loop of `run`, what stands around it, and `accept`.
use rusp.Prelude.{
  ℕ, zero, suc, ◌+◌, ◌^◌, ◌%◌, Bool, Option, none, some, List, [], ◌∷◌, ◌++◌, length, get_elem?,
  if◌then◌else◌, Result, ok, err, Act,
}
use rusp.Prelude.Steps.{◌>>◌, pure}
use rusp.Error.{Error, Text, Message, is_cancelled}
use rusp.Protocol.Message.{
  Entry, ControlMessage, Incoming, Summary, accept, complete, cancel, is_directory,
}
use rusp.Protocol.Externals.{Externals}
use rusp.Protocol.Channel.{Channel, send_control, send_failure, recv_required}
use rusp.Files.Disk.{Disk}
use rusp.Files.Writer.Create.{create_directory}
use rusp.Transfer.Progress.{Event, started, file_skipped, directory_created, finished}
use rusp.Transfer.Sender.{cancel_check}
use rusp.Transfer.Receiver.{ReceiveReport, failure_code_for}
use rusp.Transfer.Receiver.Run.{Receiving, Flow, goes_on, done, drop_current, handle}
use rusp.Transfer.Receiver.Session.{PendingOffer, new_report}

-- What one frame leaves: the connection and the local variables.
pub record Side (D : Type 0) : Type 0 where
  pub channel : Channel
  pub state : Receiving D

module _ (env : Externals) {D : Type 0} (disk : Disk D) (pending : PendingOffer) where
  open pending use {offer, plan, options, chunk_limit}

  unfoldable pub note : Event → Side D → Side D
  note e s = record s { state = record s.state { events = s.state.events ++ e ∷ [] } }

  -- An early return: the local variables go out of scope.
  unfoldable pub leaves : Error → Side D → Result Error (Unit {0}) × Side D
  leaves e s = (
    err e,
    record s { state = drop_current disk offer plan options chunk_limit s.state.current s.state },
  )

  abbrev Next : Type 0
  Next = Side D → Option (Result Error (Unit {0}) × Side D)

  unfoldable pub after_handle :
      Next → Channel → Result Error Flow × Receiving D → Option (Result Error (Unit {0}) × Side D)
  after_handle next c (ok goes_on, st) = next (record { channel = c; state = st })
  after_handle next c (ok done, st) = some (ok tt, record { channel = c; state = st })
  after_handle next c (err e, st) = some (leaves e (record { channel = c; state = st }))

  unfoldable pub after_recv :
      Next
      → Receiving D
      → Result Error Incoming × Channel
      → Option (Result Error (Unit {0}) × Side D)
  after_recv next st (ok m, c) =
      after_handle next c (handle disk offer plan options chunk_limit m st)
  after_recv next st (err e, c) = some (leaves e (record { channel = c; state = st }))

  unfoldable pub after_check :
      Next → Side D → Result Error (Unit {0}) → Option (Result Error (Unit {0}) × Side D)
  after_check next s (ok _) = after_recv next s.state (recv_required env s.channel)
  after_check next s (err e) = some (leaves e s)

  -- `cancelled n` is what the token says at the n-th check. `none` is that the fuel ran out.
  unfoldable pub receive_loop :
      (ℕ → Bool) → ℕ → ℕ → Side D → Option (Result Error (Unit {0}) × Side D)
  receive_loop cancelled zero n s = none
  receive_loop cancelled (suc fuel) n s =
      after_check (receive_loop cancelled fuel (suc n)) s (cancel_check (cancelled n))

  -- The indices of a plan are those of entries, so that `none` is never met below.
  unfoldable pub skip_events : List (ℕ × Message) → Side D → Side D
  skip_events [] s = s
  skip_events ((index, reason) ∷ rest) s = skip_events rest (elim (get_elem? offer.entries index) [
    | some entry ↦ note (file_skipped index entry.path reason) s
    | none ↦ s
  ])

  unfoldable pub count_directory :
      Entry → Side D → Result Error Text × D → Result Error (Unit {0}) × Side D
  count_directory entry s (err e, d) = (err e, record s { state = record s.state { on_disk = d } })
  count_directory entry s (ok path, d) = (
    ok tt,
    note (directory_created entry.path) (record s {
      state = record s.state {
        on_disk = d;
        report = record s.state.report { directories = (s.state.report.directories + 1) % 2 ^ 32 };
      };
    }),
  )

  unfoldable pub make_directory : Option Entry → Act Error (Side D) (Unit {0})
  make_directory none s = (ok tt, s)
  make_directory (some entry) s =
      if is_directory entry.kind
      then count_directory entry s
          (create_directory disk options.output_dir entry.path s.state.on_disk)
      else (ok tt, s)

  -- Directories first.
  unfoldable pub make_directories : List ℕ → Act Error (Side D) (Unit {0})
  make_directories [] = pure tt
  make_directories (index ∷ rest) =
      make_directory (get_elem? offer.entries index) >> make_directories rest

  unfoldable pub send : ControlMessage → Act Error (Side D) (Unit {0})
  send msg s = let (sent, c) = send_control env s.channel msg in (sent, record s { channel = c })

  unfoldable pub summary : ReceiveReport → Summary
  summary r = record { files = r.files; bytes = r.bytes; skipped = r.skipped }

  unfoldable pub report_completion : Act Error (Side D) ReceiveReport
  report_completion s =
      (do
        send (complete (summary s.state.report))
        (λ t. (
          ok tt,
          note (finished s.state.report.files s.state.report.bytes s.state.report.skipped) t,
        ))
        pure s.state.report)
        s

  unfoldable pub prepare : Act Error (Side D) (Unit {0})
  prepare = do
    send (accept plan.wanted)
    (λ s. (ok tt, skip_events plan.skipped (note (started plan.files plan.bytes) s)))
    make_directories plan.wanted

  unfoldable pub initial : Channel → D → Side D
  initial c d = record {
    channel = c;
    state = record { current = none; report = new_report plan options; events = []; on_disk = d };
  }

  unfoldable pub completed :
      Option (Result Error (Unit {0}) × Side D) → Option (Result Error ReceiveReport × Side D)
  completed none = none
  completed (some (err e, s)) = some (err e, s)
  completed (some (ok _, s)) = some (report_completion s)

  -- Each frame takes at least one byte, so that the bytes to come are enough fuel.
  unfoldable pub run_loop :
      (ℕ → Bool) → Result Error (Unit {0}) × Side D → Option (Result Error ReceiveReport × Side D)
  run_loop cancelled (err e, s) = some (err e, s)
  run_loop cancelled (ok _, s) =
      completed (receive_loop cancelled (suc (length s.channel.reader.inner.incoming)) 0 s)

  unfoldable pub run : (ℕ → Bool) → Channel → D → Option (Result Error ReceiveReport × Side D)
  run cancelled c d = run_loop cancelled (prepare (initial c d))

  -- Tell the sender why, then give up.
  unfoldable pub tell : Error → Channel → Channel
  tell e c =
      if is_cancelled e
      then (send_control env c (cancel none)).1
      else send_failure env c (failure_code_for e) e

  unfoldable pub reported :
      Option (Result Error ReceiveReport × Side D) → Option (Result Error ReceiveReport × Side D)
  reported none = none
  reported (some (ok report, s)) = some (ok report, s)
  reported (some (err e, s)) = some (err e, record s { channel = tell e s.channel })

  -- PendingOffer::accept
  unfoldable pub accept_offer :
      (ℕ → Bool) → Channel → D → Option (Result Error ReceiveReport × Side D)
  accept_offer cancelled c d = reported (run cancelled c d)
